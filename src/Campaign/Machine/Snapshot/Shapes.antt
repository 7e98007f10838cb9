-- ===== src/Campaign/Machine/Snapshot/Shapes.antt =====
-- What the tests of `_parse_snapshot` and `reconstruct` of campaign/machine.py say of the JSON text.
use recursive_self_improveme.Common.{
  String, ◌≡◌, sym, ap, ◌∙◌, subst, inl, inr, true, Option, none, some, arith, str_eq_iff,
  Option-cases, some_eq, some_ne, ok, ok_eq, err_ne, Outcome-cases,
}
use recursive_self_improveme.Common.Json.{
  Bytes, Json, null, boolean, num, str, arr, obj, Items, Fields,
}
use recursive_self_improveme.Campaign.Phase.{CampaignPhase, value}
use recursive_self_improveme.Campaign.Phase.Edges.{parse_phase_eq}
use recursive_self_improveme.Campaign.Machine.Snapshot.{
  lookup, target_json, phase_of, target_of, is_text, at_key,
}
use recursive_self_improveme.Campaign.Machine.Snapshot.Reconstruct.{
  require_keys, snapshot_keys, items_of, shape_of, parse_snapshot, names_spec,
}

is_text_eq : (v : Json) (t : String) → is_text v t ≡ true → v ≡ str t
unfolding is_text
is_text_eq (str s) t k = ap (λ q. str q) ((str_eq_iff s t).0 k)
is_text_eq null t k = cc
is_text_eq (boolean b) t k = cc
is_text_eq (num n) t k = cc
is_text_eq (arr xs) t k = cc
is_text_eq (obj gs) t k = cc

pub names_spec_eq :
    (fs : Fields) (digest : String)
    → names_spec fs digest ≡ true
    → lookup "spec_digest" fs ≡ some (str digest)
unfolding names_spec
names_spec_eq fs digest h = elim (Option-cases (lookup "spec_digest" fs)) [
  | inl f ↦ ground (arith, rw (f, names_spec) at h)
  | inr (v, f) ↦ f ∙ ap (λ q. some q) (is_text_eq v digest (rw (f, names_spec) at h))
]

pub at_key_ok :
    {A : Type 0} (key : String) (fs : Fields) (f : Json → Option A) (a : A)
    → at_key key fs f ≡ some a
    → (v : Json) × (lookup key fs ≡ some v) × (f v ≡ some a)
unfolding at_key
at_key_ok key fs f a h = elim (Option-cases (lookup key fs)) [
  | inl n ↦ elim (some_ne (sym (rw (n, at_key) at h))) [ ]
  | inr (v, e) ↦ (v, e, rw (e, at_key) at h)
]

pub phase_of_eq : (v : Json) (p : CampaignPhase) → phase_of v ≡ some p → v ≡ str (value p)
unfolding phase_of
phase_of_eq (str s) p h = ap (λ q. str q) (parse_phase_eq s p h)
phase_of_eq null p h = cc
phase_of_eq (boolean b) p h = cc
phase_of_eq (num n) p h = cc
phase_of_eq (arr xs) p h = cc
phase_of_eq (obj gs) p h = cc

pub target_of_eq : (v : Json) (t : Option CampaignPhase) → target_of v ≡ some t → v ≡ target_json t
unfolding target_of target_json
target_of_eq null t h = ap target_json (some_eq h)
target_of_eq (str s) t h = elim (Option-cases (phase_of (str s))) [
  | inl f ↦ elim (some_ne (sym (rw (f, target_of) at h))) [ ]
  | inr (p, f) ↦ phase_of_eq (str s) p f ∙ ap target_json (some_eq (rw (f, target_of) at h))
]
target_of_eq (boolean b) t h = cc
target_of_eq (num n) t h = cc
target_of_eq (arr xs) t h = cc
target_of_eq (obj gs) t h = cc

items_of_ok :
    {F : Type 0} (o : Option Json) (items : Items)
    → items_of {E = F} o ≡ ok items
    → o ≡ some (arr items)
unfolding items_of
items_of_ok (some (arr xs)) items h = ap (λ q. some (arr q)) (ok_eq h)
items_of_ok none items h = elim (err_ne h) [ ]
items_of_ok (some null) items h = elim (err_ne h) [ ]
items_of_ok (some (boolean b)) items h = elim (err_ne h) [ ]
items_of_ok (some (num n)) items h = elim (err_ne h) [ ]
items_of_ok (some (str s)) items h = elim (err_ne h) [ ]
items_of_ok (some (obj gs)) items h = elim (err_ne h) [ ]

shape_of_ok :
    {F : Type 0} (v : Json) (fs : Fields) (items : Items)
    → shape_of {E = F} v ≡ ok (fs, items)
    → (v ≡ obj fs) × (lookup "transitions" fs ≡ some (arr items))
unfolding shape_of
shape_of_ok {F} (obj gs) fs items h = elim (Outcome-cases (require_keys {E = F} snapshot_keys gs)) [
  | inr f ↦ elim (err_ne (rw (f.1, shape_of) at h)) [ ]
  | inl k ↦ elim (Outcome-cases (items_of {E = F} (lookup "transitions" gs))) [
    | inr f ↦ elim (err_ne (rw (k.1, f.1, shape_of) at h)) [ ]
    | inl (xs, e) ↦
        let same = ok_eq (rw (k.1, e, shape_of) at h) in
        let fields = ap (λ q. q.0) same in
        (
          ap (λ q. obj q) fields,
          subst (λ q. lookup "transitions" q ≡ some (arr items)) fields
              (items_of_ok _ xs e ∙ ap (λ q. some (arr q.1)) same),
        )
  ]
]
shape_of_ok null fs items h = elim (err_ne h) [ ]
shape_of_ok (boolean b) fs items h = elim (err_ne h) [ ]
shape_of_ok (num n) fs items h = elim (err_ne h) [ ]
shape_of_ok (str s) fs items h = elim (err_ne h) [ ]
shape_of_ok (arr xs) fs items h = elim (err_ne h) [ ]

pub parse_snapshot_ok :
    {F : Type 0} (loads : Bytes → Option Json) (bytes : Bytes) (fs : Fields) (items : Items)
    → parse_snapshot {E = F} loads bytes ≡ ok (fs, items)
    → (loads bytes ≡ some (obj fs)) × (lookup "transitions" fs ≡ some (arr items))
unfolding parse_snapshot
parse_snapshot_ok loads bytes fs items h = elim (Option-cases (loads bytes)) [
  | inl f ↦ elim (err_ne (rw (f, parse_snapshot) at h)) [ ]
  | inr (v, f) ↦
      let shape = shape_of_ok v fs items (rw (f, parse_snapshot) at h) in
      (f ∙ ap (λ q. some q) shape.0, shape.1)
]
