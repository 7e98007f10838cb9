-- ===== src/Campaign/Machine/Snapshot.antt =====
-- Checkpoints of the orchestrator of campaign/machine.py: `checkpoint`, `reconstruct` and
-- `_parse_snapshot`, with the pinned spec of campaign/spec.py. The store of bytes is an interface, over
-- a world `S`. `json.loads` is a parameter, and so are `int`, `str` and `float` of a value that is not of
-- the type already. A time is written as its whole number.
pub mod Reconstruct
pub mod Restored
pub mod Shapes
pub mod Reading
mod Examples
use Prim.Native.String.{◌++◌ as str_append}
use recursive_self_improveme.Common.{
  ℕ, zero, suc, ◌+◌, ◌-◌, ◌*◌, ◌/◌, ◌%◌, ◌≤◌, ◌<◌, min, max, String, ◌≡◌, refl, sym, ap, ◌∙◌, subst,
  ◌≢◌, ◌↔◌, ◌⊎◌, inl, inr, Bool, true, false, ◌&&◌, ◌||◌, not, Option, none, some, List, [], ◌∷◌,
  ◌++◌, map, arith, str_eq, str_eq_iff, ltb, leb, ◌==◌, if◌then◌else◌, ltb→lt, lt→ltb, leb→le,
  ==_iff, Bool-cases, Option-cases, some_eq, some_ne, opt_eq, opt_eq→eq, opt_eq_refl, length,
  length-append, is_empty, replicate, All, All-append, Any, Outcome, ok, err, ◌>>=◌, ◌>>◌, ok_eq,
  err_ne, Outcome-cases,
}
use recursive_self_improveme.Common.Effects.{Effect}
use recursive_self_improveme.Common.Json.{
  Bytes, Json, Items, nil, cons, Fields, boolean, num, str, arr, null, obj, end, field, dumps,
  null_or,
}
use recursive_self_improveme.Security.{Crypto, DetachedSignature, verify}
use recursive_self_improveme.Campaign.Phase.{CampaignPhase, value, parse_phase}
use recursive_self_improveme.Campaign.Machine.{
  CampaignTransition, CampaignOrchestrator, ExecutionGate, CompensationGate,
}

-- `canonical_bytes` are those of the spec.
pub record PinnedCampaignSpec : Type 0 where
  pub canonical_bytes : Bytes
  pub digest : String
  pub signature : DetachedSignature

pub record CheckpointStore (S E : Type 0) : Type 0 where
  pub store : Bytes → String → Effect S E String
  pub load : String → Effect S E Bytes

-- `CampaignCheckpointError`, `SpecTamperedError`, what the store raised, and, as `bad_value`, the
-- `ValueError`, `KeyError` or `TypeError` of a phase or a transition that does not parse.
pub data SnapshotError (E : Type 0) : Type 0 where
  store_raised : E → SnapshotError E
  not_its_address : String → String → SnapshotError E
  not_json not_an_object transitions_not_a_list another_spec bad_value spec_tampered :
      SnapshotError E
  missing_key : String → SnapshotError E

unfoldable pub transition_json : CampaignTransition → Json
unfolding value
transition_json t = obj (
    field "at" (num t.at) (
      field "from_phase" (str (value t.from_phase)) (
        field "reason" (str t.reason)
          (field "sequence" (num t.sequence) (field "to_phase" (str (value t.to_phase)) end)))))

unfoldable pub transition_items : List CampaignTransition → Items
unfolding transition_json
transition_items [] = nil
transition_items (t ∷ ts) = cons (transition_json t) (transition_items ts)

-- `self._resume_target.value if self._resume_target else None`
unfoldable pub target_json : Option CampaignPhase → Json
unfolding value
target_json none = null
target_json (some p) = str (value p)

abbrev pub snapshot_schema_id : String
snapshot_schema_id = "evoruntime.campaign.snapshot/v1"

unfoldable pub snapshot_fields :
    {W E : Type 0} → PinnedCampaignSpec → CampaignOrchestrator W E → Fields
unfolding value target_json transition_items
snapshot_fields spec o = field "phase" (str (value o.phase)) (
    field "resume_target" (target_json o.resume_target) (
      field "schema_id" (str snapshot_schema_id) (
        field "spec_digest" (str spec.digest)
          (field "transitions" (arr (transition_items o.sink)) end))))

unfoldable pub snapshot_json : {W E : Type 0} → PinnedCampaignSpec → CampaignOrchestrator W E → Json
unfolding snapshot_fields
snapshot_json spec o = obj (snapshot_fields spec o)

unfoldable pub checkpoint :
    {S W E F : Type 0}
    → CheckpointStore S F
    → PinnedCampaignSpec
    → CampaignOrchestrator W E
    → Effect S F String
unfolding snapshot_json dumps
checkpoint checkpoints spec o = checkpoints.store (dumps (snapshot_json spec o)) snapshot_schema_id

-- `payload.get(key)`
unfoldable pub lookup : String → Fields → Option Json
lookup key end = none
lookup key (field k v rest) = if str_eq k key then some v else lookup key rest

-- The conversions of a value that is not of the type already.
pub record Conversions : Type 0 where
  pub to_int : Json → Option ℕ
  pub to_float : Json → Option ℕ
  pub to_str : Json → String

unfoldable pub phase_of : Json → Option CampaignPhase
unfolding parse_phase
phase_of (str s) = parse_phase s
phase_of null = none
phase_of (boolean b) = none
phase_of (num n) = none
phase_of (arr xs) = none
phase_of (obj fs) = none

-- The phase to resume, or `None`.
unfoldable pub target_of : Json → Option (Option CampaignPhase)
unfolding phase_of
target_of null = some none
target_of (boolean b) = none
target_of (num n) = none
target_of (arr xs) = none
target_of (obj fs) = none
target_of (str s) = elim (phase_of (str s)) [ none ↦ none | some p ↦ some (some p) ]

-- `payload["spec_digest"] != pinned_spec.digest`
unfoldable pub is_text : Json → String → Bool
is_text (str s) t = str_eq s t
is_text null t = false
is_text (boolean b) t = false
is_text (num n) t = false
is_text (arr xs) t = false
is_text (obj fs) t = false

unfoldable pub number_of : (Json → Option ℕ) → Json → Option ℕ
number_of convert (num n) = some n
number_of convert null = convert null
number_of convert (boolean b) = convert (boolean b)
number_of convert (str s) = convert (str s)
number_of convert (arr xs) = convert (arr xs)
number_of convert (obj fs) = convert (obj fs)

unfoldable pub words_of : (Json → String) → Json → String
words_of convert (str s) = s
words_of convert null = convert null
words_of convert (boolean b) = convert (boolean b)
words_of convert (num n) = convert (num n)
words_of convert (arr xs) = convert (arr xs)
words_of convert (obj fs) = convert (obj fs)

-- `f(raw[key])`
unfoldable pub at_key {ℓ} : {A : Type ℓ} → String → Fields → (Json → Option A) → Option A
unfolding lookup
at_key key fs f = elim (lookup key fs) [ none ↦ none | some v ↦ f v ]

unfoldable pub all_of :
    Option ℕ
    → Option CampaignPhase
    → Option CampaignPhase
    → Option String
    → Option ℕ
    → Option CampaignTransition
all_of (some sequence) (some from_phase) (some to_phase) (some reason) (some time) = some (record {
  sequence = sequence;
  from_phase = from_phase;
  to_phase = to_phase;
  reason = reason;
  at = time;
})
all_of _ _ _ _ _ = none

module _ (conversions : Conversions) where
  -- `CampaignTransition.from_canonical_dict`
  unfoldable pub transition_of : Json → Option CampaignTransition
  unfolding at_key number_of phase_of words_of all_of
  transition_of (obj fs) =
      all_of (at_key "sequence" fs (number_of conversions.to_int)) (at_key "from_phase" fs phase_of)
        (at_key "to_phase" fs phase_of)
        (at_key "reason" fs (λ v. some (words_of conversions.to_str v)))
        (at_key "at" fs (number_of conversions.to_float))
  transition_of null = none
  transition_of (boolean b) = none
  transition_of (num n) = none
  transition_of (str s) = none
  transition_of (arr xs) = none

  unfoldable pub transitions_of : Items → Option (List CampaignTransition)
  unfolding transition_of
  transitions_of nil = some []
  transitions_of (cons x xs) =
      let rest = transitions_of xs in
      elim (transition_of x) [
        | none ↦ none
        | some t ↦ elim rest [ none ↦ none | some ts ↦ some (t ∷ ts) ]
      ]
