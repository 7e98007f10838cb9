-- ===== src/Selection/Authority/Classes.antt =====
-- What the tier that selection/authority.py computes says of a release's classes.
use recursive_self_improveme.Common.{
  ◌≤◌, String, ◌≡◌, refl, ◌≢◌, ◌↔◌, Bool, true, false, ◌||◌, not, List, [], ◌∷◌, arith, str_eq,
  str_eq_iff, if◌then◌else◌, All,
}
use recursive_self_improveme.Selection.Authority.{
  AuthorityTier, tier_3, tier_4, tier_value, tier_by_class, max_tier, max_of, class_tiers,
  ResolvedRelease, resolve_authority_tier,
}

-- The tier is one that needs no approval.
unfoldable pub ApprovalFree : AuthorityTier → Type 0
unfolding tier_value
ApprovalFree tier = tier_value tier ≤ 2

pub max_tier_iff :
    (s t : AuthorityTier) → ApprovalFree (max_tier s t) ↔ (ApprovalFree s × ApprovalFree t)
unfolding max_tier ApprovalFree
max_tier_iff s t = ground arith

pub max_of_iff :
    (tier : AuthorityTier) (classes : List String)
    → ApprovalFree (max_of tier classes)
      ↔ (ApprovalFree tier × All (λ cls. ApprovalFree (tier_by_class cls)) classes)
unfolding max_of
max_of_iff tier [] = ((λ h. (h, tt)), λ h. h.0)
max_of_iff tier (cls ∷ rest) =
    let ih = max_of_iff (max_tier tier (tier_by_class cls)) rest in
    let top = max_tier_iff tier (tier_by_class cls) in
    (
      (λ h. ((top.0 (ih.0 h).0).0, ((top.0 (ih.0 h).0).1, (ih.0 h).1))),
      λ h. ih.1 (top.1 (h.0, h.1.0), h.1.1),
    )

-- The release is reversible and read-only to the runtime, and every class in it is approval-free.
pub record Contained (r : ResolvedRelease) : Type 0 where
  pub outside_harness : r.touches_harness ≡ false
  pub not_executable : r.contains_executable_content ≡ false
  pub not_direct : r.memory_write_mode ≢ "direct"
  pub can_be_undone : r.reversible ≡ true
  pub outside_runtime : r.runtime_surface ≢ "runtime"
  pub classes_free : ApprovalFree (class_tiers r.artifact_classes)

unfoldable pub is_elevated : ResolvedRelease → Bool
is_elevated r =
    r.contains_executable_content
    || str_eq r.memory_write_mode "direct"
    || not r.reversible
    || str_eq r.runtime_surface "runtime"

pub not_elevated :
    (r : ResolvedRelease)
    → r.touches_harness ≡ false
    → is_elevated r ≡ false
    → ApprovalFree (class_tiers r.artifact_classes)
    → Contained r
unfolding is_elevated
not_elevated r h e c = record {
  outside_harness = h;
  not_executable = ground arith;
  not_direct = λ d. ground (arith, str_eq_iff r.memory_write_mode "direct");
  can_be_undone = ground arith;
  outside_runtime = λ d. ground (arith, str_eq_iff r.runtime_surface "runtime");
  classes_free = c;
}

elevation :
    (harness elevated : Bool) (tier : AuthorityTier)
    → ApprovalFree (if harness then tier_4 else if elevated then tier_3 else tier)
    → (harness ≡ false) × (elevated ≡ false) × ApprovalFree tier
unfolding ApprovalFree tier_value
elevation true elevated tier h = ground arith
elevation false true tier h = ground arith
elevation false false tier h = (refl, refl, h)

pub Contained-is_elevated : (r : ResolvedRelease) → Contained r → is_elevated r ≡ false
unfolding is_elevated
Contained-is_elevated r c =
    let a = c.not_executable in
    let b = c.can_be_undone in
    let d = c.not_direct in
    let e = c.outside_runtime in
    ground (arith, str_eq_iff r.memory_write_mode "direct", str_eq_iff r.runtime_surface "runtime")

-- A release needs no approval exactly if no property of it raises the authority and none of its
-- classes does.
pub resolve-Contained :
    (r : ResolvedRelease) → ApprovalFree (resolve_authority_tier r) ↔ Contained r
unfolding resolve_authority_tier is_elevated
resolve-Contained r = (
  (λ h.
      let e = elevation r.touches_harness (is_elevated r) (class_tiers r.artifact_classes) h in
      not_elevated r e.0 e.1 e.2),
  λ c. rw (c.outside_harness, Contained-is_elevated r c) (c.classes_free),
)
