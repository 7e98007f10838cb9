-- ===== src/Campaign/Phase/Edges.antt =====
-- The lifecycle graph as a relation, and the decisions of campaign/machine.py about it.
use recursive_self_improveme.Common.{
  ◌≡◌, ◌≢◌, refl, sym, ◌∙◌, ap, subst, ◌⊎◌, inl, inr, true, some, some_eq, List, [], ◌∷◌, String,
  arith, str_eq, str_eq_iff, Bool-cases,
}
use recursive_self_improveme.Campaign.Phase.{
  CampaignPhase, discover, plan, propose, dev_evaluate, select_freeze, holdout, approve, canary,
  promoted, rolled_back, learn, paused, cancelled, value, phases, find_value, parse_phase, same,
  contains, allowed_transitions, can_pause, can_cancel,
}

-- Discover→Plan→Propose→DevEvaluate→Select/Freeze→Holdout→Approve→Canary→Promote/Rollback→Learn,
-- with one revision edge.
pub data Edge : CampaignPhase → CampaignPhase → Type 0 where
  planned : Edge discover plan
  proposing : Edge plan propose
  evaluating : Edge propose dev_evaluate
  revising : Edge dev_evaluate propose
  freezing : Edge dev_evaluate select_freeze
  resolving : Edge select_freeze holdout
  approving : Edge holdout approve
  canarying : Edge approve canary
  refusing : Edge approve rolled_back
  promoting : Edge canary promoted
  reverting : Edge canary rolled_back
  learning_promoted : Edge promoted learn
  learning_rolled_back : Edge rolled_back learn

pub parse_phase-value : (p : CampaignPhase) → parse_phase (value p) ≡ some p
unfolding parse_phase
parse_phase-value discover = refl
parse_phase-value _ = refl

find_value_eq :
    (text : String) (ps : List CampaignPhase) (p : CampaignPhase)
    → find_value text ps ≡ some p
    → text ≡ value p
unfolding find_value
find_value_eq text [] p h = cc
find_value_eq text (q ∷ qs) p h = elim (Bool-cases (str_eq (value q) text)) [
  | inl e ↦ sym ((str_eq_iff _ _).0 e) ∙ ap value (some_eq (rw (e, find_value) at h))
  | inr e ↦ find_value_eq text qs p (rw (e, find_value) at h)
]

-- Only a member's value is read as the member.
pub parse_phase_eq :
    (text : String) (p : CampaignPhase) → parse_phase text ≡ some p → text ≡ value p
unfolding parse_phase
parse_phase_eq text p h = find_value_eq text phases p h

some_injective : {p q : CampaignPhase} → some p ≡ some q → p ≡ q
some_injective h = cc

pub same→eq : (p q : CampaignPhase) → same p q ≡ true → p ≡ q
unfolding same
same→eq p q h =
    some_injective
      (sym (parse_phase-value p) ∙ (ap parse_phase ((str_eq_iff _ _).0 h) ∙ parse_phase-value q))

pub same_refl : (p : CampaignPhase) → same p p ≡ true
unfolding same
same_refl p = (str_eq_iff _ _).1 refl

contains_one : (p q : CampaignPhase) → contains (p ∷ []) q ≡ true → p ≡ q
unfolding contains
contains_one p q h = same→eq p q (ground arith)

contains_two : (p r q : CampaignPhase) → contains (p ∷ r ∷ []) q ≡ true → (p ≡ q) ⊎ (r ≡ q)
unfolding contains
contains_two p r q h = ground (arith, same→eq p q, same→eq r q)

pub allowed→Edge : (p q : CampaignPhase) → contains (allowed_transitions p) q ≡ true → Edge p q
unfolding allowed_transitions contains
allowed→Edge discover q h = subst (Edge discover) (contains_one plan q h) planned
allowed→Edge plan q h = subst (Edge plan) (contains_one propose q h) proposing
allowed→Edge propose q h = subst (Edge propose) (contains_one dev_evaluate q h) evaluating
allowed→Edge dev_evaluate q h = elim (contains_two propose select_freeze q h) [
  | inl e ↦ subst (Edge dev_evaluate) e revising
  | inr e ↦ subst (Edge dev_evaluate) e freezing
]
allowed→Edge select_freeze q h = subst (Edge select_freeze) (contains_one holdout q h) resolving
allowed→Edge holdout q h = subst (Edge holdout) (contains_one approve q h) approving
allowed→Edge approve q h = elim (contains_two canary rolled_back q h) [
  | inl e ↦ subst (Edge approve) e canarying
  | inr e ↦ subst (Edge approve) e refusing
]
allowed→Edge canary q h = elim (contains_two promoted rolled_back q h) [
  | inl e ↦ subst (Edge canary) e promoting
  | inr e ↦ subst (Edge canary) e reverting
]
allowed→Edge promoted q h = subst (Edge promoted) (contains_one learn q h) learning_promoted
allowed→Edge rolled_back q h =
    subst (Edge rolled_back) (contains_one learn q h) learning_rolled_back
allowed→Edge learn q h = cc
allowed→Edge paused q h = cc
allowed→Edge cancelled q h = cc

pub Edge→allowed : {p q : CampaignPhase} → Edge p q → contains (allowed_transitions p) q ≡ true
unfolding allowed_transitions contains
Edge→allowed planned = refl
Edge→allowed _ = refl

-- Neither the end of the lifecycle nor the operator's stop.
abbrev pub IsActive : CampaignPhase → Type 0
IsActive p = (p ≢ learn) × (p ≢ cancelled)

pub can_cancel→IsActive : (p : CampaignPhase) → can_cancel p ≡ true → IsActive p
unfolding can_cancel
can_cancel→IsActive learn h = cc
can_cancel→IsActive cancelled h = cc
can_cancel→IsActive _ h = (λ e. cc, λ e. cc)

pub IsActive→can_cancel : (p : CampaignPhase) → IsActive p → can_cancel p ≡ true
unfolding can_cancel
IsActive→can_cancel learn h = absurd (h.0 refl)
IsActive→can_cancel cancelled h = absurd (h.1 refl)
IsActive→can_cancel _ h = refl

pub can_pause→IsActive : (p : CampaignPhase) → can_pause p ≡ true → IsActive p × (p ≢ paused)
unfolding can_pause
can_pause→IsActive learn h = cc
can_pause→IsActive cancelled h = cc
can_pause→IsActive paused h = cc
can_pause→IsActive _ h = ((λ e. cc, λ e. cc), λ e. cc)

pub IsActive→can_pause : (p : CampaignPhase) → IsActive p → p ≢ paused → can_pause p ≡ true
unfolding can_pause
IsActive→can_pause learn h k = absurd (h.0 refl)
IsActive→can_pause cancelled h k = absurd (h.1 refl)
IsActive→can_pause paused h k = absurd (k refl)
IsActive→can_pause _ h k = refl

pub Edge-IsActive : {p q : CampaignPhase} → Edge p q → IsActive p
Edge-IsActive planned = (λ e. cc, λ e. cc)
Edge-IsActive _ = (λ e. cc, λ e. cc)
