-- ===== src/Api/Approvals/Opening.antt =====
-- What `create_request` of api/approvals.py has asked of a request before it opens it.
use recursive_self_improveme.Common.{
  ℕ, ◌<◌, String, ◌≡◌, refl, sym, subst, inl, inr, Bool, true, false, ◌&&◌, ◌||◌, not, Option, none,
  some, [], ◌∷◌, arith, leb, ◌==◌, Bool-cases, Option-cases, some_ne, ok, ok_eq, err_ne,
  Outcome-cases,
}
use recursive_self_improveme.Selection.Authority.{
  AuthorityTier, tier_4, tier_value, approval_free_max_tier, of_classes, resolve_authority_tier,
}
use recursive_self_improveme.Tenancy.Policy.{TenantPolicyRegistry, policy_for}
use recursive_self_improveme.Api.Approvals.{
  RequestKind, privileged_admission, tier3_promotion, tier4_promotion, Board, ApiError, or_raise,
  raise_if, require_proposal,
}
use recursive_self_improveme.Api.Approvals.Requests.{
  RequestSpec, filled, require_privileged_target, is_some, find_artifact, proposal_tier,
  allows_tier_4, require_tier4_admissible, check_legs, promotion_tier, request_tier,
}

-- A promotion is of tier 3 without the tier-4 legs, of tier 4 without them, where no evidence will
-- do, or of tier 4 with both.
abbrev pub Opened : RequestKind → AuthorityTier → Bool → Bool → Type 0
Opened privileged_admission tier signoff manual = Unit
Opened tier3_promotion tier signoff manual =
    (2 < tier_value tier) × (signoff ≡ false) × (manual ≡ false)
Opened tier4_promotion tier signoff manual = (tier ≡ tier_4) × (signoff ≡ true) × (manual ≡ true)

-- A privileged admission names the plugin, its pin and its role.
abbrev pub Targeted : RequestKind → Option String → Option String → Option String → Type 0
Targeted privileged_admission plugin pin role =
    (is_some plugin ≡ true) × (is_some pin ≡ true) × (is_some role ≡ true)
Targeted tier3_promotion plugin pin role = Unit
Targeted tier4_promotion plugin pin role = Unit

above : {n : ℕ} → leb n 2 ≡ false → 2 < n
above h = ground arith

proposal_tier-above :
    (board : Board) (tenant campaign_id proposal_id : String) (tier : AuthorityTier)
    → proposal_tier board tenant campaign_id proposal_id ≡ ok tier
    → 2 < tier_value tier
unfolding proposal_tier or_raise
proposal_tier-above board tenant campaign_id proposal_id tier h =
    elim (Outcome-cases (require_proposal board tenant campaign_id proposal_id)) [
      | inr e ↦ elim (err_ne (rw (e.1, proposal_tier) at h)) [ ]
      | inl p ↦ elim (Option-cases (find_artifact tenant p.0.proposed_digest board.artifacts)) [
        | inl e ↦ elim (err_ne (rw (p.1, e, proposal_tier) at h)) [ ]
        | inr a ↦
            let t = resolve_authority_tier (of_classes (a.0.artifact_type ∷ [])) in
            elim (Bool-cases (leb (tier_value t) (tier_value approval_free_max_tier))) [
              | inl l ↦ elim (err_ne (rw (p.1, a.1, l, proposal_tier) at h)) [ ]
              | inr l ↦
                  subst (λ s. 2 < tier_value s) (ok_eq (rw (p.1, a.1, l, proposal_tier) at h))
                    (above l)
            ]
      ]
    ]

four : (tier : AuthorityTier) → not (tier_value tier == 4) ≡ false → tier ≡ tier_4
unfolding tier_value
four tier h = ground arith

allowed : {b : Bool} → not b ≡ false → b ≡ true
allowed h = ground arith

tier4_lem :
    (registry : TenantPolicyRegistry) (tenant : String) (tier : AuthorityTier) (spec : RequestSpec)
    → require_tier4_admissible registry tenant tier spec ≡ ok tt
    → (tier ≡ tier_4)
      × (allows_tier_4 (policy_for registry tenant) ≡ true)
      × (spec.human_signoff ≡ true)
      × (spec.manually_initiated ≡ true)
unfolding require_tier4_admissible
tier4_lem registry tenant tier spec h = elim (Bool-cases (not (tier_value tier == 4))) [
  | inl t ↦ elim (err_ne (rw (t, require_tier4_admissible) at h)) [ ]
  | inr t ↦ elim (Bool-cases (not (allows_tier_4 (policy_for registry tenant)))) [
    | inl a ↦ elim (err_ne (rw (t, a, require_tier4_admissible) at h)) [ ]
    | inr a ↦ elim (Bool-cases (not (spec.human_signoff && spec.manually_initiated))) [
      | inl l ↦ elim (err_ne (rw (t, a, l, require_tier4_admissible) at h)) [ ]
      | inr l ↦ (four tier t, allowed a, ground arith, ground arith)
    ]
  ]
]

no_legs : (a b : Bool) (e : ApiError) → raise_if (a || b) e ≡ ok tt → (a ≡ false) × (b ≡ false)
no_legs a b e h = elim (Bool-cases (a || b)) [
  | inl t ↦ elim (err_ne (rw (t, raise_if) at h)) [ ]
  | inr f ↦ (ground arith, ground arith)
]

-- The legs agree with the kind.
legs-Opened :
    (registry : TenantPolicyRegistry) (tenant : String) (tier : AuthorityTier) (spec : RequestSpec)
    (kind : RequestKind)
    → 2 < tier_value tier
    → check_legs registry tenant tier spec kind ≡ ok tt
    → Opened kind tier spec.human_signoff spec.manually_initiated
unfolding check_legs
legs-Opened registry tenant tier spec privileged_admission l h = tt
legs-Opened registry tenant tier spec tier3_promotion l h =
    let n = no_legs spec.human_signoff spec.manually_initiated _ h in (l, n.0, n.1)
legs-Opened registry tenant tier spec tier4_promotion l h =
    let t = tier4_lem registry tenant tier spec h in (t.0, t.2, t.3)

promotion-legs :
    (board : Board) (registry : TenantPolicyRegistry) (tenant : String) (spec : RequestSpec)
    (kind : RequestKind) (tier : AuthorityTier)
    → promotion_tier board registry tenant spec kind ≡ ok tier
    → (2 < tier_value tier) × (check_legs registry tenant tier spec kind ≡ ok tt)
unfolding promotion_tier or_raise
promotion-legs board registry tenant spec kind tier h =
    elim (Bool-cases
      (is_some spec.plugin_id || is_some spec.content_digest || is_some spec.privileged_role)) [
        | inl e ↦ elim (err_ne (rw (e, promotion_tier) at h)) [ ]
        | inr p ↦ elim (Option-cases spec.campaign_id) [
          | inl e ↦ elim (err_ne (rw (p, e, promotion_tier) at h)) [ ]
          | inr c ↦ elim (Option-cases spec.proposal_id) [
            | inl e ↦ elim (err_ne (rw (p, c.1, e, promotion_tier) at h)) [ ]
            | inr d ↦ elim (Outcome-cases (proposal_tier board tenant c.0 d.0)) [
              | inr e ↦ elim (err_ne (rw (p, c.1, d.1, e.1, promotion_tier) at h)) [ ]
              | inl t ↦ elim (Outcome-cases (check_legs registry tenant t.0 spec kind)) [
                | inr e ↦ elim (err_ne (rw (p, c.1, d.1, t.1, e.1, promotion_tier) at h)) [ ]
                | inl l ↦
                    subst
                      (λ s. (2 < tier_value s) × (check_legs registry tenant s spec kind ≡ ok tt))
                      (ok_eq (rw (p, c.1, d.1, t.1, l.1, promotion_tier) at h))
                      (proposal_tier-above board tenant c.0 d.0 t.0 t.1, l.1)
              ]
            ]
          ]
        ]
      ]

-- A promotion request is opened only on a tier, and with the legs, that suit its kind.
pub request_tier-Opened :
    (board : Board) (registry : TenantPolicyRegistry) (tenant : String) (spec : RequestSpec)
    (kind : RequestKind) (tier : AuthorityTier)
    → request_tier board registry tenant spec kind ≡ ok tier
    → Opened kind tier spec.human_signoff spec.manually_initiated
unfolding request_tier
request_tier-Opened board registry tenant spec privileged_admission tier h = tt
request_tier-Opened board registry tenant spec tier3_promotion tier h =
    let l = promotion-legs board registry tenant spec tier3_promotion tier h in
    legs-Opened registry tenant tier spec tier3_promotion l.0 l.1
request_tier-Opened board registry tenant spec tier4_promotion tier h =
    let l = promotion-legs board registry tenant spec tier4_promotion tier h in
    legs-Opened registry tenant tier spec tier4_promotion l.0 l.1

-- A tier-4 request is judged only for a tenant whose policy allows tier 4.
pub tier4_policy :
    (board : Board) (registry : TenantPolicyRegistry) (tenant : String) (spec : RequestSpec)
    (tier : AuthorityTier)
    → request_tier board registry tenant spec tier4_promotion ≡ ok tier
    → allows_tier_4 (policy_for registry tenant) ≡ true
unfolding request_tier check_legs
tier4_policy board registry tenant spec tier h =
    let l = promotion-legs board registry tenant spec tier4_promotion tier h in
    (tier4_lem registry tenant tier spec l.1).1

filled-is_some : (o : Option String) (s : String) → filled o ≡ some s → is_some o ≡ true
unfolding filled
filled-is_some none s h = elim (some_ne (sym h)) [ ]
filled-is_some (some t) s h = refl

target_lem :
    (spec : RequestSpec) (tier : AuthorityTier)
    → require_privileged_target spec ≡ ok tier
    → Targeted privileged_admission spec.plugin_id spec.content_digest spec.privileged_role
unfolding require_privileged_target or_raise
target_lem spec tier h = elim (Option-cases (filled spec.plugin_id)) [
  | inl e ↦ elim (err_ne (rw (e, require_privileged_target) at h)) [ ]
  | inr p ↦ elim (Option-cases (filled spec.content_digest)) [
    | inl e ↦ elim (err_ne (rw (p.1, e, require_privileged_target) at h)) [ ]
    | inr d ↦ elim (Option-cases (filled spec.privileged_role)) [
      | inl e ↦ elim (err_ne (rw (p.1, d.1, e, require_privileged_target) at h)) [ ]
      | inr r ↦ (
        filled-is_some spec.plugin_id p.0 p.1,
        filled-is_some spec.content_digest d.0 d.1,
        filled-is_some spec.privileged_role r.0 r.1,
      )
    ]
  ]
]

-- A privileged request is opened only on a named target.
pub request_tier-Targeted :
    (board : Board) (registry : TenantPolicyRegistry) (tenant : String) (spec : RequestSpec)
    (kind : RequestKind) (tier : AuthorityTier)
    → request_tier board registry tenant spec kind ≡ ok tier
    → Targeted kind spec.plugin_id spec.content_digest spec.privileged_role
unfolding request_tier
request_tier-Targeted board registry tenant spec privileged_admission tier h =
    elim (Bool-cases (spec.human_signoff || spec.manually_initiated)) [
      | inl e ↦ elim (err_ne (rw (e, request_tier) at h)) [ ]
      | inr l ↦ elim (Outcome-cases (require_privileged_target spec)) [
        | inr e ↦ elim (err_ne (rw (l, e.1, request_tier) at h)) [ ]
        | inl t ↦ target_lem spec t.0 t.1
      ]
    ]
request_tier-Targeted board registry tenant spec tier3_promotion tier h = tt
request_tier-Targeted board registry tenant spec tier4_promotion tier h = tt
