-- ===== src/Selection/Graduation.antt =====
-- Risk dossiers and the graduation of mutation classes: selection/graduation.py, with the isolation
-- tiers of core/isolation.py and the row of db/models/graduation.py. The text of a decision's detail is
-- a parameter, `describe`, of the values that the text shows.
pub mod Comparable
pub mod Records
pub mod Ledger
mod Examples
use Prim.Native.String.{◌++◌ as str_append}
use recursive_self_improveme.Common.{
  ℕ, zero, suc, ◌+◌, ◌-◌, ◌*◌, ◌/◌, ◌%◌, ◌≤◌, ◌<◌, min, max, String, ◌≡◌, refl, sym, ap, ◌∙◌, subst,
  ◌≢◌, ◌↔◌, ◌⊎◌, inl, inr, Bool, true, false, ◌&&◌, ◌||◌, not, Option, none, some, List, [], ◌∷◌,
  ◌++◌, map, arith, str_eq, str_eq_iff, ltb, leb, ◌==◌, if◌then◌else◌, ltb→lt, lt→ltb, leb→le,
  ==_iff, Bool-cases, Option-cases, some_eq, some_ne, opt_eq, opt_eq→eq, opt_eq_refl, length,
  length-append, is_empty, replicate, All, All-append, Any, Outcome, ok, err, guard, ◌>>=◌, ◌>>◌,
  ok_eq, err_ne, Outcome-cases,
}
use recursive_self_improveme.Common.Json.{
  Bytes, Json, Fields, boolean, num, str, null, obj, end, field, dumps_utf8, null_or, codes,
  is_space,
}
use recursive_self_improveme.Security.{Crypto, sign, verify}
use recursive_self_improveme.Selection.Authority.{
  AuthorityTier, tier_1, tier_value, max_tier, ResolvedRelease, artifact_type_of,
  resolve_authority_tier,
}

pub data IsolationTier : Type 0 where
  text_only brokered executable highest : IsolationTier

unfoldable pub isolation_value : IsolationTier → String
isolation_value text_only = "text-only"
isolation_value brokered = "brokered"
isolation_value executable = "executable"
isolation_value highest = "highest"

-- `_TIER_RANK`
unfoldable pub tier_rank : IsolationTier → ℕ
tier_rank text_only = 0
tier_rank brokered = 1
tier_rank executable = 2
tier_rank highest = 3

pub data BlastRadius : Type 0 where
  suggestion kept_state runtime self_source : BlastRadius

unfoldable pub blast_value : BlastRadius → String
blast_value suggestion = "suggestion"
blast_value kept_state = "kept_state"
blast_value runtime = "runtime"
blast_value self_source = "self_source"

-- `BLAST_RADIUS_SURFACES`
unfoldable pub surface_of : BlastRadius → String
surface_of suggestion = "read_only"
surface_of kept_state = "config"
surface_of runtime = "runtime"
surface_of self_source = "runtime"

pub record RiskDossier : Type 0 where
  pub dossier_id : String
  pub class_id : String
  pub artifact_class : String
  pub isolation_tier_demanded : IsolationTier
  pub blast_radius : BlastRadius
  pub reversible : Bool
  pub compensable : Bool
  pub dossier_version : ℕ

pub data DossierError : Type 0 where
  untrimmed : String → DossierError
  unknown_class : String → DossierError
  bad_version : DossierError
  too_little_isolation : BlastRadius → IsolationTier → DossierError
  incoherent : DossierError

-- The last of a list that begins with the first argument.
last_of : ℕ → List ℕ → ℕ
last_of c [] = c
last_of c (d ∷ ds) = last_of d ds

-- `value and value == value.strip()`
unfoldable pub is_trimmed : List ℕ → Bool
unfolding last_of is_space
is_trimmed [] = false
is_trimmed (c ∷ cs) = not (is_space c) && not (is_space (last_of c cs))

-- The least rank that a blast radius demands.
unfoldable pub least_rank : BlastRadius → ℕ
unfolding tier_rank
least_rank suggestion = 0
least_rank kept_state = 0
least_rank runtime = tier_rank executable
least_rank self_source = tier_rank highest

unfoldable pub is_some_type : String → Bool
unfolding artifact_type_of
is_some_type cls = elim (artifact_type_of cls) [ none ↦ false | some t ↦ true ]

-- `RiskDossier(...)`
unfoldable pub new_dossier : RiskDossier → Outcome DossierError RiskDossier
unfolding is_trimmed codes is_some_type tier_rank least_rank
new_dossier d =
    guard (is_trimmed (codes d.dossier_id)) (untrimmed "dossier_id")
    >> guard (is_trimmed (codes d.class_id)) (untrimmed "class_id")
    >> guard (is_some_type d.artifact_class) (unknown_class d.artifact_class)
    >> guard (leb 1 d.dossier_version) bad_version
    >> guard (leb (least_rank d.blast_radius) (tier_rank d.isolation_tier_demanded))
        (too_little_isolation d.blast_radius d.isolation_tier_demanded)
    >> guard (not (d.reversible && not d.compensable)) incoherent
    >> ok d

unfoldable pub dossier_bytes : RiskDossier → Bytes
unfolding dumps_utf8 blast_value isolation_value
dossier_bytes d = dumps_utf8 (
    obj (
      field "artifact_class" (str d.artifact_class) (
        field "blast_radius" (str (blast_value d.blast_radius)) (
          field "class_id" (str d.class_id) (
            field "compensable" (boolean d.compensable) (
              field "dossier_id" (str d.dossier_id) (
                field "dossier_version" (num d.dossier_version) (
                  field "isolation_tier_demanded" (str (isolation_value d.isolation_tier_demanded))
                    (field "reversible" (boolean d.reversible)
                      (field "schema_id" (str "evoruntime.policy.risk-dossier/v1") end))))))))))

unfoldable pub is_executable : BlastRadius → Bool
is_executable suggestion = false
is_executable kept_state = false
is_executable runtime = true
is_executable self_source = true

unfoldable pub is_self_source : BlastRadius → Bool
is_self_source self_source = true
is_self_source blast = false

unfoldable pub resolved_release : RiskDossier → ResolvedRelease
unfolding is_executable is_self_source surface_of
resolved_release d = record {
  artifact_classes = d.artifact_class ∷ [];
  contains_executable_content = is_executable d.blast_radius;
  touches_harness = is_self_source d.blast_radius;
  memory_write_mode = "suggestion";
  reversible = d.reversible;
  runtime_surface = surface_of d.blast_radius;
}

-- The tier that the dossier's release resolves to.
unfoldable pub dossier_tier : RiskDossier → AuthorityTier
unfolding resolved_release resolve_authority_tier
dossier_tier d = resolve_authority_tier (resolved_release d)

pub record SignedRiskDossier : Type 0 where
  pub dossier : RiskDossier
  pub digest : String
  pub signature : Bytes
  pub signer_public_key : Bytes

module _ (crypto : Crypto) where
  unfoldable pub dossier_digest : RiskDossier → String
  unfolding dossier_bytes
  dossier_digest d = str_append "sha256:" (crypto.sha256_hex (dossier_bytes d))

  unfoldable pub dossier_verifies : SignedRiskDossier → Bool
  unfolding dossier_digest dossier_bytes verify
  dossier_verifies s =
      if not (str_eq s.digest (dossier_digest s.dossier))
      then false
      else verify crypto (record { signature = s.signature; public_key = s.signer_public_key })
          (dossier_bytes s.dossier)

  unfoldable pub sign_risk_dossier : RiskDossier → Bytes → SignedRiskDossier
  unfolding dossier_digest dossier_bytes sign
  sign_risk_dossier d private =
      let detached = sign crypto private (dossier_bytes d) in
      record {
        dossier = d;
        digest = dossier_digest d;
        signature = detached.signature;
        signer_public_key = detached.public_key;
      }

  -- `verify_risk_dossier`, with the digest that its exception shows.
  unfoldable pub verify_risk_dossier : SignedRiskDossier → Outcome String (Unit {0})
  unfolding dossier_verifies
  verify_risk_dossier s = guard (dossier_verifies s) s.digest
