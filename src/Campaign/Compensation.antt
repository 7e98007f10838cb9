-- ===== src/Campaign/Compensation.antt =====
-- Compensation plans, their execution and the promotion check: campaign/compensation.py.
pub mod Execution
pub mod Promotion
pub mod Evidence
pub mod Failures
mod Examples
use Prim.Native.String.{◌++◌ as str_append}
use recursive_self_improveme.Common.{
  ℕ, zero, suc, ◌≡◌, refl, Bool, true, false, ◌&&◌, ◌||◌, not, String, str_eq, Option, none, some,
  List, [], ◌∷◌, ◌++◌, map, Outcome, ok, err, if◌then◌else◌, ◌==◌,
}
use recursive_self_improveme.Common.Effects.{Effect, pure, raise, ◌>>=◌, ◌>>◌}
use recursive_self_improveme.Common.Json.{
  Bytes, Json, Items, Fields, null, boolean, num, str, arr, obj, nil, cons, end, field, dumps,
  null_or,
}
use recursive_self_improveme.Security.{Crypto, DetachedSignature, sign, verify}
use recursive_self_improveme.Campaign.Machine.{CompensationGate}

abbrev pub cas_mode : String
cas_mode = "cas"

abbrev pub requires_execution_mode : String
requires_execution_mode = "requires_execution"

pub data CompensationActionKind : Type 0 where
  restore_prior_release_pointer revoke_artifact run_compensation_hook : CompensationActionKind
  restore_scaffold_source rerun_conformance_suite : CompensationActionKind

-- `CompensationActionKind(action)`; `none` stands for the `ValueError`.
unfoldable pub parse_kind : String → Option CompensationActionKind
parse_kind action =
    if str_eq action "restore_prior_release_pointer"
    then some restore_prior_release_pointer
    else if str_eq action "revoke_artifact"
    then some revoke_artifact
    else if str_eq action "run_compensation_hook"
    then some run_compensation_hook
    else if str_eq action "restore_scaffold_source"
    then some restore_scaffold_source
    else if str_eq action "rerun_conformance_suite"
    then some rerun_conformance_suite
    else none

-- `kind in CAS_ACTION_KINDS`
unfoldable pub is_cas_kind : CompensationActionKind → Bool
is_cas_kind restore_prior_release_pointer = true
is_cas_kind revoke_artifact = true
is_cas_kind restore_scaffold_source = true
is_cas_kind run_compensation_hook = false
is_cas_kind rerun_conformance_suite = false

unfoldable pub classification_for_action : String → String
unfolding parse_kind is_cas_kind
classification_for_action action = elim (parse_kind action) [
  | none ↦ requires_execution_mode
  | some kind ↦ if is_cas_kind kind then cas_mode else requires_execution_mode
]

-- A validated action.
pub record CompensationAction : Type 0 where
  pub artifact_digest : String
  pub action : String
  pub mode : String
  pub executed : Bool

pub record CompensationExecutionRecord : Type 0 where
  pub plan_id : String
  pub action_index : ℕ
  pub artifact_digest : String
  pub at : ℕ

pub record SignedCompensationPlan : Type 0 where
  pub plan_id : String
  pub campaign_id : Option String
  pub manifest_digest : Option String
  pub actions : List CompensationAction
  pub plan_digest : String
  pub signature : Bytes
  pub signer_public_key : Bytes

pub data CompensationError : Type 0 where
  not_an_object no_artifact_digest bad_mode : ℕ → CompensationError
  unresolved_artifact : ℕ → String → CompensationError
  tampered : String → CompensationError
  unexecuted : String → ℕ → String → String → CompensationError
  execution_failed : String → CompensationError

-- What a caller passes for a field of an action: a text, or a value of another type or nothing.
pub data Given : Type 0 where
  text : String → Given
  other : Given

-- An action as a caller passes it: `action` after `str`, and `executed` after `bool`.
pub data RawAction : Type 0 where
  dict : Given → Given → String → Bool → RawAction
  not_dict : RawAction

is_mode : String → Bool
is_mode mode = str_eq mode cas_mode || str_eq mode requires_execution_mode

unfoldable pub validate_action : ℕ → RawAction → Outcome CompensationError CompensationAction
unfolding is_mode
validate_action index not_dict = err (not_an_object index)
validate_action index (dict other mode action executed) = err (no_artifact_digest index)
validate_action index (dict (text digest) mode action executed) =
    if str_eq digest "" then err (no_artifact_digest index) else elim mode [
      | other ↦ err (bad_mode index)
      | text m ↦
          if is_mode m
          then ok
              (record { artifact_digest = digest; action = action; mode = m; executed = executed })
          else err (bad_mode index)
    ]

validate_from : ℕ → List RawAction → Outcome CompensationError (List CompensationAction)
unfolding validate_action
validate_from index [] = ok []
validate_from index (raw ∷ rest) = elim (validate_action index raw) [
  | err e ↦ err e
  | ok action ↦ elim (validate_from (suc index) rest) [
    | err e ↦ err e
    | ok actions ↦ ok (action ∷ actions)
  ]
]

unfoldable pub validate_compensation_actions :
    List RawAction → Outcome CompensationError (List CompensationAction)
unfolding validate_from
validate_compensation_actions raws = validate_from 0 raws

action_json : CompensationAction → Json
action_json a = obj (
    field "action" (str a.action) (
      field "artifact_digest" (str a.artifact_digest)
        (field "executed" (boolean a.executed) (field "mode" (str a.mode) end))))

actions_json : List CompensationAction → Items
unfolding action_json
actions_json [] = nil
actions_json (a ∷ as') = cons (action_json a) (actions_json as')

unfoldable pub compensation_plan_body :
    String → Option String → Option String → List CompensationAction → Bytes
unfolding actions_json dumps
compensation_plan_body plan_id campaign_id manifest_digest actions = dumps (
    obj (
      field "actions" (arr (actions_json actions)) (
        field "campaign_id" (null_or campaign_id)
          (field "manifest_digest" (null_or manifest_digest) (field "plan_id" (str plan_id) end)))))

-- `SignedCompensationPlan.body`
unfoldable pub body : SignedCompensationPlan → Bytes
unfolding compensation_plan_body
body plan = compensation_plan_body plan.plan_id plan.campaign_id plan.manifest_digest plan.actions

module _ (crypto : Crypto) where
  unfoldable pub digest_of : Bytes → String
  digest_of data' = str_append "sha256:" (crypto.sha256_hex data')

  -- `SignedCompensationPlan.verify`
  unfoldable pub plan_verifies : SignedCompensationPlan → Bool
  unfolding digest_of verify
  plan_verifies plan =
      if not (str_eq plan.plan_digest (digest_of (body plan)))
      then false
      else verify crypto
          (record { signature = plan.signature; public_key = plan.signer_public_key }) (body plan)

  unfoldable pub sign_compensation_plan :
      String
      → Option String
      → Option String
      → List RawAction
      → Bytes
      → Outcome CompensationError SignedCompensationPlan
  unfolding digest_of sign validate_compensation_actions
  sign_compensation_plan plan_id campaign_id manifest_digest actions private =
      elim (validate_compensation_actions actions) [
        | err e ↦ err e
        | ok validated ↦
            let bytes = compensation_plan_body plan_id campaign_id manifest_digest validated in
            let detached = sign crypto private bytes in
            ok (record {
              plan_id = plan_id;
              campaign_id = campaign_id;
              manifest_digest = manifest_digest;
              actions = validated;
              plan_digest = digest_of bytes;
              signature = detached.signature;
              signer_public_key = detached.public_key;
            })
      ]

-- The spec's actions, each with the artifact type that it compensates.
pub record SpecAction : Type 0 where
  pub artifact_type : String
  pub action : String

find_digest : String → List (String × String) → Option String
find_digest key [] = none
find_digest key ((k, v) ∷ rest) = if str_eq k key then some v else find_digest key rest

plan_actions_from :
    ℕ
    → List SpecAction
    → List (String × String)
    → Outcome CompensationError (List CompensationAction)
unfolding find_digest classification_for_action
plan_actions_from position [] digests = ok []
plan_actions_from position (a ∷ rest) digests =
    let later = plan_actions_from (suc position) rest digests in
    elim (find_digest a.artifact_type digests) [
      | none ↦ err (unresolved_artifact position a.artifact_type)
      | some digest ↦
          if str_eq digest ""
          then err (unresolved_artifact position a.artifact_type)
          else elim later [
            | err e ↦ err e
            | ok actions ↦ ok (
                record {
                  artifact_digest = digest;
                  action = a.action;
                  mode = classification_for_action a.action;
                  executed = false;
                }
                ∷ actions)
          ]
    ]

unfoldable pub plan_actions_from_spec :
    List SpecAction → List (String × String) → Outcome CompensationError (List CompensationAction)
unfolding plan_actions_from
plan_actions_from_spec spec_actions digests = plan_actions_from 0 spec_actions digests
