-- ===== src/Plugins/Privileged/Examples.antt =====
-- The admission of plugins/privileged.py at concrete requests.
use recursive_self_improveme.Common.{String, ◌≡◌, refl, ◌↔◌, none, some, [], ◌∷◌, map, ok, err}
use recursive_self_improveme.Security.{require_evaluator_key_access}
use recursive_self_improveme.Security.Fixtures.{demo_crypto, evaluator_identity}
use recursive_self_improveme.Selection.Authority.Admission.{TwoPersons}
use recursive_self_improveme.Plugins.Privileged.{
  adapter, admission_denied, self_approval, ApprovalRecord, AdmissionRequest, PinnedVersion,
  new_pinned_version, unsigned_record, sign_record, admit_privileged,
}
use recursive_self_improveme.Plugins.Privileged.TwoPersons.{Certifies, admit_privileged_iff}

abbrev sixty_four : String
sixty_four = "0123456789abcdef0123456789abcdef0123456789abcdef0123456789abcdef"

abbrev pin : String
pin = "sha256:0123456789abcdef0123456789abcdef0123456789abcdef0123456789abcdef"

abbrev pinned_plugin : PinnedVersion
pinned_plugin = record { plugin_id = "plug"; digest = pin }

pin_test : new_pinned_version "plug" pin ≡ some pinned_plugin
unfolding new_pinned_version
pin_test = refl

tag_test : new_pinned_version "plug" "latest" ≡ none
unfolding new_pinned_version
tag_test = refl

same_length_test : new_pinned_version "plug" sixty_four ≡ none
unfolding new_pinned_version
same_length_test = refl

abbrev request : AdmissionRequest
request = record {
  pinned = pinned_plugin;
  privileged_role = adapter;
  requested_by = "ann";
  justification = "why";
}

abbrev approval : String → ApprovalRecord
approval who = record { approver = who; approver_role = "evaluator"; note = "" }

abbrev same_case : String → String
same_case s = s

self_approval_test :
    admit_privileged demo_crypto same_case request
      (approval "bob" ∷ approval "ann" ∷ [])
      evaluator_identity
      []
    ≡ err (admission_denied self_approval)
unfolding admit_privileged
self_approval_test = refl

admit_privileged_iff_example :
    (let approvals = approval "bob" ∷ approval "eve" ∷ [] in
      let signed =
        sign_record demo_crypto (unsigned_record demo_crypto request approvals) (7 ∷ []) in
      (admit_privileged demo_crypto same_case request approvals evaluator_identity (7 ∷ [])
        ≡ ok signed)
      ↔ ((require_evaluator_key_access evaluator_identity ≡ ok tt)
          × TwoPersons same_case (some "ann") (map ApprovalRecord.approver approvals)
          × Certifies same_case demo_crypto request approvals (7 ∷ []) signed))
admit_privileged_iff_example =
    admit_privileged_iff same_case demo_crypto request (approval "bob" ∷ approval "eve" ∷ [])
      evaluator_identity (7 ∷ [])
      (sign_record demo_crypto
        (unsigned_record demo_crypto request (approval "bob" ∷ approval "eve" ∷ [])) (7 ∷ []))
