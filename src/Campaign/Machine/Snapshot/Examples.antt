-- ===== src/Campaign/Machine/Snapshot/Examples.antt =====
-- Checkpoints of a concrete campaign.
use Prim.Native.String.{◌++◌ as str_append}
use recursive_self_improveme.Common.{
  ℕ, String, ◌≡◌, refl, true, false, Option, none, some, [], ◌∷◌, if◌then◌else◌, ok, err,
}
use recursive_self_improveme.Common.Json.{Bytes, Json, str, null, arr, nil, obj, end, field, dumps}
use recursive_self_improveme.Security.{sign}
use recursive_self_improveme.Security.Fixtures.{bytes_eq, bytes_eq_refl, demo_crypto}
use recursive_self_improveme.Campaign.Phase.{plan, propose}
use recursive_self_improveme.Campaign.Machine.{
  CampaignOrchestrator, move, suspend, fresh, perform, run,
}
use recursive_self_improveme.Campaign.Machine.Snapshot.{
  PinnedCampaignSpec, CheckpointStore, not_its_address, bad_value, Conversions, snapshot_json,
  checkpoint,
}
use recursive_self_improveme.Campaign.Machine.Snapshot.Reconstruct.{
  address, spec_verifies, reconstruct,
}
use recursive_self_improveme.Campaign.Machine.Snapshot.Restored.{checkpoint-reconstruct}
use recursive_self_improveme.Campaign.Machine.Snapshot.Reading.{IsPinned, ReadFrom, reconstruct_lem}

abbrev pinned : PinnedCampaignSpec
unfolding sign
pinned = record {
  canonical_bytes = 7 ∷ [];
  digest = "sha256:cafe";
  signature = sign demo_crypto (1 ∷ []) (7 ∷ []);
}

-- A campaign that was suspended while it proposed.
abbrev suspended : CampaignOrchestrator ℕ String
unfolding run fresh
suspended =
    (run ((move plan, "", 1) ∷ (move propose, "", 2) ∷ (suspend, "night", 3) ∷ [])
      (fresh true none none) 0).0

-- The store holds the last bytes that it was given.
abbrev memory : CheckpointStore Bytes String
memory = record {
  store = λ bytes schema s. (ok "sha256:cafe", bytes);
  load = λ digest s. (ok s, s);
}

abbrev strict : Conversions
strict = record { to_int = λ v. none; to_float = λ v. none; to_str = λ v. "" }

abbrev payload : Json
unfolding snapshot_json
payload = snapshot_json pinned suspended

-- The reader of the one text that the snapshot has.
abbrev loads_one : Bytes → Option Json
loads_one bytes = if bytes_eq bytes (dumps payload) then some payload else none

loads_payload : loads_one (dumps payload) ≡ some payload
loads_payload = rw (bytes_eq_refl (dumps payload)) refl

abbrev resumed : CampaignOrchestrator ℕ String
unfolding suspended
resumed = record suspended { has_clock = false; execution_gate = none; compensation_gate = none }

wrong_address_test :
    (reconstruct demo_crypto loads_one strict {W = ℕ} {E = String} memory pinned true none none
      "sha256:beef" []).0
    ≡ err (not_its_address "sha256:beef" "sha256:cafe")
unfolding reconstruct
wrong_address_test = refl

reconstruct_test :
    reconstruct demo_crypto loads_one strict memory pinned false none none "sha256:cafe"
      (dumps payload)
    ≡ (ok resumed, dumps payload)
unfolding reconstruct pinned suspended resumed payload dumps perform
reconstruct_test = refl

-- A snapshot with an unknown phase ends in the error of the phase, not in a checkpoint error.
unknown_phase_test :
    (reconstruct demo_crypto
      (λ bytes. some (
        obj (
          field "phase" (str "search") (
            field "resume_target" null
              (field "spec_digest" (str "sha256:cafe") (field "transitions" (arr nil) end))))))
      strict
      {W = ℕ}
      {E = String}
      memory
      pinned
      false
      none
      none
      "sha256:cafe"
      []).0
    ≡ err bad_value
unfolding reconstruct pinned
unknown_phase_test = refl

checkpoint-reconstruct_example :
    (digest : String) × (checkpoint memory pinned suspended [] ≡ (ok digest, dumps payload))
    × (reconstruct demo_crypto loads_one strict memory pinned false none none digest (dumps payload)
        ≡ (ok resumed, dumps payload))
unfolding checkpoint address spec_verifies pinned resumed
checkpoint-reconstruct_example =
    checkpoint-reconstruct demo_crypto loads_one strict memory pinned suspended false none none []
      (dumps payload) (dumps payload) refl loads_payload refl refl

reconstruct_lem_example :
    ((bytes : Bytes) × (memory.load "sha256:cafe" (dumps payload) ≡ (ok bytes, dumps payload))
      × (str_append "sha256:" (demo_crypto.sha256_hex bytes) ≡ "sha256:cafe")
      × ReadFrom loads_one strict pinned resumed bytes)
    × IsPinned demo_crypto pinned
    × (resumed.has_clock ≡ false)
    × (resumed.execution_gate ≡ none)
    × (resumed.compensation_gate ≡ none)
reconstruct_lem_example =
    reconstruct_lem demo_crypto loads_one strict memory pinned false none none "sha256:cafe" resumed
      (dumps payload) (dumps payload) reconstruct_test
