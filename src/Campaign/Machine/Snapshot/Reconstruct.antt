-- ===== src/Campaign/Machine/Snapshot/Reconstruct.antt =====
-- `reconstruct` and `_parse_snapshot` of campaign/machine.py.
use Prim.Native.String.{◌++◌ as str_append}
use recursive_self_improveme.Common.{
  String, Bool, false, not, Option, none, some, List, [], ◌∷◌, str_eq, if◌then◌else◌, Outcome, ok,
  err, guard, ◌>>=◌, ◌>>◌,
}
use recursive_self_improveme.Common.Effects.{Effect}
use recursive_self_improveme.Common.Json.{
  Bytes, Json, Items, Fields, boolean, num, str, arr, null, obj,
}
use recursive_self_improveme.Security.{Crypto, verify}
use recursive_self_improveme.Campaign.Phase.{CampaignPhase}
use recursive_self_improveme.Campaign.Machine.{
  CampaignTransition, CampaignOrchestrator, ExecutionGate, CompensationGate,
}
use recursive_self_improveme.Campaign.Machine.Snapshot.{
  PinnedCampaignSpec, CheckpointStore, SnapshotError, store_raised, not_its_address, not_json,
  not_an_object, transitions_not_a_list, another_spec, bad_value, spec_tampered, missing_key,
  Conversions, lookup, phase_of, target_of, is_text, at_key, transitions_of,
}

abbrev pub snapshot_keys : List String
snapshot_keys = "spec_digest" ∷ "phase" ∷ "resume_target" ∷ "transitions" ∷ []

module _ {E : Type 0} where
  -- The loop over the required keys.
  unfoldable pub require_keys : List String → Fields → Outcome (SnapshotError E) (Unit {0})
  unfolding lookup
  require_keys [] fs = ok tt
  require_keys (key ∷ keys) fs =
      let rest = require_keys keys fs in
      elim (lookup key fs) [ none ↦ err (missing_key key) | some v ↦ rest ]

  -- `payload["transitions"]`, if it is a list.
  unfoldable pub items_of : Option Json → Outcome (SnapshotError E) Items
  items_of (some (arr items)) = ok items
  items_of _ = err transitions_not_a_list

  unfoldable pub shape_of : Json → Outcome (SnapshotError E) (Fields × Items)
  unfolding require_keys items_of lookup
  shape_of (obj fs) = do
    require_keys snapshot_keys fs
    items ← items_of (lookup "transitions" fs)
    ok (fs, items)
  shape_of null = err not_an_object
  shape_of (boolean b) = err not_an_object
  shape_of (num n) = err not_an_object
  shape_of (str s) = err not_an_object
  shape_of (arr xs) = err not_an_object

  -- `_parse_snapshot`, with the payload's transitions.
  unfoldable pub parse_snapshot :
      (Bytes → Option Json) → Bytes → Outcome (SnapshotError E) (Fields × Items)
  unfolding shape_of
  parse_snapshot loads bytes = elim (loads bytes) [
    | none ↦ err not_json
    | some payload ↦ shape_of payload
  ]

  unfoldable pub or_bad : {A : Type 0} → Option A → Outcome (SnapshotError E) A
  or_bad none = err bad_value
  or_bad (some a) = ok a

-- `payload["spec_digest"] == digest`
unfoldable pub names_spec : Fields → String → Bool
unfolding lookup is_text
names_spec fs digest = elim (lookup "spec_digest" fs) [ none ↦ false | some v ↦ is_text v digest ]

-- `_DIGEST_PREFIX + hashlib.sha256(bytes).hexdigest()`
unfoldable pub address : Crypto → Bytes → String
address crypto bytes = str_append "sha256:" (crypto.sha256_hex bytes)

-- The spec's digest and signature over its canonical bytes.
unfoldable pub spec_verifies : Crypto → PinnedCampaignSpec → Bool
unfolding address verify
spec_verifies crypto spec =
    if not (str_eq spec.digest (address crypto spec.canonical_bytes))
    then false
    else verify crypto spec.signature spec.canonical_bytes

-- The constructor with the default sink.
unfoldable pub new_orchestrator :
    {W E F : Type 0}
    → Crypto
    → PinnedCampaignSpec
    → Bool
    → Option (ExecutionGate W E)
    → Option (CompensationGate W E)
    → CampaignPhase
    → Option CampaignPhase
    → List CampaignTransition
    → Outcome (SnapshotError F) (CampaignOrchestrator W E)
unfolding spec_verifies
new_orchestrator crypto spec has_clock execution compensation phase target transitions =
    guard (spec_verifies crypto spec) spec_tampered
    >> ok (record {
      phase = phase;
      resume_target = target;
      sink = transitions;
      has_clock = has_clock;
      execution_gate = execution;
      compensation_gate = compensation;
    })

unfoldable pub as_loaded : {F : Type 0} → Outcome F Bytes → Outcome (SnapshotError F) Bytes
as_loaded (ok bytes) = ok bytes
as_loaded (err e) = err (store_raised e)

module _ (crypto : Crypto) (loads : Bytes → Option Json) (conversions : Conversions)
    {W E F : Type 0} where
  -- What `reconstruct` does with the bytes that it has loaded.
  unfoldable pub restore :
      PinnedCampaignSpec
      → Bool
      → Option (ExecutionGate W E)
      → Option (CompensationGate W E)
      → String
      → Bytes
      → Outcome (SnapshotError F) (CampaignOrchestrator W E)
  unfolding address parse_snapshot at_key names_spec or_bad phase_of target_of transitions_of
      new_orchestrator
  restore spec has_clock execution compensation digest bytes = do
    guard (str_eq (address crypto bytes) digest) (not_its_address digest (address crypto bytes))
    (fs, items) ← parse_snapshot loads bytes
    guard (names_spec fs spec.digest) another_spec
    phase ← or_bad (at_key "phase" fs phase_of)
    target ← or_bad (at_key "resume_target" fs target_of)
    transitions ← or_bad (transitions_of conversions items)
    new_orchestrator crypto spec has_clock execution compensation phase target transitions

  unfoldable pub reconstruct :
      {S : Type 0}
      → CheckpointStore S F
      → PinnedCampaignSpec
      → Bool
      → Option (ExecutionGate W E)
      → Option (CompensationGate W E)
      → String
      → Effect S (SnapshotError F) (CampaignOrchestrator W E)
  unfolding restore as_loaded
  reconstruct checkpoints spec has_clock execution compensation digest s =
      let (loaded, s') = checkpoints.load digest s in
      (as_loaded loaded >>= restore spec has_clock execution compensation digest, s')
