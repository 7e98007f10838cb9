-- ===== src/Campaign/Machine/Snapshot/Restored.antt =====
-- Checkpointing and reconstruction undo each other.
use recursive_self_improveme.Common.{
  String, ◌≡◌, refl, Bool, true, Option, none, some, List, [], ◌∷◌, str_eq_iff, ok,
}
use recursive_self_improveme.Common.Json.{Bytes, Json, dumps}
use recursive_self_improveme.Security.{Crypto}
use recursive_self_improveme.Campaign.Phase.{CampaignPhase}
use recursive_self_improveme.Campaign.Phase.Edges.{parse_phase-value}
use recursive_self_improveme.Campaign.Machine.{
  CampaignTransition, CampaignOrchestrator, ExecutionGate, CompensationGate,
}
use recursive_self_improveme.Campaign.Machine.Snapshot.{
  PinnedCampaignSpec, CheckpointStore, Conversions, transition_json, transition_items, target_json,
  snapshot_fields, snapshot_json, checkpoint, lookup, phase_of, target_of, is_text, at_key,
  number_of, words_of, all_of, transition_of, transitions_of,
}
use recursive_self_improveme.Campaign.Machine.Snapshot.Reconstruct.{
  require_keys, items_of, shape_of, parse_snapshot, or_bad, address, names_spec, spec_verifies,
  new_orchestrator, as_loaded, restore, reconstruct,
}

transition_of-transition_json :
    (conversions : Conversions) (t : CampaignTransition)
    → transition_of conversions (transition_json t) ≡ some t
unfolding transition_of transition_json at_key lookup number_of phase_of words_of all_of
transition_of-transition_json conversions t =
    rw (parse_phase-value t.from_phase, parse_phase-value t.to_phase) refl

transitions_of-transition_items :
    (conversions : Conversions) (ts : List CampaignTransition)
    → transitions_of conversions (transition_items ts) ≡ some ts
unfolding transitions_of transition_items
transitions_of-transition_items conversions [] = refl
transitions_of-transition_items conversions (t ∷ ts) =
    rw
      (
        transition_of-transition_json conversions t,
        transitions_of-transition_items conversions ts,
        transitions_of,
      )
      refl

target_of-target_json :
    (target : Option CampaignPhase) → target_of (target_json target) ≡ some target
unfolding target_of target_json phase_of
target_of-target_json none = refl
target_of-target_json (some p) = rw (parse_phase-value p, target_of) refl

module _ {W E : Type 0} (spec : PinnedCampaignSpec) (o : CampaignOrchestrator W E) where
  parse_snapshot_lem :
      (F : Type 0) (loads : Bytes → Option Json) (bytes : Bytes)
      → loads bytes ≡ some (snapshot_json spec o)
      → parse_snapshot {E = F} loads bytes ≡ ok (snapshot_fields spec o, transition_items o.sink)
  unfolding parse_snapshot shape_of require_keys items_of lookup snapshot_json snapshot_fields
  parse_snapshot_lem F loads bytes l = rw (l, parse_snapshot) refl

  names_spec_lem : names_spec (snapshot_fields spec o) spec.digest ≡ true
  unfolding names_spec lookup is_text snapshot_fields
  names_spec_lem = (str_eq_iff spec.digest _).1 refl

  phase_lem : at_key "phase" (snapshot_fields spec o) phase_of ≡ some o.phase
  unfolding at_key lookup snapshot_fields phase_of
  phase_lem = parse_phase-value o.phase

  target_lem : at_key "resume_target" (snapshot_fields spec o) target_of ≡ some o.resume_target
  unfolding at_key lookup snapshot_fields
  target_lem = target_of-target_json o.resume_target

module _ (crypto : Crypto) (loads : Bytes → Option Json) (conversions : Conversions)
    {W E F : Type 0} where
  restore-snapshot :
      (spec : PinnedCampaignSpec) (o : CampaignOrchestrator W E) (has_clock : Bool)
      (execution : Option (ExecutionGate W E)) (compensation : Option (CompensationGate W E))
      (bytes : Bytes)
      → spec_verifies crypto spec ≡ true
      → loads bytes ≡ some (snapshot_json spec o)
      → restore crypto loads conversions {F = F} spec has_clock execution compensation
          (address crypto bytes)
          bytes
        ≡ ok (record o {
          has_clock = has_clock;
          execution_gate = execution;
          compensation_gate = compensation;
        })
  unfolding restore or_bad new_orchestrator
  restore-snapshot spec o has_clock execution compensation bytes v l =
      rw
        (
          (str_eq_iff (address crypto bytes) _).1 refl,
          parse_snapshot_lem spec o F loads bytes l,
          names_spec_lem spec o,
          phase_lem spec o,
          target_lem spec o,
          transitions_of-transition_items conversions o.sink,
          v,
        )
        refl

  -- A campaign that was checkpointed in a store, whose address of the bytes is their digest and which
  -- gives them back, is reconstructed with its phase, its resume target and its whole log, provided that
  -- the pinned spec verifies and that the snapshot's JSON text is read back as it was written.
  pub checkpoint-reconstruct :
      {S : Type 0} (checkpoints : CheckpointStore S F) (spec : PinnedCampaignSpec)
      (o : CampaignOrchestrator W E) (has_clock : Bool) (execution : Option (ExecutionGate W E))
      (compensation : Option (CompensationGate W E)) (s s' s'' : S)
      → spec_verifies crypto spec ≡ true
      → loads (dumps (snapshot_json spec o)) ≡ some (snapshot_json spec o)
      → checkpoint checkpoints spec o s ≡ (ok (address crypto (dumps (snapshot_json spec o))), s')
      → checkpoints.load (address crypto (dumps (snapshot_json spec o))) s'
        ≡ (ok (dumps (snapshot_json spec o)), s'')
      → (digest : String) × (checkpoint checkpoints spec o s ≡ (ok digest, s'))
        × (reconstruct crypto loads conversions checkpoints spec has_clock execution compensation
              digest s'
            ≡ (
              ok (record o {
                has_clock = has_clock;
                execution_gate = execution;
                compensation_gate = compensation;
              }),
              s'',
            ))
  unfolding reconstruct as_loaded
  checkpoint-reconstruct checkpoints spec o has_clock execution compensation s s' s'' v l c back =
      let bytes = dumps (snapshot_json spec o) in
      (
        address crypto bytes,
        c,
        rw (back, reconstruct, restore-snapshot spec o has_clock execution compensation bytes v l)
            refl,
      )
