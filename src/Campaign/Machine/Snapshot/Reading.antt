-- ===== src/Campaign/Machine/Snapshot/Reading.antt =====
-- What a reconstruction of a campaign has checked and read from the bytes that it loaded.
use Prim.Native.String.{◌++◌ as str_append}
use recursive_self_improveme.Common.{
  String, ◌≡◌, sym, ap, ◌∙◌, inl, inr, Bool, true, Option, some, List, arith, str_eq, str_eq_iff,
  Bool-cases, Option-cases, ok, ok_eq, err_ne, Outcome-cases,
}
use recursive_self_improveme.Common.Effects.{Returned-cases, ok_ne_err}
use recursive_self_improveme.Common.Json.{Bytes, Json, str, arr, obj, Items, Fields}
use recursive_self_improveme.Security.{Crypto, verify}
use recursive_self_improveme.Campaign.Phase.{CampaignPhase, value}
use recursive_self_improveme.Campaign.Machine.{
  CampaignTransition, CampaignOrchestrator, ExecutionGate, CompensationGate,
}
use recursive_self_improveme.Campaign.Machine.Snapshot.{
  PinnedCampaignSpec, CheckpointStore, Conversions, lookup, target_json, phase_of, target_of,
  at_key, transitions_of,
}
use recursive_self_improveme.Campaign.Machine.Snapshot.Reconstruct.{
  parse_snapshot, or_bad, address, names_spec, spec_verifies, new_orchestrator, as_loaded, restore,
  reconstruct,
}
use recursive_self_improveme.Campaign.Machine.Snapshot.Shapes.{
  names_spec_eq, at_key_ok, phase_of_eq, target_of_eq, parse_snapshot_ok,
}

-- The spec's digest is that of its canonical bytes, and its signature is over them.
abbrev pub IsPinned : Crypto → PinnedCampaignSpec → Type 0
IsPinned crypto spec =
    (spec.digest ≡ str_append "sha256:" (crypto.sha256_hex spec.canonical_bytes))
    × (crypto.verify_raw spec.signature.public_key spec.signature.signature spec.canonical_bytes
        ≡ true)

-- The JSON text of the bytes is an object that names the spec and `o`'s phase, resume target and log.
abbrev pub ReadFrom :
    {W E : Type 0}
    → (Bytes → Option Json)
    → Conversions
    → PinnedCampaignSpec
    → CampaignOrchestrator W E
    → Bytes
    → Type 0
ReadFrom loads conversions spec o bytes =
    (fs : Fields) × (items : Items) × (loads bytes ≡ some (obj fs))
    × (lookup "spec_digest" fs ≡ some (str spec.digest))
    × (lookup "phase" fs ≡ some (str (value o.phase)))
    × (lookup "resume_target" fs ≡ some (target_json o.resume_target))
    × (lookup "transitions" fs ≡ some (arr items))
    × (transitions_of conversions items ≡ some o.sink)

spec_verifies-IsPinned :
    (crypto : Crypto) (spec : PinnedCampaignSpec)
    → spec_verifies crypto spec ≡ true
    → IsPinned crypto spec
unfolding spec_verifies address verify
spec_verifies-IsPinned crypto spec h =
    elim (Bool-cases (str_eq spec.digest (address crypto spec.canonical_bytes))) [
      | inr f ↦ ground (arith, rw (f, spec_verifies) at h)
      | inl e ↦ ((str_eq_iff _ _).0 e, rw (e, spec_verifies) at h)
    ]

module _ (crypto : Crypto) (loads : Bytes → Option Json) (conversions : Conversions)
    {W E F : Type 0} where
  new_orchestrator_ok :
      (spec : PinnedCampaignSpec) (has_clock : Bool) (execution : Option (ExecutionGate W E))
      (compensation : Option (CompensationGate W E)) (phase : CampaignPhase)
      (target : Option CampaignPhase) (log : List CampaignTransition) (o : CampaignOrchestrator W E)
      → new_orchestrator {F = F} crypto spec has_clock execution compensation phase target log
        ≡ ok o
      → (spec_verifies crypto spec ≡ true)
        × (record {
          phase = phase;
          resume_target = target;
          sink = log;
          has_clock = has_clock;
          execution_gate = execution;
          compensation_gate = compensation;
        }
            ≡ o)
  unfolding new_orchestrator
  new_orchestrator_ok spec has_clock execution compensation phase target log o h =
      elim (Bool-cases (spec_verifies crypto spec)) [
        | inr f ↦ elim (err_ne (rw (f, new_orchestrator) at h)) [ ]
        | inl v ↦ (v, ok_eq (rw (v, new_orchestrator) at h))
      ]

  -- The steps of a restoration that returns.
  restore_ok :
      (spec : PinnedCampaignSpec) (o : CampaignOrchestrator W E) (has_clock : Bool)
      (execution : Option (ExecutionGate W E)) (compensation : Option (CompensationGate W E))
      (digest : String) (bytes : Bytes)
      → restore crypto loads conversions {F = F} spec has_clock execution compensation digest bytes
        ≡ ok o
      → (fs : Fields) × (items : Items) × (phase : CampaignPhase) × (target : Option CampaignPhase)
        × (log : List CampaignTransition) × (str_eq (address crypto bytes) digest ≡ true)
        × (parse_snapshot {E = F} loads bytes ≡ ok (fs, items))
        × (names_spec fs spec.digest ≡ true)
        × (at_key "phase" fs phase_of ≡ some phase)
        × (at_key "resume_target" fs target_of ≡ some target)
        × (transitions_of conversions items ≡ some log)
        × (new_orchestrator {F = F} crypto spec has_clock execution compensation phase target log
            ≡ ok o)
  unfolding restore or_bad
  restore_ok spec o has_clock execution compensation digest bytes h =
      elim (Bool-cases (str_eq (address crypto bytes) digest)) [
        | inr f ↦ elim (err_ne (rw (f, restore) at h)) [ ]
        | inl a ↦ elim (Outcome-cases (parse_snapshot {E = F} loads bytes)) [
          | inr p ↦ elim (err_ne (rw (a, p.1, restore) at h)) [ ]
          | inl ((fs, items), p) ↦ elim (Bool-cases (names_spec fs spec.digest)) [
            | inr f ↦ elim (err_ne (rw (a, p, f, restore) at h)) [ ]
            | inl n ↦ elim (Option-cases (at_key "phase" fs phase_of)) [
              | inl f ↦ elim (err_ne (rw (a, p, n, f, restore) at h)) [ ]
              | inr (phase, e) ↦ elim (Option-cases (at_key "resume_target" fs target_of)) [
                | inl f ↦ elim (err_ne (rw (a, p, n, e, f, restore) at h)) [ ]
                | inr (target, t) ↦ elim (Option-cases (transitions_of conversions items)) [
                  | inl f ↦ elim (err_ne (rw (a, p, n, e, t, f, restore) at h)) [ ]
                  | inr (log, g) ↦
                      let made = rw (a, p, n, e, t, g, restore) at h in
                      (fs, items, phase, target, log, a, p, n, e, t, g, made)
                ]
              ]
            ]
          ]
        ]
      ]

  restore_lem :
      (spec : PinnedCampaignSpec) (o : CampaignOrchestrator W E) (has_clock : Bool)
      (execution : Option (ExecutionGate W E)) (compensation : Option (CompensationGate W E))
      (digest : String) (bytes : Bytes)
      → restore crypto loads conversions {F = F} spec has_clock execution compensation digest bytes
        ≡ ok o
      → (address crypto bytes ≡ digest)
        × ReadFrom loads conversions spec o bytes
        × IsPinned crypto spec
        × (o.has_clock ≡ has_clock)
        × (o.execution_gate ≡ execution)
        × (o.compensation_gate ≡ compensation)
  restore_lem spec o has_clock execution compensation digest bytes h =
      let (fs, items, phase, target, log, a, p, n, e, t, g, new) =
        restore_ok spec o has_clock execution compensation digest bytes h in
      let made = new_orchestrator_ok spec has_clock execution compensation phase target log o new in
      let parsed = parse_snapshot_ok loads bytes fs items p in
      let from = at_key_ok "phase" fs phase_of phase e in
      let to = at_key_ok "resume_target" fs target_of target t in
      let at_phase =
        from.1
        ∙ ap (λ q. some q) (phase_of_eq from.0 phase from.2)
        ∙ ap (λ q. some (str (value q.phase))) made.1 in
      let at_target =
        to.1
        ∙ ap (λ q. some q) (target_of_eq to.0 target to.2)
        ∙ ap (λ q. some (target_json q.resume_target)) made.1 in
      (
        (str_eq_iff _ _).0 a,
        (
          fs,
          items,
          parsed.0,
          names_spec_eq fs spec.digest n,
          at_phase,
          at_target,
          parsed.1,
          g ∙ ap (λ q. some q.sink) made.1,
        ),
        spec_verifies-IsPinned crypto spec made.0,
        sym (ap (λ q. q.has_clock) made.1),
        sym (ap (λ q. q.execution_gate) made.1),
        sym (ap (λ q. q.compensation_gate) made.1),
      )

  -- A reconstruction that returns has loaded bytes of which the digest is the one asked for; their JSON
  -- text is an object that names the pinned spec's digest and the phase, the resume target and the log
  -- that the orchestrator then has; the pinned spec has the digest of its canonical bytes and a signature
  -- that verifies over them; and the clock and the gates are the given ones.
  pub reconstruct_lem :
      {S : Type 0} (checkpoints : CheckpointStore S F) (spec : PinnedCampaignSpec)
      (has_clock : Bool) (execution : Option (ExecutionGate W E))
      (compensation : Option (CompensationGate W E)) (digest : String)
      (o : CampaignOrchestrator W E) (s s' : S)
      → reconstruct crypto loads conversions checkpoints spec has_clock execution compensation
          digest s
        ≡ (ok o, s')
      → ((bytes : Bytes) × (checkpoints.load digest s ≡ (ok bytes, s'))
          × (str_append "sha256:" (crypto.sha256_hex bytes) ≡ digest)
          × ReadFrom loads conversions spec o bytes)
        × IsPinned crypto spec
        × (o.has_clock ≡ has_clock)
        × (o.execution_gate ≡ execution)
        × (o.compensation_gate ≡ compensation)
  unfolding reconstruct as_loaded address
  reconstruct_lem checkpoints spec has_clock execution compensation digest o s s' h =
      elim (Returned-cases (checkpoints.load digest s)) [
        | inr (e, t, l) ↦ elim (ok_ne_err (sym (rw (l, reconstruct) at h))) [ ]
        | inl (bytes, t, l) ↦
            let r = rw (l, reconstruct) at h in
            let read =
              restore_lem spec o has_clock execution compensation digest bytes (ap (λ q. q.0) r) in
            (
              (bytes, l ∙ ap (λ q. (ok bytes, q.1)) r, read.0, read.1),
              read.2,
              read.3,
              read.4,
              read.5,
            )
      ]
