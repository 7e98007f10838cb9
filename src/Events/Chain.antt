-- ===== src/Events/Chain.antt =====
-- A chain that db/ingest.py wrote is one that db/chain_verification.py accepts.
use recursive_self_improveme.Common.{
  ℕ, suc, ◌+◌, ◌≤◌, String, ◌≡◌, refl, sym, ap, ◌∙◌, subst, inl, inr, Option, none, some, List, [],
  ◌∷◌, ◌++◌, arith, str_eq, str_eq_iff, Bool-cases, All,
}
use recursive_self_improveme.Common.Json.{Bytes}
use recursive_self_improveme.Events.{
  EventEnvelope, Storage, read_back, Event, genesis_hash, of_tenant, by_seq, tenant_rows, last_row,
  clashes, compute_event_hash, next_row, add_row, ingest_envelope, verify_chain,
}
use recursive_self_improveme.Events.Links.{Chained, verify_chain_iff}
use recursive_self_improveme.Events.Rows.{tenant_rows-same, tenant_rows-other}

-- The database gives back the time and the amount of the envelope as they were sent.
abbrev pub IsKept : Storage → EventEnvelope → Type 0
IsKept storage e =
    (storage.read_time e.occurred_at ≡ e.occurred_at) × (storage.read_usd e.cost.usd ≡ e.cost.usd)

read_back-kept :
    (storage : Storage) (e : EventEnvelope) → IsKept storage e → read_back storage e ≡ e
unfolding read_back
read_back-kept storage e h =
    ap
      (λ t. record e {
        occurred_at = t;
        cost = record {
          input_tokens = e.cost.input_tokens;
          output_tokens = e.cost.output_tokens;
          usd = storage.read_usd e.cost.usd;
        };
      })
      h.0
    ∙ ap
        (λ u. record e {
          cost = record {
            input_tokens = e.cost.input_tokens;
            output_tokens = e.cost.output_tokens;
            usd = u;
          };
        })
        h.1

module _ (canonical_bytes : EventEnvelope → Bytes) (sha256_hex : Bytes → String) where
  -- The row that comes next after these, from a hash and a number.
  after : String → ℕ → List Event → EventEnvelope → Event
  after prev seq [] envelope = record {
    envelope = envelope;
    chain_seq = seq;
    prev_hash = prev;
    event_hash = compute_event_hash canonical_bytes sha256_hex envelope prev;
  }
  after prev seq (r ∷ rs) envelope = after r.event_hash (suc seq) rs envelope

  Chained-append :
      (prev : String) (seq : ℕ) (rs : List Event) (envelope : EventEnvelope)
      → Chained canonical_bytes sha256_hex prev seq rs
      → Chained canonical_bytes sha256_hex prev seq (rs ++ after prev seq rs envelope ∷ [])
  unfolding after
  Chained-append prev seq [] envelope h = (refl, refl, refl, tt)
  Chained-append prev seq (r ∷ rs) envelope (a, b, c, later) =
      (a, b, c, Chained-append r.event_hash (suc seq) rs envelope later)

  after-later :
      (prev : String) (seq : ℕ) (rs : List Event) (envelope : EventEnvelope)
      → Chained canonical_bytes sha256_hex prev seq rs
      → (seq ≤ (after prev seq rs envelope).chain_seq)
        × All (λ r. r.chain_seq ≤ (after prev seq rs envelope).chain_seq) rs
  unfolding after
  after-later prev seq [] envelope h = (omega arith, tt)
  after-later prev seq (r ∷ rs) envelope (a, b, c, later) =
      let (bound, rest) = after-later r.event_hash (suc seq) rs envelope later in
      (omega (arith, bound), (omega (arith, bound, a), rest))

  -- The row as it was sent.
  linked_row : Option Event → EventEnvelope → Event
  linked_row none envelope = record {
    envelope = envelope;
    chain_seq = 1;
    prev_hash = genesis_hash;
    event_hash = compute_event_hash canonical_bytes sha256_hex envelope genesis_hash;
  }
  linked_row (some tail) envelope = record {
    envelope = envelope;
    chain_seq = tail.chain_seq + 1;
    prev_hash = tail.event_hash;
    event_hash = compute_event_hash canonical_bytes sha256_hex envelope tail.event_hash;
  }

  next_row-linked :
      (storage : Storage) (tail : Option Event) (envelope : EventEnvelope)
      → read_back storage envelope ≡ envelope
      → next_row canonical_bytes sha256_hex storage tail envelope ≡ linked_row tail envelope
  unfolding next_row linked_row
  next_row-linked storage none envelope h =
      ap
        (λ e. record {
          envelope = e;
          chain_seq = 1;
          prev_hash = genesis_hash;
          event_hash = compute_event_hash canonical_bytes sha256_hex envelope genesis_hash;
        })
        h
  next_row-linked storage (some tail) envelope h =
      ap
        (λ e. record {
          envelope = e;
          chain_seq = tail.chain_seq + 1;
          prev_hash = tail.event_hash;
          event_hash = compute_event_hash canonical_bytes sha256_hex envelope tail.event_hash;
        })
        h

  next_row-from :
      (r : Event) (rs : List Event) (envelope : EventEnvelope) (seq : ℕ)
      → r.chain_seq ≡ seq
      → Chained canonical_bytes sha256_hex r.event_hash (suc seq) rs
      → linked_row (last_row (r ∷ rs)) envelope ≡ after r.event_hash (suc seq) rs envelope
  unfolding after linked_row last_row
  next_row-from r [] envelope seq a h =
      ap
        (λ n. record {
          envelope = envelope;
          chain_seq = n;
          prev_hash = r.event_hash;
          event_hash = compute_event_hash canonical_bytes sha256_hex envelope r.event_hash;
        })
        (omega (arith, a))
  next_row-from r (s ∷ rs) envelope seq a (b, c, d, later) =
      next_row-from s rs envelope (suc seq) b later

  next_row-after :
      (rs : List Event) (envelope : EventEnvelope)
      → Chained canonical_bytes sha256_hex genesis_hash 1 rs
      → linked_row (last_row rs) envelope ≡ after genesis_hash 1 rs envelope
  unfolding after linked_row last_row
  next_row-after [] envelope h = refl
  next_row-after (r ∷ rs) envelope (a, b, c, later) = next_row-from r rs envelope 1 a later

  after-envelope :
      (prev : String) (seq : ℕ) (rs : List Event) (envelope : EventEnvelope)
      → (after prev seq rs envelope).envelope ≡ envelope
  unfolding after
  after-envelope prev seq [] envelope = refl
  after-envelope prev seq (r ∷ rs) envelope = after-envelope r.event_hash (suc seq) rs envelope

  -- Each tenant's rows are a chain.
  pub IsLedger : List Event → Type 0
  IsLedger table =
      (tenant : String)
      → Chained canonical_bytes sha256_hex genesis_hash 1 (tenant_rows tenant table)

  extended :
      (table : List Event) (envelope : EventEnvelope)
      → IsLedger table
      → Chained canonical_bytes sha256_hex genesis_hash 1 (
          tenant_rows envelope.tenant_id
            (table ++ after genesis_hash 1 (tenant_rows envelope.tenant_id table) envelope ∷ []))
  unfolding IsLedger
  extended table envelope h =
      let tenant = envelope.tenant_id in
      let rows = tenant_rows tenant table in
      let row = after genesis_hash 1 rows envelope in
      let own =
        (str_eq_iff row.envelope.tenant_id tenant).1
          (ap (λ (x : EventEnvelope). x.tenant_id) (after-envelope genesis_hash 1 rows envelope)) in
      subst (Chained canonical_bytes sha256_hex genesis_hash 1)
        (sym (
          tenant_rows-same tenant row table own
            (after-later genesis_hash 1 rows envelope (h tenant)).1))
        (Chained-append genesis_hash 1 rows envelope (h tenant))

  appended-IsLedger :
      (table : List Event) (envelope : EventEnvelope)
      → IsLedger table
      → IsLedger
          (table ++ after genesis_hash 1 (tenant_rows envelope.tenant_id table) envelope ∷ [])
  unfolding IsLedger
  appended-IsLedger table envelope h tenant =
      let rows = tenant_rows envelope.tenant_id table in
      let row = after genesis_hash 1 rows envelope in
      elim (Bool-cases (str_eq row.envelope.tenant_id tenant)) [
        | inr e ↦ rw (tenant_rows-other tenant row table e) (h tenant)
        | inl e ↦
            let same : tenant ≡ envelope.tenant_id =
              sym ((str_eq_iff row.envelope.tenant_id tenant).0 e)
              ∙ ap (λ (x : EventEnvelope). x.tenant_id)
                  (after-envelope genesis_hash 1 rows envelope) in
            subst
              (λ t.
                Chained canonical_bytes sha256_hex genesis_hash 1
                  (tenant_rows t (table ++ row ∷ [])))
              (sym same) (extended table envelope h)
      ]

  add_row-IsLedger :
      (row : Event) (table : List Event)
      → IsLedger table
      → IsLedger (table ++ row ∷ [])
      → IsLedger (add_row canonical_bytes sha256_hex row table).1
  unfolding add_row
  add_row-IsLedger row table h k = elim (Bool-cases (clashes row table)) [
    | inl e ↦ rw e h
    | inr e ↦ rw e k
  ]

  ingest_envelope-IsLedger :
      (storage : Storage) (envelope : EventEnvelope) (table : List Event)
      → IsKept storage envelope
      → IsLedger table
      → IsLedger (ingest_envelope canonical_bytes sha256_hex storage envelope table).1
  unfolding ingest_envelope IsLedger
  ingest_envelope-IsLedger storage envelope table kept h =
      let rows = tenant_rows envelope.tenant_id table in
      add_row-IsLedger (next_row canonical_bytes sha256_hex storage (last_row rows) envelope) table
        h
        (subst (λ row. IsLedger (table ++ row ∷ []))
          (sym (
            next_row-linked storage (last_row rows) envelope (read_back-kept storage envelope kept)
            ∙ next_row-after rows envelope (h envelope.tenant_id)))
          (appended-IsLedger table envelope h))

  -- The table after these envelopes were sent, whether each was stored or refused.
  unfoldable pub ingest_all : Storage → List EventEnvelope → List Event → List Event
  ingest_all storage [] table = table
  ingest_all storage (e ∷ es) table =
      ingest_all storage es (ingest_envelope canonical_bytes sha256_hex storage e table).1

  ingest_all-IsLedger :
      (storage : Storage) (es : List EventEnvelope) (table : List Event)
      → All (IsKept storage) es
      → IsLedger table
      → IsLedger (ingest_all storage es table)
  unfolding ingest_all
  ingest_all-IsLedger storage [] table kept h = h
  ingest_all-IsLedger storage (e ∷ es) table kept h =
      ingest_all-IsLedger storage es _ kept.1 (ingest_envelope-IsLedger storage e table kept.0 h)

  -- Whatever envelopes of whatever tenants are ingested into an empty table, in any order and with
  -- duplicates refused, the verification of every tenant finds no violation, provided that the database
  -- gives back each envelope's time and amount as they were sent.
  pub ingest_all-verifies :
      (storage : Storage) (es : List EventEnvelope) (tenant : String)
      → All (IsKept storage) es
      → (verify_chain canonical_bytes sha256_hex (ingest_all storage es []) tenant).violations ≡ []
  unfolding IsLedger tenant_rows of_tenant by_seq
  ingest_all-verifies storage es tenant kept =
      (verify_chain_iff canonical_bytes sha256_hex (ingest_all storage es []) tenant).1
        (ingest_all-IsLedger storage es [] kept (λ t. tt) tenant)
