-- ===== src/Events.antt =====
-- Trace events and their hash chain per tenant: core/events.py, core/hashchain.py, db/ingest.py and
-- db/chain_verification.py. The table is the list of its rows in the order of their commits.
pub mod Rows
pub mod Links
pub mod Chain
pub mod Tamper
mod Examples
use recursive_self_improveme.Common.{
  ℕ, zero, suc, ◌+◌, ◌-◌, ◌*◌, ◌/◌, ◌%◌, ◌≤◌, ◌<◌, min, max, String, ◌≡◌, refl, sym, ap, ◌∙◌, subst,
  ◌≢◌, ◌↔◌, ◌⊎◌, inl, inr, Bool, true, false, ◌&&◌, ◌||◌, not, Option, none, some, List, [], ◌∷◌,
  ◌++◌, map, arith, str_eq, str_eq_iff, ltb, leb, ◌==◌, if◌then◌else◌, ltb→lt, lt→ltb, leb→le,
  ==_iff, Bool-cases, Option-cases, opt_eq, opt_eq→eq, opt_eq_refl, length, length-append,
  replicate, All, All-append, Outcome, ok, err, Outcome-cases,
}
use recursive_self_improveme.Common.Effects.{Effect}
use recursive_self_improveme.Common.Json.{Bytes, codes}

pub data DataClassification : Type 0 where
  public internal confidential restricted : DataClassification

pub record ModelInfo : Type 0 where
  pub provider : String
  pub name : String
  pub version : String

-- `usd` is the text of the amount.
pub record CostInfo : Type 0 where
  pub input_tokens : ℕ
  pub output_tokens : ℕ
  pub usd : String

-- `occurred_at` is the text of the time.
pub record EventEnvelope : Type 0 where
  pub event_id : String
  pub occurred_at : String
  pub tenant_id : String
  pub agent_id : String
  pub release_id : String
  pub campaign_id : Option String
  pub trace_id : String
  pub task_id : String
  pub kind : String
  pub schema_version : ℕ
  pub artifact_digests : List String
  pub model : ModelInfo
  pub environment_digest : String
  pub cost : CostInfo
  pub data_classification : DataClassification
  pub payload_uri : Option String
  pub payload_digest : Option String

-- What the database gives back for a time that it stores with a time zone, which keeps the instant and
-- not the offset, and for the number of an amount in a JSON column.
pub record Storage : Type 0 where
  pub read_time : String → String
  pub read_usd : String → String

-- The envelope that `_envelope_from_row` makes of the columns in which this one was stored.
unfoldable pub read_back : Storage → EventEnvelope → EventEnvelope
read_back storage e = record e {
  occurred_at = storage.read_time e.occurred_at;
  cost = record {
    input_tokens = e.cost.input_tokens;
    output_tokens = e.cost.output_tokens;
    usd = storage.read_usd e.cost.usd;
  };
}

-- A row of the table: the envelope of its columns, as `_envelope_from_row` reads them, and the columns
-- of the chain.
pub record Event : Type 0 where
  pub envelope : EventEnvelope
  pub chain_seq : ℕ
  pub prev_hash : String
  pub event_hash : String

pub data IngestError : Type 0 where
  duplicate_event : String → IngestError

pub data ViolationReason : Type 0 where
  sequence_gap prev_hash_mismatch hash_mismatch : ViolationReason

pub record ChainViolation : Type 0 where
  pub chain_seq : ℕ
  pub event_id : String
  pub reason : ViolationReason

pub record ChainVerificationResult : Type 0 where
  pub tenant_id : String
  pub event_count : ℕ
  pub violations : List ChainViolation

abbrev pub genesis_hash : String
genesis_hash = "0000000000000000000000000000000000000000000000000000000000000000"

-- The rows of a tenant by `chain_seq`, as the database selects them.
unfoldable pub of_tenant : String → List Event → List Event
of_tenant tenant [] = []
of_tenant tenant (r ∷ rs) =
    let rest = of_tenant tenant rs in if str_eq r.envelope.tenant_id tenant then r ∷ rest else rest

unfoldable pub insert_row : Event → List Event → List Event
insert_row r [] = r ∷ []
insert_row r (s ∷ ss) =
    let rest = insert_row r ss in if leb r.chain_seq s.chain_seq then r ∷ s ∷ ss else s ∷ rest

unfoldable pub by_seq : List Event → List Event
unfolding insert_row
by_seq [] = []
by_seq (r ∷ rs) = insert_row r (by_seq rs)

unfoldable pub tenant_rows : String → List Event → List Event
unfolding of_tenant by_seq
tenant_rows tenant table = by_seq (of_tenant tenant table)

-- The row that `order_by(chain_seq.desc()).limit(1)` selects.
unfoldable pub last_row : List Event → Option Event
last_row [] = none
last_row (r ∷ []) = some r
last_row (r ∷ s ∷ rs) = last_row (s ∷ rs)

-- A unique column or pair of columns of the table has the row's value already.
unfoldable pub clashes : Event → List Event → Bool
clashes row [] = false
clashes row (r ∷ rs) =
    str_eq r.envelope.event_id row.envelope.event_id
    || (str_eq r.envelope.tenant_id row.envelope.tenant_id && r.chain_seq == row.chain_seq)
    || str_eq r.event_hash row.event_hash
    || clashes row rs

-- The serialisation of an envelope, and SHA-256 in hexadecimal.
module _ (canonical_bytes : EventEnvelope → Bytes) (sha256_hex : Bytes → String) where
  unfoldable pub compute_event_hash : EventEnvelope → String → String
  compute_event_hash envelope prev_hash = sha256_hex (canonical_bytes envelope ++ codes prev_hash)

  -- The hash is that of the envelope as it was sent.
  unfoldable pub next_row : Storage → Option Event → EventEnvelope → Event
  unfolding compute_event_hash read_back
  next_row storage none envelope = record {
    envelope = read_back storage envelope;
    chain_seq = 1;
    prev_hash = genesis_hash;
    event_hash = compute_event_hash envelope genesis_hash;
  }
  next_row storage (some tail) envelope = record {
    envelope = read_back storage envelope;
    chain_seq = tail.chain_seq + 1;
    prev_hash = tail.event_hash;
    event_hash = compute_event_hash envelope tail.event_hash;
  }

  unfoldable pub add_row : Event → Effect (List Event) IngestError Event
  add_row row table =
      if clashes row table
      then (err (duplicate_event row.envelope.event_id), table)
      else (ok row, table ++ row ∷ [])

  -- One transaction: a call that raises is rolled back.
  unfoldable pub ingest_envelope : Storage → EventEnvelope → Effect (List Event) IngestError Event
  unfolding add_row next_row
  ingest_envelope storage envelope table =
      add_row (next_row storage (last_row (tenant_rows envelope.tenant_id table)) envelope) table

  -- The violations of one row, in the order of the checks.
  unfoldable pub check_row : String → ℕ → Event → List ChainViolation
  unfolding compute_event_hash
  check_row expected_prev expected_seq row =
      (if not (row.chain_seq == expected_seq) then violation sequence_gap else [])
      ++ (if not (str_eq row.prev_hash expected_prev) then violation prev_hash_mismatch else [])
      ++ (if not (str_eq (compute_event_hash row.envelope row.prev_hash) row.event_hash)
          then violation hash_mismatch
          else [])
    where
      violation : ViolationReason → List ChainViolation
      violation reason =
          record { chain_seq = row.chain_seq; event_id = row.envelope.event_id; reason = reason }
          ∷ []

  unfoldable pub check_rows : String → ℕ → List Event → List ChainViolation
  unfolding check_row
  check_rows expected_prev expected_seq [] = []
  check_rows expected_prev expected_seq (row ∷ rows) =
      check_row expected_prev expected_seq row ++ check_rows row.event_hash (row.chain_seq + 1) rows

  unfoldable pub verify_chain : List Event → String → ChainVerificationResult
  unfolding check_rows
  verify_chain table tenant =
      let rows = tenant_rows tenant table in
      record {
        tenant_id = tenant;
        event_count = length rows;
        violations = check_rows genesis_hash 1 rows;
      }
