-- ===== src/Events/Examples.antt =====
-- Ingests and verifications at a concrete serialisation and digest.
use recursive_self_improveme.Common.{
  ℕ, ◌+◌, ◌*◌, ◌%◌, String, ◌≡◌, refl, ◌↔◌, ◌⊎◌, Bool, true, false, none, List, [], ◌∷◌, ◌++◌,
  str_eq, ◌==◌, if◌then◌else◌, length, All,
}
use recursive_self_improveme.Common.Json.{Bytes, codes}
use recursive_self_improveme.Events.{
  EventEnvelope, Storage, Event, hash_mismatch, internal, genesis_hash, tenant_rows,
  ingest_envelope, clashes, last_row, verify_chain,
}
use recursive_self_improveme.Events.Links.{Chained, verify_chain_iff}
use recursive_self_improveme.Events.Chain.{IsKept, ingest_all, ingest_all-verifies}
use recursive_self_improveme.Events.Tamper.{Collides, SameEvents, same_head-SameEvents}

abbrev event : String → String → EventEnvelope
event tenant id = record {
  event_id = id;
  occurred_at = "2026-01-01T00:00:00Z";
  tenant_id = tenant;
  agent_id = "agt_1";
  release_id = "rel_1";
  campaign_id = none;
  trace_id = "trc_1";
  task_id = "tsk_1";
  kind = "tool.completed";
  schema_version = 1;
  artifact_digests = [];
  model = record { provider = "p"; name = "m"; version = "1" };
  environment_digest = "sha256:0";
  cost = record { input_tokens = 1; output_tokens = 2; usd = "0.1" };
  data_classification = internal;
  payload_uri = none;
  payload_digest = none;
}

abbrev demo_bytes : EventEnvelope → Bytes
demo_bytes e = codes e.event_id ++ codes e.occurred_at

abbrev last_byte : Bytes → ℕ
last_byte [] = 0
last_byte (b ∷ bs) = b + 3 * last_byte bs

abbrev pick : Bool → Bool → String
pick true true = "0000000000000000000000000000000000000000000000000000000000000001"
pick true false = "0000000000000000000000000000000000000000000000000000000000000002"
pick false true = "0000000000000000000000000000000000000000000000000000000000000003"
pick false false = "0000000000000000000000000000000000000000000000000000000000000004"

abbrev demo_hash : Bytes → String
demo_hash b = pick (last_byte b % 2 == 0) (last_byte b % 3 == 0)

pick-length : (p q : Bool) → length (codes (pick p q)) ≡ 64
unfolding codes
pick-length true true = refl
pick-length true false = refl
pick-length false true = refl
pick-length false false = refl

-- A time with an offset is read back in UTC.
abbrev in_utc : Storage
in_utc = record {
  read_time = λ t. if str_eq t "2026-01-01T02:00:00+02:00" then "2026-01-01T00:00:00Z" else t;
  read_usd = λ usd. usd;
}

abbrev sent : List EventEnvelope
sent = event "tnt_a" "evt_1" ∷ event "tnt_b" "evt_2" ∷ event "tnt_a" "evt_1" ∷ []

abbrev table : List Event
table = ingest_all demo_bytes demo_hash in_utc sent []

sent_twice_stored_once : length table ≡ 2
unfolding ingest_all ingest_envelope tenant_rows codes clashes last_row
sent_twice_stored_once = refl

abbrev all_utc : All (IsKept in_utc) sent
all_utc = ((refl, refl), ((refl, refl), ((refl, refl), tt)))

ingest_all-verifies_example : (verify_chain demo_bytes demo_hash table "tnt_a").violations ≡ []
ingest_all-verifies_example = ingest_all-verifies demo_bytes demo_hash in_utc sent "tnt_a" all_utc

-- An event with another offset is reported as tampered with once it is read back.
abbrev with_offset : EventEnvelope
with_offset = record (event "tnt_a" "evt_1") { occurred_at = "2026-01-01T02:00:00+02:00" }

offset_test :
    (verify_chain demo_bytes demo_hash
      (ingest_all demo_bytes demo_hash in_utc (with_offset ∷ []) [])
      "tnt_a").violations
    ≡ record { chain_seq = 1; event_id = "evt_1"; reason = hash_mismatch } ∷ []
unfolding verify_chain ingest_all ingest_envelope tenant_rows clashes last_row codes
offset_test = refl

verify_chain_iff_at_test :
    ((verify_chain demo_bytes demo_hash table "tnt_a").violations ≡ [])
    ↔ Chained demo_bytes demo_hash genesis_hash 1 (tenant_rows "tnt_a" table)
verify_chain_iff_at_test = verify_chain_iff demo_bytes demo_hash table "tnt_a"

-- Another replica, in which the tenant's event came behind the other tenant's.
abbrev sent_later : List EventEnvelope
sent_later = event "tnt_b" "evt_2" ∷ event "tnt_a" "evt_1" ∷ []

abbrev replica : List Event
replica = ingest_all demo_bytes demo_hash in_utc sent_later []

table_verifies : (verify_chain demo_bytes demo_hash table "tnt_a").violations ≡ []
table_verifies = ingest_all-verifies demo_bytes demo_hash in_utc sent "tnt_a" all_utc

replica_verifies : (verify_chain demo_bytes demo_hash replica "tnt_a").violations ≡ []
replica_verifies =
    ingest_all-verifies demo_bytes demo_hash in_utc sent_later "tnt_a"
      ((refl, refl), ((refl, refl), tt))

same_head-SameEvents_example :
    Collides demo_bytes demo_hash (tenant_rows "tnt_a" table) (tenant_rows "tnt_a" replica)
    ⊎ SameEvents demo_bytes demo_hash (tenant_rows "tnt_a" table) (tenant_rows "tnt_a" replica)
unfolding verify_chain ingest_all ingest_envelope tenant_rows clashes codes last_row
same_head-SameEvents_example =
    same_head-SameEvents demo_bytes demo_hash
      (λ b. pick-length (last_byte b % 2 == 0) (last_byte b % 3 == 0)) table replica "tnt_a"
      table_verifies replica_verifies refl refl
