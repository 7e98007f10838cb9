-- ===== src/Lib.antt =====
-- EvoRuntime is a control plane for systems that improve themselves: campaigns propose candidates,
-- evaluations score them under budgets, and a release plane moves one pointer to the approved
-- release, with rollback. The parts modelled here are those that decide, over state that they own;
-- paths are from the repository's root.
--
-- - Campaign/Phase and Campaign/Machine: src/evoruntime/campaign/machine.py. `CampaignOrchestrator`
--   is a record of its phase, resume target, log, clock and gates. `transition`, `pause`, `resume`
--   and `cancel` are functions from it, the time and the world of the gates, `W`, to an outcome and
--   the new ones, since a gate may act on its world and raise. The log is the in-memory sink. The
--   transition table is `allowed_transitions`. Snapshot is `checkpoint`, `reconstruct` and
--   `_parse_snapshot` over any store of bytes, with the pinned spec of src/evoruntime/campaign/spec.py;
--   the reader of JSON text is a parameter. The other children are about the moves, the log and
--   the gates.
-- - Campaign/Compensation: src/evoruntime/campaign/compensation.py. The plan, its canonical body and
--   signature, and, in Execution, the rollback walk over an executor that may raise, the promotion
--   check and `CheckpointedCompensationGate`, whose sink is a list of records. Campaign/Promotion
--   puts this gate under the orchestrator.
-- - Selection/ReleasePointer: src/evoruntime/selection/release_pointer.py. The store is the pointer
--   and what its audit log holds; the log is an interface that may raise, with the in-memory log as
--   an instance. `compare_and_swap` asks src/evoruntime/security/policy.py first.
-- - Selection/Authority: src/evoruntime/selection/authority.py, with the artifact classes of
--   src/evoruntime/plugins/manifest.py. The folding of letter case is a parameter. Release/Eligibility is
--   src/evoruntime/release/eligibility.py on top of it.
-- - Selection/Graduation: src/evoruntime/selection/graduation.py. `RiskDossier` with the checks of its
--   constructor, the tier it resolves to through Selection/Authority, and its signature; in Records
--   `evaluate_graduation`, in Ledger the signed rows of src/evoruntime/db/models/graduation.py. The
--   words of a decision's detail are a parameter.
-- - Tenancy/Policy: src/evoruntime/tenancy/policy.py and environment.py, the document of what a tenant
--   allows, and the registry of documents.
-- - Plugins/Privileged: src/evoruntime/plugins/privileged.py, the two-person admission of a plugin and
--   its signed record.
-- - Api/Approvals: src/evoruntime/api/approvals.py over the tables of
--   src/evoruntime/db/models/approvals.py. The tables are lists of rows in the order of their
--   creation; each call is one transaction, rolled back where it raises; drawn identifiers are
--   arguments. It calls Selection/Authority, Tenancy/Policy and Plugins/Privileged. Requests,
--   Decisions, Records, Admissions and Lookup hold the operations, the other children are about
--   histories of calls.
-- - Registry/Activation: `activate_release` of src/evoruntime/registry/service.py, with the walk over
--   the dependencies of artifacts.
-- - Release/Manifest, Release/Controller: src/evoruntime/release/manifest.py and controller.py. The
--   controller verifies a manifest, then moves the pointer through the store.
-- - Release/Invalidation: src/evoruntime/release/invalidation.py, over the controller's store and the
--   fleet.
-- - Release/Canary: src/evoruntime/release/canary.py. `run_canary` goes through the stages of
--   `CanaryHarness.run`, each a function on the outcome of the one before: activation, the tasks, the
--   compensations and the restoration or the promotion check. The random numbers are a
--   parameter, of which it is assumed that a draw from an interval lies in it and that a shuffle
--   permutes.
-- - Release/Fleet: src/evoruntime/release/fleet.py, the simulator: workers with caches, sessions
--   pinned to a manifest, reports, and a memory with one namespace for each arm.
-- - Eval/Budgets: src/evoruntime/eval/budgets.py, the task budget and its meter.
-- - Eval/Cascade: src/evoruntime/eval/cascade.py, over an evaluator that may raise and acts on a
--   world.
-- - Events: src/evoruntime/core/events.py, core/hashchain.py, db/ingest.py and
--   db/chain_verification.py. The table is a list of rows, with its unique columns; selections by
--   tenant and order are functions on it; an ingest that raises is rolled back. A row holds the
--   envelope that its columns give back: `Storage`, a parameter, is what the database makes of a time
--   with an offset and of an amount. The serialisation of an envelope and the digest are parameters.
-- - Sdk/Buffer: src/evoruntime/sdk/buffer.py, the bounded emit buffer.
-- - Security and Registry: src/evoruntime/security and src/evoruntime/registry/canonical.py, the
--   roles, signatures and canonical bytes that the others use.
-- - Common: Boolean tests, lists, outcomes, calls that may raise and change a state, and the JSON
--   text of `json.dumps` with sorted keys.
--
-- Exceptions are constructors of an error type, with values that their messages show. A lock that
-- guards a method makes it one step. Numbers are natural numbers; seconds are whole; a time is an
-- argument, what the clock returns. The cryptography is a parameter, `Crypto`: a digest function, and
-- a signature scheme of which only this is assumed, that what a key signs verifies under its public
-- key. Mappings in a signed body are given with their keys in sorted order. Two
-- models need fuel. The decimal digits of a number are given one unit more than the number. A walk over
-- dependencies is given one unit more than there are registered artifacts: each step visits another one.
--
-- Not modelled: the document of a campaign's spec, the compensation plans of the review board,
-- the writes of the artifact registry, the other plugins, the rest of the SDK,
-- the other services over a database, the statistics, which are floating-point, and whatever acts on the
-- operating system or a network.
pub mod Common
pub mod Security
pub mod Registry
pub mod Selection
pub mod Tenancy
pub mod Plugins
pub mod Api
pub mod Campaign
pub mod Release
pub mod Eval
pub mod Events
pub mod Sdk
