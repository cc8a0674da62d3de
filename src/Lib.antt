-- ===== src/Lib.antt =====
-- A model of the governance SDK (src/codeatelier_governance): what an agent's host process calls
-- before and after an agent acts, with the theorems about it.
--
-- The parts and their files:
--   Prelude, Errors, Exec: shared names, lists and dicts, the exceptions, methods that raise.
--   Audit: the audit log (audit/). Audit/Models and Audit/Crypto hold the events, and as parameters
--     the JSON serialization, HMAC and signatures, which third-party code computes. Audit/Chain is
--     audit/chain.py and the verifiers of audit/module.py; Audit/Store is the in-memory store of
--     audit/store.py and Audit/Writer its BatchingWriter; Audit/Event the construction of an
--     AuditEvent (audit/models.py, audit/sanitization.py); Audit/Log is AuditModule.log with its
--     fallback; Audit/Corrections is audit/corrections.py, with the
--     sanctioned write of audit/module.py in Sanctioned; Audit/Keys is audit/keys.py, Audit/Rotation
--     audit/rotation.py with the rotation-aware verifier of audit/chain.py, whose loop is in Tally.
--     Spec, Commitment, Forks, Windows, Eviction, Filing, Reach, Bounds, Chains, Active,
--     History, Owners, Turn, Honest, Handover, Acceptance, Sessions, Runs, Held,
--     Conservation, Delivery and Revalidation are proofs.
--   Presence: the halt switch (presence/module.py), its in-memory table and its cache. Halts,
--     Enforcement and Clearance are proofs.
--   Scope: the policies (scope/models.py), the patterns and the checks (scope/module.py); a check asks
--     Presence first and logs its refusals through Audit/Log. Decisions and Enforcement are proofs.
--   Gates: the approval store (gates/store.py) and in Gates/Tokens the approval tokens (gates/tokens.py),
--     with split and join in Segments, and in Gates/Approvals the gates module (gates/module.py), with
--     wait_for in Waiting; SingleUse, RoundTrip, Authenticity, Lifecycle, Verdicts, Races and Backoff are
--     proofs. A request asks Presence, and a grant parses its token and logs before the store persists.
--   Cost: the budgets (cost/). Cost/Store is cost/store.py, Cost/Policy cost/models.py, Cost/Pricing
--     cost/pricing.py, Cost/Alerts and Cost/Delivery cost/webhook.py; Cost.antt, Cost/Check,
--     Cost/Track and Cost/Report are CostModule, over any store. A check asks Presence first and logs
--     through Audit/Emit. Floats are the parameter Cost/Numbers. Ledger, Daily, Admits, Budgets, Decisions,
--     Enforcement, Totals, Counters, Reconcile, Nan, Alarm and Lookup are proofs.
--   Contracts: the contracts of tools (contracts/), over the record Host of what they ask of the other
--     modules; Hosting fills it with Cost, Scope and Gates over one log and one presence table.
--     Enforcement and Meaning are proofs.
--   Routing: model routing (routing/), with the policies in Routing/Models, register and its deferral in
--     Routing.antt and suggest in Routing/Suggest; it reads Cost and Scope and logs through Audit/Emit.
--     Choice, Proposals, Advice and Deferred are proofs.
--   Identity: the registry of the agents' keys (identity/registry.py), in Identity/Revocation their
--     revocations (identity/revocation.py), which log through Audit/Log, and in Identity/Signing the
--     signatures of rows in audit/chain.py. Activation, Windows, Revoked and Trust are proofs.
--   Loop: loop detection (loop/module.py), which logs through Audit/Log; Window is a proof.
--   Tests: concrete runs, with a toy hash that has no collisions.
--
-- State and effects. An object is a record of its fields, a method is a function from the object to
-- its result and the object after it, so that what was written before a raise stays written. A lock
-- makes a method one step. UUIDs are numbers. Moments are natural numbers of microseconds, and
-- differences of moments are compared as sums; where one is subtracted (the time of a session, the
-- jitter of a poll), the source clamps at 0 or compares it with a limit that is not negative. What the
-- code reads outside (clock, uuid4, context variables, the answer of a database query) is an argument.
-- Dicts are association lists in insertion order. Token counts are taken to be small enough for a
-- float. Every loop runs over a list or a count, so no fuel is used; the loop of wait_for runs over
-- the list of its turns, which holds what the clock, the platform and the other tasks do.
--
-- Not modelled: the SQL and JSONL stores and the Postgres methods of the identity registry and of
-- routing, whose logic is in their SQL; require_approval of the gates module; the JSON and signature
-- of budget alerts; the keystores and the cache of audit/keys.py; the walk of sanitize_metadata over
-- nested values, which is a parameter; the checks and the sanitizing that AuditEvent does for events
-- other than those of the corrections, the revocations and the suggestions; the JSON drain of the
-- log's fallback, its subscribers and the platform bridge, whose failures it swallows; the coverage
-- registry, the facade sdk.py, the platform client, the telemetry exporter, the integrations, the
-- command line, the reports and the migrations.
pub mod Prelude
pub mod Errors
pub mod Exec
pub mod Audit
pub mod Presence
pub mod Scope
pub mod Gates
pub mod Loop
pub mod Contracts
pub mod Cost
pub mod Identity
pub mod Routing
pub mod Tests
