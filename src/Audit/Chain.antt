-- ===== src/Audit/Chain.antt =====
-- audit/chain.py: the HMAC of an event, and its recomputation for a stored record.
pub mod Verify
pub mod Spec
pub mod Commitment
pub mod Forks
pub mod Windows
use agentic_governance.Prelude.{ℕ, String, Option, Bool}
use agentic_governance.Audit.Models.{Payload, AuditEventRecord}
use agentic_governance.Audit.Crypto.{Crypto}

abbrev pub Record : Crypto → Type 0
Record c = AuditEventRecord c.Metadata c.Digest c.Signature

-- The dict that `verify_event` passes on to `compute_event_hmac`.
abbrev pub payload : (c : Crypto) → Record c → Payload c.Metadata c.Digest
payload c r = record {
  event_id = r.event_id;
  session_id = r.session_id;
  agent_id = r.agent_id;
  parent_event_id = r.parent_event_id;
  kind = r.kind;
  model = r.model;
  input_hash = r.input_hash;
  output_hash = r.output_hash;
  metadata = r.metadata;
  prev_hash = r.prev_hash;
  created_at = r.created_at;
}

module _ (c : Crypto) where
  abbrev pub compute_event_hmac : c.Secret → Payload c.Metadata c.Digest → c.Digest
  compute_event_hmac secret p = c.hexdigest secret (c.canonical p)

  unfoldable pub verify_event : Record c → c.Secret → Bool
  verify_event r secret = c.digest_eq.beq (compute_event_hmac secret (payload c r)) r.hmac
