-- ===== src/Audit/Models.antt =====
-- audit/models.py: the events that a caller logs and the records that the store keeps.
-- UUIDs are numbers, and a datetime is its count of microseconds.
use agentic_governance.Prelude.{ℕ, String, Option}

-- What `AuditEvent` carries into `audit.log`. `M` is the type of metadata dicts.
pub record AuditEvent (M : Type 0) : Type 0 where
  pub session_id : Option ℕ
  pub agent_id : String
  pub parent_event_id : Option ℕ
  pub kind : String
  pub model : Option String
  pub input_hash : Option String
  pub output_hash : Option String
  pub metadata : M

-- The dict that `compute_event_hmac` serializes. `D` is the type of hex digests.
pub record Payload (M D : Type 0) : Type 0 where
  pub event_id : ℕ
  pub session_id : ℕ
  pub agent_id : String
  pub parent_event_id : Option ℕ
  pub kind : String
  pub model : Option String
  pub input_hash : Option String
  pub output_hash : Option String
  pub metadata : M
  pub prev_hash : Option D
  pub created_at : ℕ

pub data SignatureStatus : Type 0 where
  signed unsigned unsigned_local_failure legacy_unsigned : SignatureStatus
  revoked_key invalid_signature unknown_key : SignatureStatus

-- `S` is the type of Ed25519 signatures.
pub record AuditEventRecord (M D S : Type 0) : Type 0 where
  pub event_id : ℕ
  pub session_id : ℕ
  pub agent_id : String
  pub parent_event_id : Option ℕ
  pub kind : String
  pub model : Option String
  pub input_hash : Option String
  pub output_hash : Option String
  pub metadata : M
  pub prev_hash : Option D
  pub hmac : D
  pub created_at : ℕ
  pub signature : Option S
  pub signing_key_fingerprint : Option String
  pub signature_status : SignatureStatus
