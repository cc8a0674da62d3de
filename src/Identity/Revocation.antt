-- ===== src/Identity/Revocation.antt =====
-- identity/revocation.py: the revocations of keys, in the in-memory mode, with the audit log that
-- `revoke_with_chain_event` writes first. Not modelled: the methods that need an engine (SQL).
use agentic_governance.Prelude.{
  ℕ, String, Bool, Option, none, some, List, [], ◌∷◌, ◌++◌, string_eq, leb, exists, default,
  if◌then◌else◌,
}
use agentic_governance.Prelude.Dict.{Dict, get_or, put}
use agentic_governance.Errors.{Result, ok, err}
use agentic_governance.Exec.{Exec, ◌>>=◌}
use agentic_governance.Audit.Crypto.{Crypto}
use agentic_governance.Audit.Chain.{Record}
use agentic_governance.Audit.Models.{AuditEvent}
use agentic_governance.Audit.Event.{EventEnv, audit_event}
use agentic_governance.Audit.Emit.{plain_event}
use agentic_governance.Audit.Log.{Call, Config, Log, log}

pub record RevocationRecord : Type 0 where
  pub key_fingerprint : String
  pub revoked_at_chain_seq : ℕ
  pub reason : String
  pub operator_id : String
  pub created_at : ℕ
  pub chain_event_id : Option ℕ

pub record RevocationStore : Type 0 where
  pub strict_chain : Bool
  pub records : List RevocationRecord
  pub by_fingerprint : Dict String (List RevocationRecord)

abbrev pub no_revocations : (strict_chain : Bool) → RevocationStore
no_revocations strict_chain = record {
  strict_chain = strict_chain;
  records = [];
  by_fingerprint = [];
}

abbrev pub revocations_of : RevocationStore → (key_fingerprint : String) → List RevocationRecord
revocations_of s key_fingerprint = get_or s.by_fingerprint key_fingerprint []

-- The record carries the arguments and the clock.
unfoldable pub revoke : RevocationRecord → RevocationStore → RevocationStore
revoke r s = record s {
  records = s.records ++ r ∷ [];
  by_fingerprint =
      put s.by_fingerprint r.key_fingerprint (revocations_of s r.key_fingerprint ++ r ∷ []);
}

unfoldable pub is_revoked_at : (key_fingerprint : String) → (chain_seq : ℕ) → RevocationStore → Bool
is_revoked_at key_fingerprint chain_seq s =
    exists (λ r. leb r.revoked_at_chain_seq chain_seq) (revocations_of s key_fingerprint)

module _ (c : Crypto) where
  -- What `revoke_with_chain_event` is given, and what it reads outside: `chain_seq` is none where the
  -- store of the audit module has no `get_current_chain_seq`, and otherwise what that returns.
  pub record RevokeCall : Type 0 where
    pub key_fingerprint : String
    pub reason : String
    pub operator_id : String
    pub revoker_agent_id : String
    pub strict_chain : Option Bool
    pub config : Config c
    pub call : Call c
    pub chain_seq : Option (Result ℕ)
    pub created_at : ℕ
    -- {"revoked_key_fingerprint": ..., "reason": ..., "operator_id": ...}
    pub metadata : c.Metadata
    pub env : EventEnv c.Metadata

  -- The store and the audit log.
  pub record Revoking : Type 0 where
    pub store : RevocationStore
    pub log : Log c

  abbrev pub seq_or_zero : Option (Result ℕ) → ℕ
  seq_or_zero none = 0
  seq_or_zero (some (err e)) = 0
  seq_or_zero (some (ok chain_seq)) = chain_seq

  abbrev pub revocation_event : RevokeCall → AuditEvent c.Metadata
  revocation_event x = plain_event x.revoker_agent_id none "audit.agent_key_revocation" x.metadata

  -- The id of the event, or none where the lax mode passes over a failure of the log.
  abbrev pub noted :
      RevokeCall → Revoking → Result (Record c) × Log c → Result (Option ℕ) × Revoking
  noted x s (ok done, after) = (ok (some done.event_id), record s { log = after })
  noted x s (err e, after) =
      let failed : Result (Option ℕ) =
        if default x.strict_chain s.store.strict_chain then err e else ok none in
      (failed, record s { log = after })

  -- The `try` around the log, for the event that was built before it.
  abbrev pub log_revocation : RevokeCall → AuditEvent c.Metadata → Exec Revoking (Option ℕ)
  log_revocation x event s = noted x s (log c x.config (record x.call { event = event }) s.log)

  -- An event that `AuditEvent` refuses is raised.
  abbrev pub log_built : RevokeCall → Result (AuditEvent c.Metadata) → Exec Revoking (Option ℕ)
  log_built x (err e) s = (err e, s)
  log_built x (ok event) s = log_revocation x event s

  abbrev pub chain_event : RevokeCall → Exec Revoking (Option ℕ)
  chain_event x = log_built x (audit_event x.env (revocation_event x))

  abbrev pub append_revocation :
      RevokeCall → (chain_event_id : Option ℕ) → Exec Revoking RevocationRecord
  append_revocation x chain_event_id s =
      let r : RevocationRecord = record {
        key_fingerprint = x.key_fingerprint;
        revoked_at_chain_seq = seq_or_zero x.chain_seq;
        reason = x.reason;
        operator_id = x.operator_id;
        created_at = x.created_at;
        chain_event_id = chain_event_id;
      } in
      (ok r, record s { store = revoke r s.store })

  unfoldable pub revoke_with_chain_event : RevokeCall → Exec Revoking RevocationRecord
  revoke_with_chain_event x = chain_event x >>= append_revocation x
