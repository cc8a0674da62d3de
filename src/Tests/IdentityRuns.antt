-- ===== src/Tests/IdentityRuns.antt =====
-- A registered key that signs a row, and is revoked later.
use agentic_governance.Prelude.{
  ℕ, ◌≡◌, ◌↔◌, refl, true, none, some, List, [], ◌∷◌, string_eq, arith,
}
use agentic_governance.Prelude.Dict.{get, put}
use agentic_governance.Errors.{ok, err, store_unavailable}
use agentic_governance.Audit.Models.{Payload, SignatureStatus}
use agentic_governance.Audit.Log.{log_unsafe, log_primary, log_fallback, log_event}
use agentic_governance.Audit.Store.{
  OnFull, init, insert_with_chain_lock, last_hash, enforce_cap_before_append,
}
use agentic_governance.Identity.{
  AgentKeyRecord, no_keys, register, resolve, newest, get_by_fingerprint,
}
use agentic_governance.Identity.Activation.{register_all}
use agentic_governance.Identity.Windows.{IsCandidate, IsUpTo, resolve_iff}
use agentic_governance.Identity.Revocation.{
  RevocationRecord, no_revocations, Revoking, RevokeCall, is_revoked_at, revocation_event,
}
use agentic_governance.Identity.Revoked.{plain_step, chained_step, step, run, revocation_call}
use agentic_governance.Identity.Signing.{Scheme, sign_audit_row, verify_audit_row_signature}
use agentic_governance.Identity.Trust.{
  verify_audit_row_signature-revoke, verify_audit_row_signature-sign_audit_row,
}
use agentic_governance.Audit.Models.{AuditEvent}
use agentic_governance.Tests.Toy.{toy_env, toy, toy_log, toy_config, toy_call, Tag}
use agentic_governance.Tests.TokenRuns.{tally}

abbrev toy_scheme : Scheme toy
toy_scheme = record {
  PrivateKey = ℕ;
  sign = λ key message. ok tt;
  public_key_pem = tally;
  verify = λ message signature pem. true;
  compute_fingerprint = λ pem. pem;
  canonical_row = λ p hmac. p;
}

abbrev key : (n activated : ℕ) → AgentKeyRecord
key n activated = record {
  key_fingerprint = tally n;
  agent_id = "billing";
  public_key_pem = tally n;
  activated_at_chain_seq = activated;
}

-- The third registration is refused, since it is not later than the second.
abbrev keys : List AgentKeyRecord
keys = key 2 0 ∷ key 3 10 ∷ key 4 10 ∷ []

resolved : resolve "billing" 12 (register_all keys no_keys) ≡ some (key 3 10)
unfolding resolve register get put newest
resolved = refl

resolve_iff_example :
    let s = register_all keys no_keys in
    (resolve "billing" 12 s ≡ some (key 3 10)) ↔ (
      IsCandidate s "billing" 12 (key 3 10)
      × ((t : AgentKeyRecord) → IsCandidate s "billing" 12 t → IsUpTo (key 3 10) t))
resolve_iff_example = resolve_iff keys "billing" 12 (key 3 10)

abbrev row : Payload ℕ Tag
row = record {
  event_id = 1;
  session_id = 1;
  agent_id = "billing";
  parent_event_id = none;
  kind = "tool.call";
  model = none;
  input_hash = none;
  output_hash = none;
  metadata = 5;
  prev_hash = none;
  created_at = 1000;
}

abbrev mac : Tag
mac = toy.hexdigest 7 row

verify_audit_row_signature-sign_audit_row_example :
    let (signature, fingerprint, status) = sign_audit_row toy toy_scheme (some 3) row mac in
    verify_audit_row_signature toy toy_scheme row mac 12
      (some status)
      signature
      fingerprint
      (some (register_all keys no_keys))
      (some (no_revocations true))
    ≡ status
unfolding register get put is_revoked_at get_by_fingerprint
verify_audit_row_signature-sign_audit_row_example =
    verify_audit_row_signature-sign_audit_row toy toy_scheme (some 3) (register_all keys no_keys)
      (no_revocations true) row mac 12 (λ k m g h. refl) (key 3 10, refl, refl, refl)

abbrev revocation : RevocationRecord
revocation = record {
  key_fingerprint = tally 3;
  revoked_at_chain_seq = 11;
  reason = "leaked";
  operator_id = "ops";
  created_at = 2000;
  chain_event_id = none;
}

abbrev chained : RevokeCall toy
chained = record {
  key_fingerprint = tally 2;
  reason = "retired";
  operator_id = "ops";
  revoker_agent_id = "governance.operator";
  strict_chain = none;
  config = toy_config;
  call = toy_call "revocation" 40;
  chain_seq = some (ok 15);
  created_at = 2001;
  metadata = 6;
  env = toy_env;
}

abbrev revoking : Revoking toy
revoking = record { store = no_revocations true; log = toy_log }

verify_audit_row_signature-revoke_example :
    verify_audit_row_signature toy toy_scheme row mac 12
      (some SignatureStatus.signed)
      (some tt)
      (some (tally 3))
      (some (register_all keys no_keys))
      (some (run toy (chained_step chained ∷ []) (step toy (plain_step revocation) revoking)).store)
    ≡ SignatureStatus.revoked_key
verify_audit_row_signature-revoke_example =
    verify_audit_row_signature-revoke toy toy_scheme revocation revoking (chained_step chained ∷ [])
      row mac 12 (some SignatureStatus.signed) tt (some (register_all keys no_keys)) (omega arith)

-- Both stores are full, and refuse the event.
abbrev in_outage : Revoking toy
in_outage = record {
  store = no_revocations true;
  log = record {
    primary = init toy 0 OnFull.refuse;
    fallback = init toy 0 OnFull.refuse;
    degraded_starts = [];
  };
}

abbrev revocation_made : AuditEvent ℕ
revocation_made = revocation_event toy chained

refused :
    (log_unsafe toy toy_config (revocation_call toy chained revocation_made) in_outage.log).0
    ≡ err store_unavailable
unfolding log_unsafe log_primary log_fallback log_event insert_with_chain_lock last_hash get
    enforce_cap_before_append
refused = refl
