-- ===== src/Audit/Emit.antt =====
-- `await self._audit.log(AuditEvent(...))`, as the other modules call it for their events.
use agentic_governance.Prelude.{ℕ, String, ◌≡◌, refl, Option, none, false, ◌==◌, string_eq}
use agentic_governance.Errors.{None, ok, err}
use agentic_governance.Exec.{Exec}
use agentic_governance.Audit.Crypto.{Crypto}
use agentic_governance.Audit.Models.{AuditEvent}
use agentic_governance.Audit.Log.{Call, Config, Log, log}

-- An event with the fields that the modules set, and the others at their defaults.
abbrev pub plain_event :
    {M : Type 0}
    → (agent_id : String) → (session_id : Option ℕ) → (kind : String) → M
    → AuditEvent M
plain_event agent_id session_id kind metadata = record {
  session_id = session_id;
  agent_id = agent_id;
  parent_event_id = none;
  kind = kind;
  model = none;
  input_hash = none;
  output_hash = none;
  metadata = metadata;
}

module _ (c : Crypto) (config : Config c) (call : Call c) where
  -- The log after the call, whatever it returns.
  abbrev pub logged : AuditEvent c.Metadata → Log c → Log c
  logged event l = (log c config (record call { event = event }) l).1

  unfoldable pub emit : AuditEvent c.Metadata → Exec (Log c) None
  emit event l =
      let (r, after) = log c config (record call { event = event }) l in
      elim r [ ok _ ↦ (ok tt, after) | err e ↦ (err e, after) ]

  -- Nothing but a correction makes `log` raise.
  pub emit_lem :
      (event : AuditEvent c.Metadata) (l : Log c)
      → (event.kind == "audit.correction") ≡ false
      → emit event l ≡ (ok tt, logged event l)
  unfolding emit log
  emit_lem event l h = rw (h, emit, log) refl
