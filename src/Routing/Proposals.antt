-- ===== src/Routing/Proposals.antt =====
-- `suggest` keeps to the models that the scope allows, and announces what it changes.
use agentic_governance.Prelude.{ℕ, ◌≡◌, ◌⊎◌, String, true, some}
use agentic_governance.Errors.{Result, ok, err}
use agentic_governance.Audit.Crypto.{Crypto}
use agentic_governance.Audit.Models.{AuditEvent}
use agentic_governance.Audit.Event.{sanitize_string}
use agentic_governance.Audit.Emit.{logged}
use agentic_governance.Audit.Log.{Log, log}
use agentic_governance.Presence.{Json}
use agentic_governance.Cost.Numbers.{Floats}
use agentic_governance.Routing.{Routing, Outside}
use agentic_governance.Routing.Suggest.{allowed_models_of}
use agentic_governance.Routing.Choice.{is_allowed}

module _ (c : Crypto) (j : Json) (fl : Floats) (S : Type 0) (x : Outside c j fl S)
    (agent_id : String) (session_id : ℕ) (requested : String) (max_tokens : ℕ) where
  -- One event is logged, a suggestion of the model for the agent, and nothing else changes.
  abbrev pub IsAnnounced : (m : String) → (before after : Routing c j fl S) → Type 0
  IsAnnounced m before after =
      (event : AuditEvent c.Metadata) × (event.kind
        ≡ sanitize_string x.env 128 "routing.suggestion")
      × (event.agent_id ≡ sanitize_string x.env 256 agent_id)
      × (event.model ≡ some (sanitize_string x.env 128 m))
      × (after ≡ record before { log = logged c x.config (x.call_at 0) event before.log })

  abbrev IsAllowed : Routing c j fl S → String → Type 0
  IsAllowed s m = is_allowed (allowed_models_of c j fl S s.scope agent_id) m ≡ true

  -- The requested model, or one that the scope policy allows, announced.
  abbrev pub IsProper : (m : String) → (before after : Routing c j fl S) → Type 0
  IsProper m before after =
      (m ≡ requested)
      ⊎ ((is_allowed (allowed_models_of c j fl S before.scope agent_id) m ≡ true)
          × IsAnnounced m before after)

  -- What is returned is proper; an exception is still to be caught.
  abbrev Proposes : Routing c j fl S → Result String × Routing c j fl S → Type 0
  Proposes s (ok m, after) = IsProper m s after
  Proposes s (err e, after) = Unit
