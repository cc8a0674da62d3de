-- ===== src/Cost.antt =====
-- cost/module.py: `CostModule`, over a store that may raise, with the halt switch and the audit log
-- that it calls. Not modelled: the persistence of policies in Postgres, and `log_disabled_once`, which
-- only logs.
pub mod Numbers
pub mod Store
pub mod Policy
pub mod Pricing
pub mod Alerts
pub mod Delivery
pub mod Check
pub mod Track
pub mod Report
use agentic_governance.Prelude.{ℕ, String, Bool, Option, none, some, List, string_eq}
use agentic_governance.Prelude.Dict.{Dict, get, put}
use agentic_governance.Errors.{None, Result, Exception, ok, err, Cap}
use agentic_governance.Exec.{Exec, modify}
use agentic_governance.Audit.Crypto.{Crypto}
use agentic_governance.Audit.Models.{AuditEvent}
use agentic_governance.Audit.Log.{Call, Config, Log}
use agentic_governance.Audit.Emit.{emit}
use agentic_governance.Presence.{Json, Presence, Source, assert_not_halted}
use agentic_governance.Cost.Numbers.{Floats}
use agentic_governance.Cost.Store.{CostStore}
use agentic_governance.Cost.Policy.{BudgetPolicy}
use agentic_governance.Cost.Alerts.{Alert, Dedup}

module _ (c : Crypto) (j : Json) (fl : Floats) (S : Type 0) where
  pub record Cost : Type 0 where
    pub policies : Dict String (BudgetPolicy fl)
    pub no_policy_warned : List String
    pub store : S
    pub presence : Option (Presence j)
    pub log : Log c
    pub alert_dedup : Dedup
    -- The alerts that were handed to `send_budget_alert`, the last one first.
    pub sent : List (Alert fl)

  -- What the module is built with, and what a call reads outside: `now` is the clock at the reading of
  -- the usage, `tracked_at` at the update, `read_at` at the
  -- reading after it and `alert_at` at the naming of the day of an alert.
  pub record Context : Type 0 where
    pub ops : CostStore fl.Float S
    pub fail_open : Bool
    pub strict_unknown_models : Bool
    pub unknown_model_fallback : Option fl.Float
    pub config : Config c
    pub call : Call c
    pub now : ℕ
    pub tracked_at : ℕ
    pub read_at : ℕ
    pub alert_at : ℕ
    pub halt_now : ℕ
    pub halt_locked : ℕ
    pub halt_source : Source
    pub webhooks_enabled : Bool
    -- {"cap": ..., "used": ..., "limit": ...}, and {"reason": ..., "error_type": ..., "fail_mode": ...}
    pub exceeded_metadata : Cap → (used limit : fl.Float) → c.Metadata
    pub failed_metadata : Exception → (fail_open : Bool) → c.Metadata

  unfoldable pub register : BudgetPolicy fl → Exec Cost None
  register policy = modify λ s. record s { policies = put s.policies policy.agent_id policy }

  abbrev pub get_policy : (agent_id : String) → Cost → Option (BudgetPolicy fl)
  get_policy agent_id s = get s.policies agent_id

  module _ (x : Context) where
    abbrev pub audit_event : AuditEvent c.Metadata → Exec Cost None
    audit_event event s =
        let (r, l) = emit c x.config x.call event s.log in (r, record s { log = l })

    abbrev pub halt_guard : (agent_id : String) → Exec Cost None
    halt_guard agent_id s = elim s.presence [
      | none ↦ (ok tt, s)
      | some p ↦
          let (r, after) = assert_not_halted j x.halt_now x.halt_locked x.halt_source agent_id p in
          (r, record s { presence = some after })
    ]
