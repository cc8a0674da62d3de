-- ===== src/Gates/Approvals/Lifecycle.antt =====
-- A request and its grant, over the in-memory store.
use agentic_governance.Prelude.{ℕ, ◌≡◌, refl, ap, Bool, false, none, some, string_eq, nat_eq, ◌==◌}
use agentic_governance.Prelude.Dict.{Dict, get}
use agentic_governance.Errors.{None, ok}
use agentic_governance.Exec.{Exec}
use agentic_governance.Audit.Crypto.{Crypto}
use agentic_governance.Audit.Models.{AuditEvent}
use agentic_governance.Audit.Log.{Log}
use agentic_governance.Audit.Emit.{plain_event, emit_lem, logged}
use agentic_governance.Presence.{Json}
use agentic_governance.Gates.{
  ApprovalRequest, GatesStore, Resolution, granted, denied, settle, insert_pending, resolve,
}
use agentic_governance.Gates.Approvals.{
  Context, Approvals, memory_backend, kind_of, emit_audit, settled, resolve_request,
}

module _ (c : Crypto) (j : Json) (J K : Type 0) where
  -- The module over the in-memory store.
  abbrev pub on_memory : Context c j J K (GatesStore J) → Context c j J K (GatesStore J)
  on_memory x = record x { ops = memory_backend J (Log c) }

  abbrev pub requested : Context c j J K (GatesStore J) → ApprovalRequest J → AuditEvent c.Metadata
  requested x req = plain_event req.agent_id none "approval.requested" (x.requested_metadata req)

  abbrev pub resolved :
      Context c j J K (GatesStore J)
      → Resolution
      → (by_platform : Bool) → ApprovalRequest J
      → AuditEvent c.Metadata
  resolved x resolution by_platform req =
      plain_event req.agent_id none (kind_of resolution) (x.resolved_metadata req by_platform)

  resolve_pending :
      (W : Type 0) (i : ℕ) (resolution : Resolution) (hook : ApprovalRequest J → Exec W None)
      (req : ApprovalRequest J) (store : GatesStore J) (w after : W)
      → get store.resolutions i ≡ none
      → get store.pending i ≡ some req
      → hook req w ≡ (ok tt, after)
      → resolve J W i resolution (some hook) (store, w)
        ≡ (ok req, (settle J i resolution req store, after))
  unfolding resolve
  resolve_pending W i resolution hook req store w after free there done =
      rw (free, there, ap (λ r. r.0) done, resolve)
        (ap (λ r. (ok req, (settle J i resolution req store, r.1))) done)

  kind_of_lem : (resolution : Resolution) → (kind_of resolution == "audit.correction") ≡ false
  kind_of_lem granted = refl
  kind_of_lem denied = refl

  pub resolve_request_lem :
      (y : Context c j J K (GatesStore J)) (i : ℕ) (resolution : Resolution) (by_platform : Bool)
      (req : ApprovalRequest J) (s : Approvals c j J K (GatesStore J))
      → get s.store.resolutions i ≡ none
      → get s.store.pending i ≡ some req
      → resolve_request c j J K (GatesStore J) (on_memory y) i resolution by_platform s ≡ (
        ok tt,
        record s {
          store = settle J i resolution req s.store;
          log = logged c y.config y.call (resolved y resolution by_platform req) s.log;
        },
      )
  unfolding resolve_request
  resolve_request_lem y i resolution by_platform req s free there =
      ap (settled c j J K (GatesStore J) (on_memory y) s) (
        resolve_pending (Log c) i resolution
          (emit_audit c j J K (GatesStore J) (on_memory y) resolution by_platform) req s.store s.log
          _ free there
          (emit_lem c y.config y.call (resolved y resolution by_platform req) s.log
            (kind_of_lem resolution)))

  -- The same key and token format as in another context.
  abbrev pub with_key_of :
      Context c j J K (GatesStore J)
      → Context c j J K (GatesStore J)
      → Context c j J K (GatesStore J)
  with_key_of x y = record y { env = x.env; secret = x.secret }

  -- The state in which `request` returns.
  abbrev pub after_request :
      (x : Context c j J K (GatesStore J))
      → ApprovalRequest J
      → Approvals c j J K (GatesStore J)
      → Approvals c j J K (GatesStore J)
  after_request x req s = record s {
    store = insert_pending J req s.store;
    log = logged c x.config x.call (requested x req) s.log;
  }
