-- ===== src/Gates/Approvals/Races.antt =====
-- `wait_for` over the in-memory store, when other calls resolve the request.
use agentic_governance.Prelude.{
  ℕ, ◌+◌, ◌≡◌, refl, ap, ◌∙◌, Bool, true, none, some, List, [], ◌∷◌, string_eq, nat_eq, leb,
  beq_refl,
}
use agentic_governance.Prelude.Dict.{get, get-put, get-remove}
use agentic_governance.Errors.{ok}
use agentic_governance.Audit.Crypto.{Crypto}
use agentic_governance.Audit.Log.{Log}
use agentic_governance.Presence.{Json}
use agentic_governance.Gates.{
  ApprovalRequest, GatesStore, Resolution, granted, denied, get_resolution, get_pending, settle,
  resolve, StoreCall, step, run,
}
use agentic_governance.Gates.SingleUse.{run-resolution}
use agentic_governance.Gates.Approvals.{Context, Approvals, sync_platform_resolution, first_poll}
use agentic_governance.Gates.Approvals.Waiting.{Tick, verdict, read_local, heard, waited, wait_for}
use agentic_governance.Gates.Approvals.Lifecycle.{on_memory}
use agentic_governance.Gates.Approvals.Verdicts.{wait_loop-decided, wait_loop-told}

module _ (c : Crypto) (j : Json) (J K : Type 0) where
  -- Calls of the store by other tasks, on the module's store and log.
  abbrev pub others :
      List (StoreCall J (Log c))
      → Approvals c j J K (GatesStore J)
      → Approvals c j J K (GatesStore J)
  others calls s =
      let (store, log) = run J (Log c) calls (s.store, s.log) in
      record s { store = store; log = log }

  -- A verdict that the local store holds stands: when a request is resolved, `wait_for` ends in its
  -- first turn with that verdict, whatever calls of the store ran in between and whatever the platform
  -- would answer.
  pub local_verdict_stands :
      (x : Context c j J K (GatesStore J)) (has_platform : Bool)
      (request_id started timeout polls_from : ℕ) (t : Tick c j J K (GatesStore J))
      (ts : List (Tick c j J K (GatesStore J))) (calls : List (StoreCall J (Log c)))
      (s : Approvals c j J K (GatesStore J)) (r : Resolution)
      → get_resolution J request_id s.store ≡ some r
      → wait_for c j J K
          (GatesStore J)
          (on_memory c j J K x)
          has_platform
          request_id
          started
          timeout
          polls_from
          (record t { before = others calls } ∷ ts)
          s
        ≡ (
          some (
              verdict c j J K
                (GatesStore J)
                (on_memory c j J K x)
                has_platform
                request_id
                (started + timeout)
                r),
          others calls s,
        )
  unfolding wait_for read_local get_resolution
  local_verdict_stands x has_platform request_id started timeout polls_from t ts calls s r h =
      wait_loop-decided c j J K (GatesStore J) (on_memory c j J K x) has_platform request_id
        (started + timeout) (record t { before = others calls }) ts (first_poll polls_from) s r
        (run-resolution J (Log c) calls (s.store, s.log) request_id r h)

  abbrev deny_call : (request_id : ℕ) → List (StoreCall J (Log c))
  deny_call request_id = StoreCall.resolve_call request_id denied none ∷ []

  others-deny_call :
      (request_id : ℕ) (s : Approvals c j J K (GatesStore J)) (req : ApprovalRequest J)
      → get s.store.resolutions request_id ≡ none
      → get s.store.pending request_id ≡ some req
      → others (deny_call request_id) s
        ≡ record s { store = settle J request_id denied req s.store }
  unfolding run step resolve
  others-deny_call request_id s req free there = rw (free, there, run, step, resolve) refl

  sync-gone :
      (x : Context c j J K (GatesStore J)) (request_id : ℕ) (r : Resolution)
      (s : Approvals c j J K (GatesStore J))
      → get s.store.pending request_id ≡ none
      → sync_platform_resolution c j J K (GatesStore J) (on_memory c j J K x) request_id r s ≡ s
  unfolding sync_platform_resolution get_pending
  sync-gone x request_id r s h = rw (h, sync_platform_resolution) refl

  -- The platform overrules a local denial that comes while it is asked: when the request is pending at
  -- the local read, the platform is asked and answers "granted", and another task denies the request
  -- in the meantime, `wait_for` returns True although the store says "denied".
  pub platform_overrules :
      (x : Context c j J K (GatesStore J)) (request_id started timeout polls_from : ℕ)
      (t : Tick c j J K (GatesStore J)) (ts : List (Tick c j J K (GatesStore J)))
      (s : Approvals c j J K (GatesStore J)) (req : ApprovalRequest J)
      → get s.store.resolutions request_id ≡ none
      → get s.store.pending request_id ≡ some req
      → leb polls_from t.asked_at ≡ true
      → let (r, after) =
          wait_for c j J K
            (GatesStore J)
            (on_memory c j J K x)
            true
            request_id
            started
            timeout
            polls_from
            (record t {
              before = λ u. u;
              during = others (deny_call request_id);
              answer = ok (some granted);
            }
              ∷ ts)
            s in
        (r ≡ some (ok true)) × (get_resolution J request_id after.store ≡ some denied)
  unfolding wait_for read_local get_resolution
  platform_overrules x request_id started timeout polls_from t ts s req free there due =
      let M = GatesStore J in
      let y = on_memory c j J K x in
      let deadline = started + timeout in
      let tick : Tick c j J K M = record t {
        before = λ u. u;
        during = others (deny_call request_id);
        answer = ok (some granted);
      } in
      let denied_then : Approvals c j J K M = record s {
        store = settle J request_id denied req s.store;
      } in
      let asked : heard c j J K M y true request_id deadline tick (first_poll polls_from)
          ≡ some granted =
        rw due refl in
      let passed : waited c j J K M y true request_id deadline tick (first_poll polls_from) s
          ≡ denied_then =
        rw due (others-deny_call request_id s req free there) in
      let gone : get denied_then.store.pending request_id ≡ none =
        get-remove s.store.pending request_id request_id ∙ rw (beq_refl request_id) refl in
      let ended =
        wait_loop-told c j J K M y true request_id deadline tick ts (first_poll polls_from) s
          granted free asked
        ∙ ap (λ u. (some (ok true), sync_platform_resolution c j J K M y request_id granted u))
            passed
        ∙ ap (λ u. (some (ok true), u)) (sync-gone x request_id granted denied_then gone) in
      (
        ap (λ r. r.0) ended,
        ap (λ r. get_resolution J request_id r.1.store) ended
            ∙ get-put s.store.resolutions request_id request_id denied
            ∙ rw (beq_refl request_id) refl,
      )
