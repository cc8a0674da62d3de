-- ===== src/Audit/Log/Chains.antt =====
-- What `log` writes is a chain: on the primary store and on the fallback, for every session.
use agentic_governance.Prelude.{
  ℕ, ◌≡◌, ◌≢◌, refl, sym, none, Bool, [], arith, contains, true, false, Bool-cases, inl, inr,
  nat_eq, subst, ◌⊎◌, ◌↔◌, ◌==◌, ◌&&◌, not, string_eq,
}
use text.Mathlib.TextEquality.{eq_iff}
use agentic_governance.Prelude.Dict.{get}
use agentic_governance.Errors.{ok, err, runtime_error, Result-cases}
use agentic_governance.Audit.Crypto.{Crypto}
use agentic_governance.Audit.Chain.{Record}
use agentic_governance.Exec.{Exec}
use agentic_governance.Audit.Chain.Verify.{verify_chain_records}
use agentic_governance.Audit.Chain.Spec.{verify_chain_records_iff}
use agentic_governance.Audit.Store.{Store, OnFull, init, get_session_events, verify_not_truncated}
use agentic_governance.Audit.Store.Filing.{Filed→IsChain}
use agentic_governance.Audit.Store.Reach.{IsFiled, Builds, insert-IsFiled, insert_absent}
use agentic_governance.Audit.Log.{
  Call, Config, Log, build_record, build_marker, insert_event, insert_marker, log_primary,
  log_fallback, log_unsafe, log, session_of, retry, on_primary, log_event,
}

module _ (c : Crypto) (config : Config c) where
  build_record-Builds :
      (call : Call c) → Builds c config.secret (build_record c config call) call.event_id
  unfolding build_record
  build_record-Builds call prev = (refl, refl, refl)

  build_marker-Builds :
      (call : Call c) → Builds c config.secret (build_marker c config call) call.marker_id
  unfolding build_marker
  build_marker-Builds call prev = (refl, refl, refl)

  -- `uuid4` returns ids that no stored event has, and two different ones.
  pub record IsFresh (s : Store c) (event_id marker_id : ℕ) : Type 0 where
    pub event_absent : get s.events event_id ≡ none
    pub marker_absent : get s.events marker_id ≡ none
    pub distinct : marker_id ≢ event_id

  abbrev Good : Store c → Type 0
  Good = IsFiled c config.secret

  event-Good :
      (call : Call c) (s : Store c)
      → get s.events call.event_id ≡ none
      → Good s
      → Good (insert_event c config call s).1
  event-Good call s absent h =
      insert-IsFiled c config.secret s (session_of c call) (build_record c config call)
        call.event_id (build_record-Builds call) absent h

  marker-Good :
      (call : Call c) (s : Store c)
      → get s.events call.marker_id ≡ none
      → Good s
      → Good (insert_marker c config call s).1
  marker-Good call s absent h =
      insert-IsFiled c config.secret s (session_of c call) (build_marker c config call)
        call.marker_id (build_marker-Builds call) absent h

  both-Good :
      (call : Call c) (s : Store c)
      → IsFresh s call.event_id call.marker_id
      → Good s
      → Good (insert_event c config call (insert_marker c config call s).1).1
  both-Good call s fresh h =
      event-Good call _
        (insert_absent c s (session_of c call) (build_marker c config call) call.marker_id
          call.event_id (λ prev. (build_marker-Builds call prev).0) fresh.distinct
          fresh.event_absent)
        (marker-Good call s fresh.marker_absent h)

  -- Both stores are good.
  pub record IsSound (l : Log c) : Type 0 where
    pub primary : Good l.primary
    pub fallback : Good l.fallback

  on_primary-Good :
      (outage : Bool) (insert : Exec (Store c) (Record c)) (s : Store c)
      → Good s
      → Good (insert s).1
      → Good (on_primary c outage insert s).1
  on_primary-Good true insert s before after = before
  on_primary-Good false insert s before after = after

  on_primary_absent :
      (outage : Bool) (insert : Exec (Store c) (Record c)) (s : Store c) (i : ℕ)
      → get s.events i ≡ none
      → get (insert s).1.events i ≡ none
      → get (on_primary c outage insert s).1.events i ≡ none
  on_primary_absent true insert s i before after = before
  on_primary_absent false insert s i before after = after

  log_event-Good :
      (call : Call c) (s : Store c)
      → get s.events call.event_id ≡ none
      → Good s
      → Good (on_primary c call.event_outage (insert_event c config call) s).1
  log_event-Good call s absent h =
      on_primary-Good call.event_outage (insert_event c config call) s h
        (event-Good call s absent h)

  log_marker-Good :
      (call : Call c) (s : Store c)
      → get s.events call.marker_id ≡ none
      → Good s
      → Good (on_primary c call.marker_outage (insert_marker c config call) s).1
  log_marker-Good call s absent h =
      on_primary-Good call.marker_outage (insert_marker c config call) s h
        (marker-Good call s absent h)

  log_primary-IsSound :
      (call : Call c) (l : Log c)
      → IsFresh l.primary call.event_id call.marker_id
      → IsSound l
      → IsSound (log_primary c config call l).1
  unfolding log_primary log_event
  log_primary-IsSound call l fresh h =
      let marked = on_primary c call.marker_outage (insert_marker c config call) l.primary in
      let marked_good = log_marker-Good call l.primary fresh.marker_absent h.primary in
      let still_absent =
        on_primary_absent call.marker_outage (insert_marker c config call) l.primary call.event_id
          fresh.event_absent
          (insert_absent c l.primary (session_of c call) (build_marker c config call) call.marker_id
            call.event_id (λ prev. (build_marker-Builds call prev).0) fresh.distinct
            fresh.event_absent) in
      elim (Bool-cases (contains (session_of c call) l.degraded_starts)) [
        | inr other ↦ rw other (record {
          primary = log_event-Good call l.primary fresh.event_absent h.primary;
          fallback = h.fallback;
        })
        | inl degraded ↦ elim (Result-cases marked.0) [
          | inl (r, e) ↦
              rw (degraded, e)
                (record {
                  primary = log_event-Good call marked.1 still_absent marked_good;
                  fallback = h.fallback;
                })
          | inr (x, e) ↦ rw (degraded, e) (record { primary = marked_good; fallback = h.fallback })
        ]
      ]

  log_primary-fallback :
      (call : Call c) (l : Log c) → (log_primary c config call l).1.fallback ≡ l.fallback
  unfolding log_primary
  log_primary-fallback call l = ground arith

  log_fallback-IsSound :
      (call : Call c) (l : Log c)
      → IsFresh l.fallback call.retry_event_id call.retry_marker_id
      → IsSound l
      → IsSound (log_fallback c config call l).1
  unfolding log_fallback
  log_fallback-IsSound call l fresh h =
      elim (Bool-cases (contains (session_of c call) l.degraded_starts)) [
        | inl known ↦ rw known (record {
          primary = h.primary;
          fallback = event-Good (retry c call) l.fallback fresh.event_absent h.fallback;
        })
        | inr first ↦ rw first (record {
          primary = h.primary;
          fallback = both-Good (retry c call) l.fallback fresh h.fallback;
        })
      ]

  log_unsafe-IsSound :
      (call : Call c) (l : Log c)
      → IsFresh l.primary call.event_id call.marker_id
      → IsFresh l.fallback call.retry_event_id call.retry_marker_id
      → IsSound l
      → IsSound (log_unsafe c config call l).1
  unfolding log_unsafe
  log_unsafe-IsSound call l here there h =
      let after = log_primary-IsSound call l here h in
      elim (Result-cases (log_primary c config call l).0) [
        | inl (r, e) ↦ rw (e, log_unsafe) after
        | inr (x, e) ↦
            rw (e, log_unsafe)
              (log_fallback-IsSound call (log_primary c config call l).1
                (subst (λ s. IsFresh s call.retry_event_id call.retry_marker_id)
                  (sym (log_primary-fallback call l)) there)
                after)
      ]

  log-IsSound :
      (call : Call c) (l : Log c)
      → IsFresh l.primary call.event_id call.marker_id
      → IsFresh l.fallback call.retry_event_id call.retry_marker_id
      → IsSound l
      → IsSound (log c config call l).1
  unfolding log
  log-IsSound call l here there h =
      elim (Bool-cases (call.event.kind == "audit.correction" && not call.sanctioned)) [
        | inl refused ↦ rw refused h
        | inr taken ↦ rw taken (log_unsafe-IsSound call l here there h)
      ]

  init-Good : (max_events : ℕ) (on_full : OnFull) → Good (init c max_events on_full)
  unfolding get
  init-Good max_events on_full none_gone session_id = tt

  -- The logs that a process reaches from two empty stores, whatever their caps.
  pub data Run : Log c → Type 0 where
    start :
        (max max' : ℕ) (on_full on_full' : OnFull)
        → Run (record {
          primary = init c max on_full;
          fallback = init c max' on_full';
          degraded_starts = [];
        })
    logged :
        {l : Log c} (call : Call c)
        → Run l
        → IsFresh l.primary call.event_id call.marker_id
        → IsFresh l.fallback call.retry_event_id call.retry_marker_id
        → Run (log c config call l).1

  Run-IsSound : {l : Log c} → Run l → IsSound l
  Run-IsSound (start max max' on_full on_full') = record {
    primary = init-Good max on_full;
    fallback = init-Good max' on_full';
  }
  Run-IsSound (logged {l} call r here there) = log-IsSound call l here there (Run-IsSound r)

  IsSound-store :
      {l : Log c} (s : Store c) → IsSound l → (s ≡ l.primary) ⊎ (s ≡ l.fallback) → Good s
  IsSound-store s h (inl e) = subst Good (sym e) h.primary
  IsSound-store s h (inr e) = subst Good (sym e) h.fallback

-- After any sequence of `log` calls with fresh event ids, on in-memory stores of any cap and mode,
-- where any attempt to write an event or a recovery marker to the primary may also raise and write
-- nothing: each store, primary or fallback, that passes `verify_not_truncated` returns for every
-- session events that `verify_chain_records` accepts.
pub log_chains_verify :
    (c : Crypto) (config : Config c) (l : Log c) (s : Store c) (session_id : ℕ)
    → Run c config l
    → (s ≡ l.primary) ⊎ (s ≡ l.fallback)
    → verify_not_truncated c s ≡ ok true
    → verify_chain_records c config.secret (get_session_events c s session_id) ≡ ok true
unfolding get_session_events verify_not_truncated
log_chains_verify c config l s session_id run which whole =
    (verify_chain_records_iff c config.secret _).1 (
      Filed→IsChain c config.secret s.events none _
        (IsSound-store c config s (Run-IsSound c config run) which (ground arith) session_id))

-- `log` raises exactly for a correction that was not validated, and then writes nothing.
pub log_raises_iff :
    (c : Crypto) (config : Config c) (call : Call c) (l : Log c)
    → (log c config call l ≡ (err runtime_error, l))
      ↔ ((call.event.kind ≡ "audit.correction") × (call.sanctioned ≡ false))
unfolding log
log_raises_iff c config call l = ground (arith, eq_iff call.event.kind "audit.correction")
