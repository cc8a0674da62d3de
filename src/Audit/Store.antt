-- ===== src/Audit/Store.antt =====
-- audit/store.py: `InMemoryAuditStore`. Its locks are not modelled: each call is one step.
pub mod Eviction
pub mod Filing
pub mod Reach
pub mod Bounds
use agentic_governance.Prelude.{
  ℕ, zero, ◌+◌, Bool, true, false, Option, none, some, List, [], ◌∷◌, ◌++◌, length, last?, leb, ltb,
  nat_eq, contains, erase_first, if◌then◌else◌,
}
use agentic_governance.Prelude.Dict.{Dict, get, get_or, put, remove, has}
use agentic_governance.Errors.{
  None, Result, ok, err, key_error, index_error, store_unavailable, chain_integrity,
  truncated_store,
}
use agentic_governance.Exec.{Exec, pure, raise, gets, modify, ◌>>=◌, ◌>>◌}
use agentic_governance.Audit.Crypto.{Crypto}
use agentic_governance.Audit.Chain.{Record}

pub data OnFull : Type 0 where
  refuse evict : OnFull

module _ (c : Crypto) where
  pub record Store : Type 0 where
    pub events : Dict ℕ (Record c)
    pub by_session : Dict ℕ (List ℕ)
    pub order : List ℕ
    pub max_events : ℕ
    pub on_full : OnFull
    pub evicted_total : ℕ

  abbrev pub init : ℕ → OnFull → Store
  init max_events on_full = record {
    events = [];
    by_session = [];
    order = [];
    max_events = max_events;
    on_full = on_full;
    evicted_total = 0;
  }

  -- self._by_session.get(session_id, [])
  abbrev pub session_ids : Store → ℕ → List ℕ
  session_ids s session_id = get_or s.by_session session_id []

  -- The body of the eviction loop, for the id that `popleft` returns.
  unfoldable pub drop_event : ℕ → Store → Store
  drop_event oldest s =
      let bucket = λ (r : Record c).
        let ids = session_ids s r.session_id in
        if contains oldest ids
        then put s.by_session r.session_id (erase_first oldest ids)
        else s.by_session in
      record s {
        events = remove s.events oldest;
        by_session = elim (get s.events oldest) [ none ↦ s.by_session | some r ↦ bucket r ];
        evicted_total = s.evicted_total + 1;
      }

  -- `while len(self._order) >= self._max`, over what is left of the deque.
  unfoldable pub evict_oldest : List ℕ → Exec Store None
  unfolding drop_event
  evict_oldest [] s =
      (if leb s.max_events 0 then err index_error else ok tt, record s { order = [] })
  evict_oldest (oldest ∷ rest) s =
      let again = evict_oldest rest (drop_event oldest s) in
      if leb s.max_events (length (oldest ∷ rest))
      then again
      else (ok tt, record s { order = oldest ∷ rest })

  unfoldable pub enforce_cap_before_append : Exec Store None
  enforce_cap_before_append s =
      if ltb (length s.order) s.max_events
      then (ok tt, s)
      else elim s.on_full [ refuse ↦ (err store_unavailable, s) | evict ↦ evict_oldest s.order s ]

  -- The three writes that file a record under a session.
  unfoldable pub append : ℕ → Record c → Store → Store
  append session_id r s = record s {
    events = put s.events r.event_id r;
    by_session = put s.by_session session_id (session_ids s session_id ++ r.event_id ∷ []);
    order = s.order ++ r.event_id ∷ [];
  }

  -- self._events[ids[-1]].hmac if ids else None
  unfoldable pub last_hash : Store → ℕ → Result (Option c.Digest)
  last_hash s session_id = elim (last? (session_ids s session_id)) [
    | none ↦ ok none
    | some i ↦ elim (get s.events i) [ none ↦ err key_error | some r ↦ ok (some r.hmac) ]
  ]

  unfoldable pub insert_with_chain_lock :
      ℕ → (Option c.Digest → Result (Record c)) → Exec Store (Record c)
  insert_with_chain_lock session_id builder = do
    prev_hash ← gets (λ s. last_hash s session_id)
    r ← gets (λ _. builder prev_hash)
    enforce_cap_before_append
    modify (append session_id r)
    pure r

  unfoldable pub write_batch : List (Record c) → Exec Store None
  write_batch [] s = (ok tt, s)
  write_batch (r ∷ rs) s =
      let write =
        (do enforce_cap_before_append; modify (append r.session_id r); write_batch rs) s in
      let skip = write_batch rs s in if has s.events r.event_id then skip else write

  unfoldable pub verify_not_truncated : Store → Result Bool
  verify_not_truncated s =
      if ltb 0 s.evicted_total
      then err (chain_integrity (truncated_store s.evicted_total))
      else ok true

  unfoldable pub get_event : Store → ℕ → Option (Record c)
  get_event s event_id = get s.events event_id

  -- [self._events[i] for i in ids if i in self._events]
  unfoldable pub present : Dict ℕ (Record c) → List ℕ → List (Record c)
  present events [] = []
  present events (i ∷ ids) = elim (get events i) [
    | none ↦ present events ids
    | some r ↦ r ∷ present events ids
  ]

  unfoldable pub get_session_events : Store → ℕ → List (Record c)
  unfolding present
  get_session_events s session_id = present s.events (session_ids s session_id)

  unfoldable pub get_last_hmac : Store → ℕ → Result (Option c.Digest)
  unfolding last_hash
  get_last_hmac = last_hash

  unfoldable pub count : Store → ℕ
  count s = length s.events
