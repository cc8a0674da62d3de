-- ===== src/Loop/Window.antt =====
-- Pruning loses nothing: the session's list counts what its whole history counts.
use agentic_governance.Prelude.{
  ℕ, suc, ◌≤◌, ◌<◌, ◌≡◌, ◌↔◌, subst, refl, sym, ◌∙◌, ap, String, Bool, some, List, [], ◌∷◌, ◌++◌,
  arith, count, ltb, Bool-cases, inl, inr, string_eq, nat_eq, pair_eq, count-append, ◌&&◌, beq_refl,
}
use agentic_governance.Prelude.Dict.{Dict, get, get_or, put, get-put}
use agentic_governance.Errors.{err, loop_detected}
use agentic_governance.Audit.Crypto.{Crypto}
use agentic_governance.Audit.Log.{log}
use agentic_governance.Loop.{
  Loop, LoopContext, LoopPolicy, raise_error, Entry, Key, in_window, is_call_of, clean, prune,
  recent, handle_detection, record_call_memory,
}

-- A call of the tool that is in the window at `now`.
abbrev pub is_hit : (tool_name : String) → (now window_seconds : ℕ) → Entry → Bool
is_hit tool_name now window_seconds e = is_call_of tool_name e && in_window now window_seconds e

count-prune :
    (tool_name : String) (now later w : ℕ) (calls : List Entry)
    → now ≤ later
    → count (is_hit tool_name later w) (prune now w calls) ≡ count (is_hit tool_name later w) calls
unfolding prune
count-prune tool_name now later w [] h = refl
count-prune tool_name now later w ((t, ts) ∷ calls) h =
    ground (arith, count-prune tool_name now later w calls h)

count-pruned :
    (tool_name : String) (now w : ℕ) (calls : List Entry)
    → count (is_call_of tool_name) (prune now w calls) ≡ count (is_hit tool_name now w) calls
unfolding prune
count-pruned tool_name now w [] = refl
count-pruned tool_name now w ((t, ts) ∷ calls) = ground (arith, count-pruned tool_name now w calls)

get-clean :
    (key : Key) (now : ℕ) (d : Dict Key (List Entry)) → get (clean key now d) key ≡ get d key
unfolding get clean
get-clean key now [] = refl
get-clean key now ((k, calls) ∷ d) = ground (arith, get-clean key now d)

-- At every later moment the kept list counts for each tool what the whole history does.
abbrev pub Tracks : (w last : ℕ) → (kept history : List Entry) → Type 0
Tracks w last kept history =
    (tool_name : String) (later : ℕ)
    → last ≤ later
    → count (is_hit tool_name later w) kept ≡ count (is_hit tool_name later w) history

Tracks-append :
    (w last now : ℕ) (tool_name : String) (kept history : List Entry)
    → last ≤ now
    → Tracks w last kept history
    → Tracks w now (prune now w kept ++ (tool_name, now) ∷ []) (history ++ (tool_name, now) ∷ [])
Tracks-append w last now tool_name kept history h tracks other later g =
    let hit = is_hit other later w in
    omega (
      arith,
      count-append hit (prune now w kept) ((tool_name, now) ∷ []),
      count-append hit history ((tool_name, now) ∷ []),
      count-prune other now later w kept g,
      tracks other later (omega arith),
    )

-- How often the new call makes it, over the whole history.
abbrev pub times_in_window : (tool_name : String) → (now w : ℕ) → (history : List Entry) → ℕ
times_in_window tool_name now w history = suc (count (is_hit tool_name now w) history)

count-recent :
    (w last now : ℕ) (tool_name : String) (kept history : List Entry)
    → last ≤ now
    → Tracks w last kept history
    → count (is_call_of tool_name) (prune now w kept ++ (tool_name, now) ∷ [])
      ≡ times_in_window tool_name now w history
count-recent w last now tool_name kept history h tracks = ground (
  arith,
  count-append (is_call_of tool_name) (prune now w kept) ((tool_name, now) ∷ []),
  count-pruned tool_name now w kept,
  tracks tool_name now h,
  beq_refl tool_name,
)

get_or-recorded :
    (key : Key) (now : ℕ) (calls : List Entry) (d : Dict Key (List Entry))
    → get_or (clean key now (put d key calls)) key [] ≡ calls
get_or-recorded key now calls d =
    let kept : get (clean key now (put d key calls)) key ≡ some calls =
      get-clean key now (put d key calls) ∙ get-put d key key calls ∙ rw (beq_refl key) refl in
    rw (kept, get_or) refl

module _ (c : Crypto) (x : LoopContext c) where
  handle_detection-calls :
      (agent_id : String) (session_id : ℕ) (tool_name : String) (times : ℕ) (policy : LoopPolicy)
      (s : Loop c)
      → (handle_detection c x agent_id session_id tool_name times policy s).1.calls ≡ s.calls
  unfolding handle_detection log
  handle_detection-calls agent_id session_id tool_name times policy s = ground arith

  handle_detection_iff :
      (agent_id : String) (session_id : ℕ) (tool_name : String) (times : ℕ) (policy : LoopPolicy)
      (s : Loop c)
      → ((handle_detection c x agent_id session_id tool_name times policy s).0
          ≡ err (loop_detected tool_name times))
        ↔ (policy.action ≡ raise_error)
  unfolding handle_detection log
  handle_detection_iff agent_id session_id tool_name times policy s = ground arith

  recorded-calls :
      (agent_id : String) (session_id : ℕ) (tool_name : String) (policy : LoopPolicy) (now : ℕ)
      (s : Loop c)
      → (record_call_memory c x agent_id session_id tool_name policy now s).1.calls
        ≡ clean
            (agent_id, session_id)
            now
            (put s.calls
              (agent_id, session_id)
              (recent c (agent_id, session_id) tool_name policy now s))
  unfolding record_call_memory
  recorded-calls agent_id session_id tool_name policy now s =
      let n =
        count (is_call_of tool_name) (recent c (agent_id, session_id) tool_name policy now s) in
      elim (Bool-cases (ltb policy.max_calls n)) [
        | inl e ↦
            rw (e, record_call_memory)
              (handle_detection-calls agent_id session_id tool_name n policy _)
        | inr e ↦ rw (e, record_call_memory) refl
      ]

  recorded_iff :
      (agent_id : String) (session_id : ℕ) (tool_name : String) (policy : LoopPolicy) (now : ℕ)
      (s : Loop c)
      → let n =
          count (is_call_of tool_name) (recent c (agent_id, session_id) tool_name policy now s) in
        ((record_call_memory c x agent_id session_id tool_name policy now s).0
          ≡ err (loop_detected tool_name n))
        ↔ ((policy.max_calls < n) × (policy.action ≡ raise_error))
  unfolding record_call_memory
  recorded_iff agent_id session_id tool_name policy now s =
      let n =
        count (is_call_of tool_name) (recent c (agent_id, session_id) tool_name policy now s) in
      elim (Bool-cases (ltb policy.max_calls n)) [
        | inl e ↦
            rw (e, record_call_memory)
              (ground (
                arith,
                handle_detection_iff agent_id session_id tool_name n policy (record s {
                  calls =
                      clean (agent_id, session_id) now
                        (put s.calls (agent_id, session_id)
                          (recent c (agent_id, session_id) tool_name policy now s));
                }),
              ))
        | inr e ↦ rw (e, record_call_memory) (ground arith)
      ]

-- Loop detection counts the whole history, although it keeps only a window of it. When the kept calls
-- of a session count what its history does at every later moment, a call recorded at a later moment
-- raises `LoopDetected` exactly if the policy says so and the history, with the new call, has more
-- than `max_calls` calls of the tool in the window; and the kept calls count the longer history too.
pub record_call_memory_lem :
    (c : Crypto) (x : LoopContext c) (agent_id : String) (session_id : ℕ) (tool_name : String)
    (policy : LoopPolicy) (last now : ℕ) (s : Loop c) (history : List Entry)
    → last ≤ now
    → Tracks policy.window_seconds last (get_or s.calls (agent_id, session_id) []) history
    → (((record_call_memory c x agent_id session_id tool_name policy now s).0
          ≡ err (
              loop_detected tool_name
                (times_in_window tool_name now policy.window_seconds history)))
        ↔ ((policy.max_calls < times_in_window tool_name now policy.window_seconds history)
            × (policy.action ≡ raise_error)))
      × Tracks policy.window_seconds now
          (get_or
            (record_call_memory c x agent_id session_id tool_name policy now s).1.calls
            (agent_id, session_id)
            [])
          (history ++ (tool_name, now) ∷ [])
record_call_memory_lem c x agent_id session_id tool_name policy last now s history h tracks =
    let key : Key = (agent_id, session_id) in
    let kept = get_or s.calls key [] in
    let w = policy.window_seconds in
    let same : count (is_call_of tool_name) (recent c key tool_name policy now s)
        ≡ times_in_window tool_name now w history =
      count-recent w last now tool_name kept history h tracks in
    let filed : get_or (record_call_memory c x agent_id session_id tool_name policy now s).1.calls
          key []
        ≡ prune now w kept ++ (tool_name, now) ∷ [] =
      ap (λ d. get_or d key []) (recorded-calls c x agent_id session_id tool_name policy now s)
      ∙ get_or-recorded key now (recent c key tool_name policy now s) s.calls in
    (
      subst
          (λ n.
            ((record_call_memory c x agent_id session_id tool_name policy now s).0
              ≡ err (loop_detected tool_name n))
            ↔ ((policy.max_calls < n) × (policy.action ≡ raise_error)))
          same (recorded_iff c x agent_id session_id tool_name policy now s),
      subst (λ calls. Tracks w now calls (history ++ (tool_name, now) ∷ [])) (sym filed)
          (Tracks-append w last now tool_name kept history h tracks),
    )
