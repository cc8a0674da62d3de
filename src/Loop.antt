-- ===== src/Loop.antt =====
-- loop/module.py and loop/models.py: `LoopModule` without a database. A moment is its count of
-- microseconds, and `str.lower` is a parameter.
pub mod Window
use agentic_governance.Prelude.{
  ℕ, ◌+◌, ◌*◌, String, Bool, false, none, some, List, [], ◌∷◌, ◌++◌, string_eq, nat_eq, pair_eq,
  ◌==◌, ltb, leb, nat_beq, last?, keep, count, if◌then◌else◌, ◌&&◌, ◌||◌, not,
}
use agentic_governance.Prelude.Dict.{Dict, get, get_or, put}
use agentic_governance.Errors.{None, ok, err, loop_detected}
use agentic_governance.Exec.{Exec}
use agentic_governance.Audit.Crypto.{Crypto}
use agentic_governance.Audit.Log.{Call, Config, Log, log}
use Prim.Native.String.{count as char_count}

pub data Action : Type 0 where
  log_only raise_error : Action

-- 1 ≤ window_seconds ≤ 3600 and 2 ≤ max_calls ≤ 1000
pub record LoopPolicy : Type 0 where
  pub agent_id : String
  pub window_seconds : ℕ
  pub max_calls : ℕ
  pub action : Action

-- (agent_id, session_id), and (tool_name, timestamp)
abbrev pub Key : Type 0
Key = String × ℕ

abbrev pub Entry : Type 0
Entry = String × ℕ

-- ts >= now - policy.window_seconds
abbrev pub in_window : (now window_seconds : ℕ) → Entry → Bool
in_window now window_seconds (t, ts) = leb now (ts + window_seconds * 1000000)

-- calls and calls[-1][1] < now - 86400
abbrev pub is_old : (now : ℕ) → List Entry → Bool
is_old now calls = elim (last? calls) [
  | none ↦ false
  | some (t, ts) ↦ ltb (ts + 86400 * 1000000) now
]

-- The two loops that delete the other sessions whose last call is a day old.
abbrev pub keep_session : Key → (now : ℕ) → Key × List Entry → Bool
keep_session key now (k, calls) = not (not (k == key) && is_old now calls)

unfoldable pub clean : Key → (now : ℕ) → Dict Key (List Entry) → Dict Key (List Entry)
clean key now [] = []
clean key now (entry ∷ d) =
    let rest = clean key now d in if keep_session key now entry then entry ∷ rest else rest

-- The calls of the session that are in the window, with the new one.
unfoldable pub prune : (now window_seconds : ℕ) → List Entry → List Entry
prune now window_seconds calls = keep (in_window now window_seconds) calls

abbrev pub is_call_of : String → Entry → Bool
is_call_of tool_name (t, ts) = t == tool_name

module _ (c : Crypto) where
  pub record Loop : Type 0 where
    pub policies : Dict String LoopPolicy
    pub calls : Dict Key (List Entry)
    pub log : Log c

  -- What a call reads outside: the audit settings, what `log` reads, and `str.lower`.
  pub record LoopContext : Type 0 where
    pub config : Config c
    pub call : Call c
    pub lower : String → String
    -- {"tool_name": ..., "count": ..., "window_seconds": ..., "max_calls": ..., "action": ...}
    pub detection_metadata : (tool_name : String) → (times : ℕ) → LoopPolicy → c.Metadata

  unfoldable pub register : LoopPolicy → Loop → Loop
  register policy s = record s { policies = put s.policies policy.agent_id policy }

  abbrev pub detection :
      LoopContext
      → (agent_id : String) → (session_id : ℕ) → (tool_name : String) → (times : ℕ) → LoopPolicy
      → Call c
  detection x agent_id session_id tool_name times policy = record x.call {
    event = record {
      session_id = some session_id;
      agent_id = agent_id;
      parent_event_id = none;
      kind = "loop.detected";
      model = none;
      input_hash = none;
      output_hash = none;
      metadata = x.detection_metadata tool_name times policy;
    };
  }

  unfoldable pub handle_detection :
      LoopContext
      → (agent_id : String) → (session_id : ℕ) → (tool_name : String) → (times : ℕ) → LoopPolicy
      → Exec Loop None
  handle_detection x agent_id session_id tool_name times policy s =
      let (r, after) =
        log c x.config (detection x agent_id session_id tool_name times policy) s.log in
      let s' = record s { log = after } in
      elim r [
        | err e ↦ (err e, s')
        | ok _ ↦ elim policy.action [
          | log_only ↦ (ok tt, s')
          | raise_error ↦ (err (loop_detected tool_name times), s')
        ]
      ]

  -- `calls` after pruning and appending.
  abbrev pub recent : Key → (tool_name : String) → LoopPolicy → (now : ℕ) → Loop → List Entry
  recent key tool_name policy now s =
      prune now policy.window_seconds (get_or s.calls key []) ++ (tool_name, now) ∷ []

  unfoldable pub record_call_memory :
      LoopContext
      → (agent_id : String) → (session_id : ℕ) → (tool_name : String) → LoopPolicy
      → (now : ℕ) → Exec Loop None
  unfolding prune
  record_call_memory x agent_id session_id tool_name policy now s =
      let key : Key = (agent_id, session_id) in
      let calls = recent key tool_name policy now s in
      let s' = record s { calls = clean key now (put s.calls key calls) } in
      let times = count (is_call_of tool_name) calls in
      if ltb policy.max_calls times
      then handle_detection x agent_id session_id tool_name times policy s'
      else (ok tt, s')

  unfoldable pub record_call :
      LoopContext
      → (agent_id : String) → (session_id : ℕ) → (tool_name : String) → (now : ℕ) → Exec Loop None
  unfolding record_call_memory
  record_call x agent_id session_id tool_name now s =
      if nat_beq (char_count tool_name) 0 || ltb 256 (char_count tool_name)
      then (ok tt, s)
      else elim (get s.policies agent_id) [
        | none ↦ (ok tt, s)
        | some policy ↦ record_call_memory x agent_id session_id (x.lower tool_name) policy now s
      ]

  -- The loop that fills `tool_counts`.
  unfoldable pub tool_counts : (now window_seconds : ℕ) → Dict String ℕ → List Entry → Dict String ℕ
  tool_counts now window_seconds counts [] = counts
  tool_counts now window_seconds counts ((t, ts) ∷ calls) =
      let next =
        if in_window now window_seconds (t, ts)
        then put counts t (get_or counts t 0 + 1)
        else counts in
      tool_counts now window_seconds next calls

  -- The loop over `tool_counts.items()`, which stops after the first detection.
  unfoldable pub check_counts :
      LoopContext
      → (agent_id : String) → (session_id : ℕ) → LoopPolicy
      → Dict String ℕ
      → Exec Loop None
  check_counts x agent_id session_id policy [] s = (ok tt, s)
  check_counts x agent_id session_id policy ((tool_name, times) ∷ d) s =
      let rest = check_counts x agent_id session_id policy d s in
      if ltb policy.max_calls times
      then handle_detection x agent_id session_id tool_name times policy s
      else rest

  unfoldable pub check :
      LoopContext → (agent_id : String) → (session_id : ℕ) → (now : ℕ) → Exec Loop None
  unfolding tool_counts check_counts
  check x agent_id session_id now s = elim (get s.policies agent_id) [
    | none ↦ (ok tt, s)
    | some policy ↦
        let calls = get_or s.calls (agent_id, session_id) [] in
        check_counts x agent_id session_id policy (tool_counts now policy.window_seconds [] calls) s
  ]
