-- ===== src/Presence/Halts.antt =====
-- Halts last, and are enforced once the cache is older than its limit.
use agentic_governance.Prelude.{
  ℕ, ◌+◌, ◌≤◌, ◌≡◌, refl, ◌∙◌, ap, sym, String, Option, none, some, List, [], ◌∷◌, arith, string_eq,
  Bool-cases, Option-cases, inl, inr, beq_refl, ◌==◌,
}
use agentic_governance.Prelude.Dict.{Dict, get, put, get-put, get-remove, get-empty}
use agentic_governance.Prelude.Unique.{IsUnique, put-IsUnique, remove-IsUnique}
use agentic_governance.Presence.{
  Json, Agent, beat, has_halt, note_halt, is_rejected, idle, Presence, HaltMeta, Source, memory,
  heartbeat, heartbeat_memory, mark_idle, close_agent, check_stale, mark_all_stale, halt_memory,
  derive_halted, maybe_refresh, is_halted, assert_not_halted, force_refresh, step, run, AgentCall,
  halt_cache_ttl,
}

module _ (j : Json) where
  -- The marker of an agent.
  abbrev pub marker : Option (Agent j) → Option HaltMeta
  marker none = none
  marker (some a) = elim a.halted_by [
    | none ↦ none
    | some by ↦ some (record { halted_by = by; halted_at = a.halted_at; reason = a.halt_reason })
  ]

  abbrev pub marker_of : Presence j → String → Option HaltMeta
  marker_of p i = marker (get p.agents i)

  get-mark_all_stale :
      (now timeout_seconds : ℕ) (d : Dict String (Agent j)) (i : String)
      → marker (get (mark_all_stale j now timeout_seconds d) i) ≡ marker (get d i)
  unfolding get mark_all_stale
  get-mark_all_stale now t [] i = refl
  get-mark_all_stale now t ((k, a) ∷ d) i = ground (arith, get-mark_all_stale now t d i)

  pub maybe_refresh-agents :
      (now locked : ℕ) (source : Source) (p : Presence j)
      → (maybe_refresh j now locked source p).agents ≡ p.agents
  unfolding maybe_refresh
  maybe_refresh-agents now locked source p = ground arith

  -- Writing an entry with the marker that was there changes no marker.
  put-marker :
      (d : Dict String (Agent j)) (k : String) (v : Agent j) (i : String)
      → marker (some v) ≡ marker (get d k)
      → marker (get (put d k v) i) ≡ marker (get d i)
  put-marker d k v i h = elim (Bool-cases (k == i)) [
    | inl e ↦ rw (get-put, e) (h ∙ ap (λ x. marker (get d x)) ((string_eq.beq_iff k i).0 e))
    | inr e ↦ rw (get-put, e) refl
  ]

  beat-marker :
      (now : ℕ) (metadata : Option j.Value) (operator_id : Option String) (a : Option (Agent j))
      → marker (some (beat j now metadata operator_id a)) ≡ marker a
  beat-marker now metadata operator_id none = refl
  beat-marker now metadata operator_id (some a) = refl

  heartbeat-marker :
      (now : ℕ) (k : String) (metadata : Option j.Value) (operator_id : Option String)
      (p : Presence j) (i : String)
      → marker_of (heartbeat j now k metadata operator_id p) i ≡ marker_of p i
  unfolding heartbeat heartbeat_memory
  heartbeat-marker now k metadata operator_id p i =
      elim (Bool-cases (is_rejected j k metadata operator_id)) [
        | inl e ↦ rw (e, heartbeat) refl
        | inr e ↦
            rw (e, heartbeat)
              (put-marker p.agents k _ i (beat-marker now metadata operator_id (get p.agents k)))
      ]

  mark_idle-marker :
      (k : String) (p : Presence j) (i : String) → marker_of (mark_idle j k p) i ≡ marker_of p i
  unfolding mark_idle
  mark_idle-marker k p i = elim (Option-cases (get p.agents k)) [
    | inl e ↦ ground arith
    | inr (a, e) ↦
        rw (e, mark_idle) (put-marker p.agents k (record a { status = idle }) i (ap marker (sym e)))
  ]

  close_agent-marker :
      (k : String) (p : Presence j) (i : String) (m : HaltMeta)
      → marker_of p i ≡ some m
      → marker_of (close_agent j k p) i ≡ some m
  unfolding close_agent
  close_agent-marker k p i m h = ground (arith, get-remove p.agents k i, string_eq.beq_iff k i)

  step-marker :
      (call : AgentCall j) (p : Presence j) (i : String) (m : HaltMeta)
      → marker_of p i ≡ some m
      → marker_of (step j call p) i ≡ some m
  unfolding step check_stale assert_not_halted is_halted force_refresh
  step-marker (AgentCall.heartbeat_call now k metadata o) p i m h =
      heartbeat-marker now k metadata o p i ∙ h
  step-marker (AgentCall.mark_idle_call k) p i m h = mark_idle-marker k p i ∙ h
  step-marker (AgentCall.close_call k) p i m h = close_agent-marker k p i m h
  step-marker (AgentCall.check_stale_call now t) p i m h = get-mark_all_stale now t p.agents i ∙ h
  step-marker (AgentCall.assert_call now locked s k) p i m h =
      ground (arith, maybe_refresh-agents now locked s p)
  step-marker (AgentCall.is_halted_call now locked s k) p i m h =
      ground (arith, maybe_refresh-agents now locked s p)
  step-marker (AgentCall.force_refresh_call now locked s) p i m h =
      ground (arith, maybe_refresh-agents now locked s (record p { halted_cache_at = 0 }))

  pub run-marker :
      (calls : List (AgentCall j)) (p : Presence j) (i : String) (m : HaltMeta)
      → marker_of p i ≡ some m
      → marker_of (run j calls p) i ≡ some m
  unfolding run
  run-marker [] p i m h = h
  run-marker (call ∷ calls) p i m h = run-marker calls _ i m (step-marker call p i m h)

  mark_all_stale-absent :
      (now t : ℕ) (d : Dict String (Agent j)) (i : String)
      → get d i ≡ none
      → get (mark_all_stale j now t d) i ≡ none
  unfolding get mark_all_stale
  mark_all_stale-absent now t [] i h = refl
  mark_all_stale-absent now t ((k, a) ∷ d) i h = ground (arith, mark_all_stale-absent now t d i)

  mark_all_stale-IsUnique :
      (now t : ℕ) (d : Dict String (Agent j)) → IsUnique d → IsUnique (mark_all_stale j now t d)
  unfolding mark_all_stale
  mark_all_stale-IsUnique now t [] h = tt
  mark_all_stale-IsUnique now t ((k, a) ∷ d) h =
      (mark_all_stale-absent now t d k h.0, mark_all_stale-IsUnique now t d h.1)

  heartbeat-IsUnique :
      (now : ℕ) (k : String) (metadata : Option j.Value) (o : Option String) (p : Presence j)
      → IsUnique p.agents
      → IsUnique (heartbeat j now k metadata o p).agents
  unfolding heartbeat heartbeat_memory
  heartbeat-IsUnique now k metadata o p h = elim (Bool-cases (is_rejected j k metadata o)) [
    | inl e ↦ rw (e, heartbeat) h
    | inr e ↦ rw (e, heartbeat) (put-IsUnique p.agents k _ h)
  ]

  mark_idle-IsUnique :
      (k : String) (p : Presence j) → IsUnique p.agents → IsUnique (mark_idle j k p).agents
  unfolding mark_idle
  mark_idle-IsUnique k p h = elim (Option-cases (get p.agents k)) [
    | inl e ↦ rw (e, mark_idle) h
    | inr (a, e) ↦ rw (e, mark_idle) (put-IsUnique p.agents k _ h)
  ]

  close_agent-IsUnique :
      (k : String) (p : Presence j) → IsUnique p.agents → IsUnique (close_agent j k p).agents
  unfolding close_agent
  close_agent-IsUnique k p h = elim (Bool-cases (has_halt j (get p.agents k))) [
    | inl e ↦ rw (e, close_agent) h
    | inr e ↦ rw (e, close_agent) (remove-IsUnique p.agents k h)
  ]

  step-IsUnique :
      (call : AgentCall j) (p : Presence j) → IsUnique p.agents → IsUnique (step j call p).agents
  unfolding step check_stale assert_not_halted is_halted force_refresh
  step-IsUnique (AgentCall.heartbeat_call now k metadata o) p h =
      heartbeat-IsUnique now k metadata o p h
  step-IsUnique (AgentCall.mark_idle_call k) p h = mark_idle-IsUnique k p h
  step-IsUnique (AgentCall.close_call k) p h = close_agent-IsUnique k p h
  step-IsUnique (AgentCall.check_stale_call now t) p h = mark_all_stale-IsUnique now t p.agents h
  step-IsUnique (AgentCall.assert_call now locked s k) p h =
      elim (Option-cases (get (maybe_refresh j now locked s p).halted_cache k)) [
        | inl e ↦ rw (e, step, maybe_refresh-agents) h
        | inr (a, e) ↦ rw (e, step, maybe_refresh-agents) h
      ]
  step-IsUnique (AgentCall.is_halted_call now locked s k) p h = rw maybe_refresh-agents h
  step-IsUnique (AgentCall.force_refresh_call now locked s) p h = rw maybe_refresh-agents h

  pub run-IsUnique :
      (calls : List (AgentCall j)) (p : Presence j)
      → IsUnique p.agents
      → IsUnique (run j calls p).agents
  unfolding run
  run-IsUnique [] p h = h
  run-IsUnique (call ∷ calls) p h = run-IsUnique calls _ (step-IsUnique call p h)

  -- The entry of a halted agent wins over what the loop had.
  abbrev or_else : Option HaltMeta → Option HaltMeta → Option HaltMeta
  or_else none y = y
  or_else (some m) y = some m

  get-derive_halted :
      (out : Dict String HaltMeta) (d : Dict String (Agent j)) (i : String)
      → IsUnique d
      → get (derive_halted j out d) i ≡ or_else (marker (get d i)) (get out i)
  unfolding get derive_halted
  get-derive_halted out [] i h = refl
  get-derive_halted out ((k, a) ∷ d) i h = elim (Option-cases a.halted_by) [
    | inl e ↦ ground (arith, get-derive_halted out d i h.1, string_eq.beq_iff k i)
    | inr (by, e) ↦ ground (
      arith,
      get-derive_halted (note_halt j out k a) d i h.1,
      string_eq.beq_iff k i,
      get-put out k i (record { halted_by = by; halted_at = a.halted_at; reason = a.halt_reason }),
    )
  ]

  pub halt_memory-marker :
      (now now_dt : ℕ) (i by : String) (reason : Option String) (p : Presence j)
      → marker_of (halt_memory j now now_dt i by reason p) i
        ≡ some (record { halted_by = by; halted_at = some now; reason = reason })
  unfolding halt_memory
  halt_memory-marker now now_dt i by reason p = rw (get-put, beq_refl i) refl

  -- A cache that is not recent is rebuilt from the agents.
  pub get-maybe_refresh :
      (now locked : ℕ) (p : Presence j) (i : String)
      → IsUnique p.agents
      → p.halted_cache_at + halt_cache_ttl ≤ now
      → p.halted_cache_at + halt_cache_ttl ≤ locked
      → get (maybe_refresh j now locked memory p).halted_cache i ≡ marker_of p i
  unfolding maybe_refresh
  get-maybe_refresh now locked p i h late later =
      ground (arith, get-derive_halted [] p.agents i h, get-empty {V = HaltMeta} i)
