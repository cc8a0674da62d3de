-- ===== src/Routing/Deferred.antt =====
-- Policies that are registered before an event loop runs, and their flush at the start.
use agentic_governance.Prelude.{
  ℕ, ◌+◌, ◌≡◌, refl, sym, ap, ◌∙◌, String, false, Option, some, List, [], ◌∷◌, ◌++◌, string_eq,
  ◌==◌, if◌then◌else◌, append_assoc, append-nil,
}
use agentic_governance.Prelude.Dict.{Dict, get, put, get-put}
use agentic_governance.Errors.{ok}
use agentic_governance.Audit.Crypto.{Crypto}
use agentic_governance.Audit.Log.{Log}
use agentic_governance.Audit.Emit.{emit}
use agentic_governance.Presence.{Json}
use agentic_governance.Cost.Numbers.{Floats}
use agentic_governance.Routing.{
  Routing, Outside, register, policy_changed, log_or_warn, flush, flush_pending_upserts,
}
use agentic_governance.Routing.Models.{RoutingPolicy}

module _ (c : Crypto) (j : Json) (fl : Floats) (S : Type 0) (x : Outside c j fl S) where
  -- Registrations in their order, none of them under a running loop.
  abbrev pub register_all : List (RoutingPolicy fl) → Routing c j fl S → Routing c j fl S
  register_all [] s = s
  register_all (p ∷ ps) s = register_all ps (register c j fl S x false p s).1

  -- The last policy for the agent, or else the old one.
  abbrev pub last_for :
      (agent_id : String)
      → List (RoutingPolicy fl)
      → Option (RoutingPolicy fl)
      → Option (RoutingPolicy fl)
  last_for agent_id [] old = old
  last_for agent_id (p ∷ ps) old =
      last_for agent_id ps (if p.agent_id == agent_id then some p else old)

  -- One routing.policy_changed event for each policy.
  abbrev pub announce_all : (n : ℕ) → List (RoutingPolicy fl) → Log c → Log c
  announce_all n [] l = l
  announce_all n (p ∷ ps) l =
      announce_all (n + 1) ps (emit c x.config (x.call_at n) (policy_changed c j fl S x p) l).1

  abbrev put_all :
      List (RoutingPolicy fl) → Dict String (RoutingPolicy fl) → Dict String (RoutingPolicy fl)
  put_all [] d = d
  put_all (p ∷ ps) d = put_all ps (put d p.agent_id p)

  register_all_lem :
      (ps : List (RoutingPolicy fl)) (s : Routing c j fl S)
      → register_all ps s ≡ record s {
        policies = put_all ps s.policies;
        pending_upsert_policies = s.pending_upsert_policies ++ ps;
      }
  unfolding register
  register_all_lem [] s =
      ap (λ ps. record s { pending_upsert_policies = ps })
        (sym (append-nil s.pending_upsert_policies))
  register_all_lem (p ∷ ps) s =
      register_all_lem ps (register c j fl S x false p s).1
      ∙ ap
          (λ qs. record s {
            policies = put_all ps (put s.policies p.agent_id p);
            pending_upsert_policies = qs;
          })
          (append_assoc s.pending_upsert_policies (p ∷ []) ps)

  get-put_all :
      (agent_id : String) (ps : List (RoutingPolicy fl)) (d : Dict String (RoutingPolicy fl))
      → get (put_all ps d) agent_id ≡ last_for agent_id ps (get d agent_id)
  get-put_all agent_id [] d = refl
  get-put_all agent_id (p ∷ ps) d =
      get-put_all agent_id ps (put d p.agent_id p)
      ∙ ap (last_for agent_id ps) (get-put d p.agent_id agent_id p)

  flush_lem :
      (n : ℕ) (ps : List (RoutingPolicy fl)) (s : Routing c j fl S)
      → flush c j fl S x n ps s ≡ record s { log = announce_all n ps s.log }
  unfolding flush log_or_warn
  flush_lem n [] s = refl
  flush_lem n (p ∷ ps) s =
      flush_lem (n + 1) ps (log_or_warn c j fl S x n (policy_changed c j fl S x p) s)

  -- After registrations before an event loop runs and one flush, no registration is pending, the
  -- policy of each agent is the last one registered for it, and the log has taken one
  -- routing.policy_changed event for each registration, in their order.
  pub flush_pending_upserts-register :
      (ps : List (RoutingPolicy fl)) (s : Routing c j fl S)
      → s.pending_upsert_policies ≡ []
      → let (answer, after) = flush_pending_upserts c j fl S x (register_all ps s) in
        (answer ≡ ok tt)
        × (after.pending_upsert_policies ≡ [])
        × ((agent_id : String)
            → get after.policies agent_id ≡ last_for agent_id ps (get s.policies agent_id))
        × (after.log ≡ announce_all 0 ps s.log)
  unfolding flush_pending_upserts
  flush_pending_upserts-register ps s none_pending = (
    refl,
    ap (λ r. r.pending_upsert_policies) flushed,
    λ agent_id. ap (λ r. get r.policies agent_id) flushed ∙ get-put_all agent_id ps s.policies,
    ap (λ r. r.log) flushed,
  )
    where
      empty : Routing c j fl S
      empty = record s { policies = put_all ps s.policies; pending_upsert_policies = [] }

      flushed :
          (flush_pending_upserts c j fl S x (register_all ps s)).1
          ≡ record empty { log = announce_all 0 ps s.log }
      flushed =
          ap (λ r. (flush_pending_upserts c j fl S x r).1) (register_all_lem ps s)
          ∙ flush_lem 0 (s.pending_upsert_policies ++ ps) empty
          ∙ ap (λ old. record empty { log = announce_all 0 (old ++ ps) s.log }) none_pending
