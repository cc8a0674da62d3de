-- ===== src/Identity/Activation.antt =====
-- What registrations keep true of a registry.
use agentic_governance.Prelude.{
  ℕ, ◌<◌, ◌≡◌, ◌⊎◌, refl, sym, ap, ◌∙◌, subst, String, true, false, none, some, List, [], ◌∷◌, ◌++◌,
  string_eq, ◌==◌, leb, default, if◌then◌else◌, All, All-append, arith, Bool-cases, Option-cases,
  inl, inr,
}
use agentic_governance.Prelude.Dict.{get, get-put, get_or-put}
use agentic_governance.Identity.{
  AgentKeyRecord, Registry, no_keys, keys_of, add_key, overlaps, register, same_record,
}

abbrev pub In : AgentKeyRecord → List AgentKeyRecord → Type 0
In r [] = ⊥
In r (s ∷ ss) = (s ≡ r) ⊎ In r ss

-- Each key is activated after the ones before it.
abbrev pub IsBefore : AgentKeyRecord → AgentKeyRecord → Type 0
IsBefore r s = r.activated_at_chain_seq < s.activated_at_chain_seq

abbrev pub IsAscending : List AgentKeyRecord → Type 0
IsAscending [] = Unit
IsAscending (r ∷ rs) = All (IsBefore r) rs × IsAscending rs

-- The record of its fingerprint.
abbrev pub IsListed : Registry → AgentKeyRecord → Type 0
IsListed s r = get s.by_fingerprint r.key_fingerprint ≡ some r

abbrev pub IsOwn : Registry → (agent_id : String) → AgentKeyRecord → Type 0
IsOwn s agent_id r = (r.agent_id ≡ agent_id) × IsListed s r

-- The two dicts agree, and the keys of an agent stand in the order of their activation.
pub record Consistent (s : Registry) : Type 0 where
  pub own : (agent_id : String) → All (IsOwn s agent_id) (keys_of s agent_id)
  pub filed : (r : AgentKeyRecord) → IsListed s r → In r (keys_of s r.agent_id)
  pub ascending : (agent_id : String) → IsAscending (keys_of s agent_id)

-- Calls of `register`, in their order, whatever they return.
abbrev pub register_all : List AgentKeyRecord → Registry → Registry
register_all [] s = s
register_all (r ∷ rs) s = register_all rs (register r s).1

All-weaken :
    {P Q : AgentKeyRecord → Type 0} (rs : List AgentKeyRecord)
    → ((r : AgentKeyRecord) → P r → Q r)
    → All P rs
    → All Q rs
All-weaken [] f h = tt
All-weaken (r ∷ rs) f (h, hs) = (f r h, All-weaken rs f hs)

In-last : (rs : List AgentKeyRecord) (r : AgentKeyRecord) → In r (rs ++ r ∷ [])
In-last [] r = inl refl
In-last (s ∷ rs) r = inr (In-last rs r)

In-append : (rs ss : List AgentKeyRecord) (r : AgentKeyRecord) → In r rs → In r (rs ++ ss)
In-append [] ss r h = elim h [ ]
In-append (s ∷ rs) ss r (inl h) = inl h
In-append (s ∷ rs) ss r (inr h) = inr (In-append rs ss r h)

-- No prior key is activated at the number or later.
earlier :
    (r : AgentKeyRecord) (rs : List AgentKeyRecord)
    → overlaps r rs ≡ false
    → All (λ s. IsBefore s r) rs
earlier r [] h = tt
earlier r (s ∷ rs) h = elim (Bool-cases (leb r.activated_at_chain_seq s.activated_at_chain_seq)) [
  | inl e ↦ elim (clash (rw e at h)) [ ]
  | inr e ↦ (
    omega (arith, below r.activated_at_chain_seq s.activated_at_chain_seq e),
    earlier r rs (rw e at h),
  )
]
  where
    clash : true ≡ false → ⊥
    clash h = ground (arith, h)

    below : (a b : ℕ) → leb a b ≡ false → b < a
    below a b h = ground (arith, h)

append-IsAscending :
    (rs : List AgentKeyRecord) (r : AgentKeyRecord)
    → IsAscending rs
    → All (λ s. IsBefore s r) rs
    → IsAscending (rs ++ r ∷ [])
append-IsAscending [] r h g = (tt, tt)
append-IsAscending (s ∷ rs) r (h, hs) (g, gs) =
    (All-append (IsBefore s) rs (r ∷ []) h (g, tt), append-IsAscending rs r hs gs)

module _ (s : Registry) (r : AgentKeyRecord)
    (fresh : get s.by_fingerprint r.key_fingerprint ≡ none) where
  -- The keys of an agent after the addition.
  added :
      (agent_id : String)
      → keys_of (add_key r s) agent_id
        ≡ (if r.agent_id == agent_id then keys_of s r.agent_id ++ r ∷ [] else keys_of s agent_id)
  added agent_id = get_or-put s.by_agent r.agent_id agent_id (keys_of s r.agent_id ++ r ∷ []) []

  listed :
      (fp : String)
      → get (add_key r s).by_fingerprint fp
        ≡ (if r.key_fingerprint == fp then some r else get s.by_fingerprint fp)
  listed fp = get-put s.by_fingerprint r.key_fingerprint fp r

  still-IsListed : (t : AgentKeyRecord) → IsListed s t → IsListed (add_key r s) t
  still-IsListed t h = elim (Bool-cases (r.key_fingerprint == t.key_fingerprint)) [
    | inl e ↦
        elim (absent (
          sym (
            ap (get s.by_fingerprint) ((string_eq.beq_iff r.key_fingerprint t.key_fingerprint).0 e)
            ∙ h)
          ∙ fresh)) [ ]
    | inr e ↦ listed t.key_fingerprint ∙ rw e h
  ]
    where
      absent : some t ≡ none → ⊥
      absent h = ground (arith, h)

  now-IsListed : IsListed (add_key r s) r
  now-IsListed =
      listed r.key_fingerprint
      ∙ rw ((string_eq.beq_iff r.key_fingerprint r.key_fingerprint).1 refl) refl

  at_other :
      (agent_id : String)
      → (r.agent_id == agent_id) ≡ false
      → keys_of (add_key r s) agent_id ≡ keys_of s agent_id
  at_other agent_id e = added agent_id ∙ rw e refl

  at_own :
      (agent_id : String)
      → r.agent_id ≡ agent_id
      → keys_of (add_key r s) agent_id ≡ keys_of s r.agent_id ++ r ∷ []
  at_own agent_id e = added agent_id ∙ rw ((string_eq.beq_iff r.agent_id agent_id).1 e) refl

  agent_cases : (agent_id : String) → (r.agent_id ≡ agent_id) ⊎ ((r.agent_id == agent_id) ≡ false)
  agent_cases agent_id = elim (Bool-cases (r.agent_id == agent_id)) [
    | inl e ↦ inl ((string_eq.beq_iff r.agent_id agent_id).0 e)
    | inr e ↦ inr e
  ]

  added-IsOwn :
      Consistent s
      → (agent_id : String) → All (IsOwn (add_key r s) agent_id) (keys_of (add_key r s) agent_id)
  added-IsOwn h agent_id = elim (agent_cases agent_id) [
    | inl e ↦ subst (All (IsOwn (add_key r s) agent_id)) (sym (at_own agent_id e)) (
        All-append (IsOwn (add_key r s) agent_id) (keys_of s r.agent_id) (r ∷ [])
          (All-weaken (keys_of s r.agent_id) (λ t (f, g). (f ∙ e, still-IsListed t g))
            (h.own r.agent_id))
          ((e, now-IsListed), tt))
    | inr e ↦
        subst (All (IsOwn (add_key r s) agent_id)) (sym (at_other agent_id e))
          (All-weaken (keys_of s agent_id) (λ t (f, g). (f, still-IsListed t g)) (h.own agent_id))
  ]

  same_some : {t u : AgentKeyRecord} → some t ≡ some u → t ≡ u
  same_some {t} e = ap (λ o. default o t) e

  added-filed :
      Consistent s
      → (t : AgentKeyRecord) → IsListed (add_key r s) t
      → In t (keys_of (add_key r s) t.agent_id)
  added-filed h t g = elim (Bool-cases (r.key_fingerprint == t.key_fingerprint)) [
    | inl e ↦
        subst (λ u. In u (keys_of (add_key r s) u.agent_id))
          (same_some (sym (rw e at (listed t.key_fingerprint)) ∙ g))
          (subst (In r) (sym (at_own r.agent_id refl)) (In-last (keys_of s r.agent_id) r))
    | inr e ↦ kept (h.filed t (sym (rw e at (listed t.key_fingerprint)) ∙ g))
  ]
    where
      kept : In t (keys_of s t.agent_id) → In t (keys_of (add_key r s) t.agent_id)
      kept k = elim (agent_cases t.agent_id) [
        | inl e ↦ subst (In t) (sym (at_own t.agent_id e)) (
            In-append (keys_of s r.agent_id) (r ∷ []) t (subst (λ a. In t (keys_of s a)) (sym e) k))
        | inr e ↦ subst (In t) (sym (at_other t.agent_id e)) k
      ]

  added-IsAscending :
      Consistent s
      → overlaps r (keys_of s r.agent_id) ≡ false
      → (agent_id : String) → IsAscending (keys_of (add_key r s) agent_id)
  added-IsAscending h g agent_id = elim (agent_cases agent_id) [
    | inl e ↦ subst IsAscending (sym (at_own agent_id e)) (
        append-IsAscending (keys_of s r.agent_id) r (h.ascending r.agent_id)
          (earlier r (keys_of s r.agent_id) g))
    | inr e ↦ subst IsAscending (sym (at_other agent_id e)) (h.ascending agent_id)
  ]

  added-Consistent :
      Consistent s → overlaps r (keys_of s r.agent_id) ≡ false → Consistent (add_key r s)
  added-Consistent h g = record {
    own = added-IsOwn h;
    filed = added-filed h;
    ascending = added-IsAscending h g;
  }

register-Consistent :
    (r : AgentKeyRecord) (s : Registry) → Consistent s → Consistent (register r s).1
unfolding register
register-Consistent r s h = elim (Option-cases (get s.by_fingerprint r.key_fingerprint)) [
  | inr (existing, e) ↦ elim (Bool-cases (same_record existing r)) [
    | inl f ↦ rw (e, f, register) h
    | inr f ↦ rw (e, f, register) h
  ]
  | inl e ↦ elim (Bool-cases (overlaps r (keys_of s r.agent_id))) [
    | inl f ↦ rw (e, f, register) h
    | inr f ↦ rw (e, f, register) (added-Consistent s r e h f)
  ]
]

pub no_keys-Consistent : Consistent no_keys
unfolding get
no_keys-Consistent = record {
  own = λ agent_id. tt;
  filed = λ r h. ground (arith, h);
  ascending = λ agent_id. tt;
}

-- Whatever is registered, the registry stays consistent.
pub register_all-Consistent :
    (rs : List AgentKeyRecord) (s : Registry) → Consistent s → Consistent (register_all rs s)
register_all-Consistent [] s h = h
register_all-Consistent (r ∷ rs) s h =
    register_all-Consistent rs (register r s).1 (register-Consistent r s h)
