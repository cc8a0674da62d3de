-- ===== src/Identity/Windows.antt =====
-- Which key `resolve` finds.
use agentic_governance.Prelude.{
  ℕ, ◌≤◌, ◌<◌, ◌≡◌, ◌↔◌, refl, sym, ap, ◌∙◌, subst, String, Bool, true, false, some, List, [], ◌∷◌,
  keep, leb, ltb, default, if◌then◌else◌, All, arith, Bool-cases, inl, inr,
}
use agentic_governance.Identity.{
  AgentKeyRecord, Registry, keys_of, newest, newest_of, resolve, no_keys,
}
use agentic_governance.Identity.Activation.{
  In, IsBefore, IsAscending, IsListed, IsOwn, Consistent, register_all, register_all-Consistent,
  no_keys-Consistent,
}

abbrev pub is_started : (chain_seq : ℕ) → AgentKeyRecord → Bool
is_started chain_seq r = leb r.activated_at_chain_seq chain_seq

-- A registered key of the agent that is activated by the number.
abbrev pub IsCandidate : Registry → (agent_id : String) → (chain_seq : ℕ) → AgentKeyRecord → Type 0
IsCandidate s agent_id chain_seq r =
    IsListed s r × (r.agent_id ≡ agent_id) × (r.activated_at_chain_seq ≤ chain_seq)

newest_step :
    (r s : AgentKeyRecord) (ss : List AgentKeyRecord) {b : Bool}
    → ltb r.activated_at_chain_seq s.activated_at_chain_seq ≡ b
    → newest r (s ∷ ss) ≡ newest (if b then s else r) ss
unfolding newest
newest_step r s ss e = ap (λ b. newest (if b then s else r) ss) e

newest-In : (r : AgentKeyRecord) (rs : List AgentKeyRecord) → In (newest r rs) (r ∷ rs)
unfolding newest
newest-In r [] = inl refl
newest-In r (s ∷ ss) = elim (Bool-cases (ltb r.activated_at_chain_seq s.activated_at_chain_seq)) [
  | inl e ↦ subst (λ m. In m (r ∷ s ∷ ss)) (sym (newest_step r s ss e)) (inr (newest-In s ss))
  | inr e ↦
      subst (λ m. In m (r ∷ s ∷ ss)) (sym (newest_step r s ss e))
        (elim (newest-In r ss) [ inl h ↦ inl h | inr h ↦ inr (inr h) ])
]

abbrev pub IsUpTo : AgentKeyRecord → AgentKeyRecord → Type 0
IsUpTo r t = t.activated_at_chain_seq ≤ r.activated_at_chain_seq

-- No key of the list is activated later than the newest.
newest-IsUpTo :
    (r : AgentKeyRecord) (rs : List AgentKeyRecord) (t : AgentKeyRecord)
    → In t (r ∷ rs)
    → IsUpTo (newest r rs) t
unfolding newest
newest-IsUpTo r [] t (inl e) = subst (IsUpTo r) e (omega arith)
newest-IsUpTo r [] t (inr h) = elim h [ ]
newest-IsUpTo r (s ∷ ss) t h =
    elim (Bool-cases (ltb r.activated_at_chain_seq s.activated_at_chain_seq)) [
      | inl e ↦
          subst (λ m. IsUpTo m t) (sym (newest_step r s ss e))
            (elim h [
              | inl f ↦
                  let s_up = newest-IsUpTo s ss s (inl refl) in
                  subst (IsUpTo (newest s ss)) f (omega (arith, less e, s_up))
              | inr g ↦ newest-IsUpTo s ss t g
            ])
      | inr e ↦
          subst (λ m. IsUpTo m t) (sym (newest_step r s ss e))
            (elim h [
              | inl f ↦ newest-IsUpTo r ss t (inl f)
              | inr (inl f) ↦
                  let r_up = newest-IsUpTo r ss r (inl refl) in
                  subst (IsUpTo (newest r ss)) f (omega (arith, more e, r_up))
              | inr (inr g) ↦ newest-IsUpTo r ss t (inr g)
            ])
    ]
  where
    less : {a b : ℕ} → ltb a b ≡ true → a ≤ b
    less h = ground (arith, h)

    more : {a b : ℕ} → ltb a b ≡ false → b ≤ a
    more h = ground (arith, h)

keep-In :
    (p : AgentKeyRecord → Bool) (rs : List AgentKeyRecord) (t : AgentKeyRecord)
    → In t (keep p rs) ↔ (In t rs × (p t ≡ true))
keep-In p [] t = (λ h. elim h [ ], λ h. h.0)
keep-In p (r ∷ rs) t = elim (Bool-cases (p r)) [
  | inl e ↦ rw e (
    λ h. elim h [
      | inl f ↦ (inl f, subst (λ u. p u ≡ true) f e)
      | inr g ↦ let (k, q) = (keep-In p rs t).0 g in (inr k, q)
    ],
    λ (h, q). elim h [ inl f ↦ inl f | inr g ↦ inr ((keep-In p rs t).1 (g, q)) ],
  )
  | inr e ↦ rw e (
    λ h. let (k, q) = (keep-In p rs t).0 h in (inr k, q),
    λ (h, q). elim h [
      | inl f ↦ elim (clash (sym e ∙ ap p f ∙ q)) [ ]
      | inr g ↦ (keep-In p rs t).1 (g, q)
    ],
  )
]
  where
    clash : false ≡ true → ⊥
    clash h = ground (arith, h)

at_In :
    (P : AgentKeyRecord → Type 0) (rs : List AgentKeyRecord) (t : AgentKeyRecord)
    → All P rs
    → In t rs
    → P t
at_In P [] t h k = elim k [ ]
at_In P (r ∷ rs) t (h, hs) (inl f) = subst P f h
at_In P (r ∷ rs) t (h, hs) (inr k) = at_In P rs t hs k

apart : {a b : ℕ} → a < b → a ≡ b → ⊥
apart h e = absurd (omega (arith, h, e))

-- In an ascending list the number of the activation names the key.
one_activation :
    (rs : List AgentKeyRecord) (t u : AgentKeyRecord)
    → IsAscending rs
    → In t rs
    → In u rs
    → t.activated_at_chain_seq ≡ u.activated_at_chain_seq
    → t ≡ u
one_activation [] t u h it iu e = elim it [ ]
one_activation (r ∷ rs) t u (h, hs) (inl f) (inl g) e = sym f ∙ g
one_activation (r ∷ rs) t u (h, hs) (inr f) (inr g) e = one_activation rs t u hs f g e
one_activation (r ∷ rs) t u (h, hs) (inl f) (inr g) e =
    elim (apart (at_In (IsBefore r) rs u h g) (ap (λ x. x.activated_at_chain_seq) f ∙ e)) [ ]
one_activation (r ∷ rs) t u (h, hs) (inr f) (inl g) e =
    elim (apart (at_In (IsBefore r) rs t h f) (ap (λ x. x.activated_at_chain_seq) g ∙ sym e)) [ ]

-- The newest of a list in which the number of the activation names the key.
newest_of_iff :
    (rs : List AgentKeyRecord) (r : AgentKeyRecord)
    → ((t u : AgentKeyRecord)
        → In t rs
        → In u rs
        → t.activated_at_chain_seq ≡ u.activated_at_chain_seq
        → t ≡ u)
    → (newest_of rs ≡ some r) ↔ (In r rs × ((t : AgentKeyRecord) → In t rs → IsUpTo r t))
newest_of_iff [] r one = (λ h. ground (arith, h), λ (h, _). elim h [ ])
newest_of_iff (s ∷ ss) r one = (
  λ e.
      let same : newest s ss ≡ r = ap (λ o. default o r) e in
      (
        subst (λ m. In m (s ∷ ss)) same (newest-In s ss),
        λ t h. subst (λ m. IsUpTo m t) same (newest-IsUpTo s ss t h),
      ),
  λ (h, up). ap some (
      one (newest s ss) r (newest-In s ss) h
        (omega (arith, up (newest s ss) (newest-In s ss), newest-IsUpTo s ss r h))),
)

module _ (s : Registry) (h : Consistent s) (agent_id : String) (chain_seq : ℕ) where
  IsCandidate-iff :
      (t : AgentKeyRecord)
      → In t (keep (is_started chain_seq) (keys_of s agent_id)) ↔ IsCandidate s agent_id chain_seq t
  IsCandidate-iff t = (
    λ k.
        let (i, e) = (keep-In (is_started chain_seq) (keys_of s agent_id) t).0 k in
        let (a, l) = at_In (IsOwn s agent_id) (keys_of s agent_id) t (h.own agent_id) i in
        (l, a, ground (arith, e)),
    λ (l, a, e).
        (keep-In (is_started chain_seq) (keys_of s agent_id) t).1
          (subst (λ b. In t (keys_of s b)) a (h.filed t l), ground (arith, e)),
  )

  Consistent-resolve :
      (r : AgentKeyRecord)
      → (resolve agent_id chain_seq s ≡ some r) ↔ (
          IsCandidate s agent_id chain_seq r
          × ((t : AgentKeyRecord) → IsCandidate s agent_id chain_seq t → IsUpTo r t))
  unfolding resolve
  Consistent-resolve r =
      let rs = keep (is_started chain_seq) (keys_of s agent_id) in
      let (there, back) = newest_of_iff rs r (λ t u it iu e.
        one_activation (keys_of s agent_id) t u (h.ascending agent_id)
          ((keep-In (is_started chain_seq) (keys_of s agent_id) t).0 it).0
          ((keep-In (is_started chain_seq) (keys_of s agent_id) u).0 iu).0 e) in
      (
        λ e.
            let (i, up) = there e in
            ((IsCandidate-iff r).0 i, λ t k. up t ((IsCandidate-iff t).1 k)),
        λ (i, up). back ((IsCandidate-iff r).1 i, λ t k. up t ((IsCandidate-iff t).0 k)),
      )

-- After any registrations, whatever they return, `resolve` finds a key exactly if it is the registered
-- key of the agent that is activated last among those activated by the sequence number.
pub resolve_iff :
    (rs : List AgentKeyRecord) (agent_id : String) (chain_seq : ℕ) (r : AgentKeyRecord)
    → let s = register_all rs no_keys in
      (resolve agent_id chain_seq s ≡ some r) ↔ (
        IsCandidate s agent_id chain_seq r
        × ((t : AgentKeyRecord) → IsCandidate s agent_id chain_seq t → IsUpTo r t))
resolve_iff rs agent_id chain_seq r =
    Consistent-resolve (register_all rs no_keys)
      (register_all-Consistent rs no_keys no_keys-Consistent) agent_id chain_seq r
