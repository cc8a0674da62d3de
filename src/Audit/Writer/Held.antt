-- ===== src/Audit/Writer/Held.antt =====
-- Where a writer holds its events, and that `enqueue` keeps them.
use agentic_governance.Prelude.{
  ℕ, zero, suc, ◌≡◌, ◌⊎◌, refl, List, [], ◌∷◌, ◌++◌, length, take, drop, leb, Bool-cases, inl, inr,
  arith,
}
use agentic_governance.Errors.{None, Result, ok, err, store_unavailable}
use agentic_governance.Audit.Writer.{Flight, Stores, Writer, spill, push_event, enqueue}

module _ {E : Type 0} where
  abbrev pub Has : E → List E → Type 0
  Has e [] = ⊥
  Has e (x ∷ xs) = (x ≡ e) ⊎ Has e xs

  abbrev pub InFlight : E → List (Flight E) → Type 0
  InFlight e [] = ⊥
  InFlight e (f ∷ fs) = Has e f.batch ⊎ InFlight e fs

  pub Has-left : (e : E) (xs ys : List E) → Has e xs → Has e (xs ++ ys)
  Has-left e [] ys h = elim h [ ]
  Has-left e (x ∷ xs) ys (inl h) = inl h
  Has-left e (x ∷ xs) ys (inr h) = inr (Has-left e xs ys h)

  pub Has-right : (e : E) (xs ys : List E) → Has e ys → Has e (xs ++ ys)
  Has-right e [] ys h = h
  Has-right e (x ∷ xs) ys h = inr (Has-right e xs ys h)

  -- batch[:n] and batch[n:]
  pub Has-take : (e : E) (n : ℕ) (xs : List E) → Has e xs → Has e (take n xs) ⊎ Has e (drop n xs)
  Has-take e zero xs h = inr h
  Has-take e (suc n) [] h = elim h [ ]
  Has-take e (suc n) (x ∷ xs) (inl h) = inl (inl h)
  Has-take e (suc n) (x ∷ xs) (inr h) = elim (Has-take e n xs h) [
    | inl k ↦ inl (inr k)
    | inr k ↦ inr k
  ]

  pub InFlight-left : (e : E) (fs gs : List (Flight E)) → InFlight e fs → InFlight e (fs ++ gs)
  InFlight-left e [] gs h = elim h [ ]
  InFlight-left e (f ∷ fs) gs (inl h) = inl h
  InFlight-left e (f ∷ fs) gs (inr h) = inr (InFlight-left e fs gs h)

  pub InFlight-right : (e : E) (fs gs : List (Flight E)) → InFlight e gs → InFlight e (fs ++ gs)
  InFlight-right e [] gs h = h
  InFlight-right e (f ∷ fs) gs h = inr (InFlight-right e fs gs h)

  -- In the flush that goes on, or in another one.
  pub InFlight-split :
      (e : E) (before : List (Flight E)) (f : Flight E) (after : List (Flight E))
      → InFlight e (before ++ f ∷ after)
      → Has e f.batch ⊎ InFlight e (before ++ after)
  InFlight-split e [] f after h = h
  InFlight-split e (g ∷ before) f after (inl h) = inr (inl h)
  InFlight-split e (g ∷ before) f after (inr h) = elim (InFlight-split e before f after h) [
    | inl k ↦ inl k
    | inr k ↦ inr (inr k)
  ]

  pub InFlight-join :
      (e : E) (before : List (Flight E)) (f : Flight E) (after : List (Flight E))
      → Has e f.batch ⊎ InFlight e (before ++ after)
      → InFlight e (before ++ f ∷ after)
  InFlight-join e [] f after h = h
  InFlight-join e (g ∷ before) f after (inl h) = inr (InFlight-join e before f after (inl h))
  InFlight-join e (g ∷ before) f after (inr (inl h)) = inl h
  InFlight-join e (g ∷ before) f after (inr (inr h)) = inr (InFlight-join e before f after (inr h))

module _ (E P F : Type 0) (x : Stores E P F) (stored_p : E → P → Type 0)
    (stored_f : E → F → Type 0) where
  -- A write that returns has stored its events, and no write loses what is stored.
  pub record IsKeeping : Type 0 where
    pub primary_stores :
        (es : List E) (p : P) (e : E)
        → (x.write_primary es p).0 ≡ ok tt
        → Has e es
        → stored_p e (x.write_primary es p).1
    pub primary_keeps :
        (es : List E) (p : P) (e : E) → stored_p e p → stored_p e (x.write_primary es p).1
    pub fallback_stores :
        (es : List E) (f : F) (e : E)
        → (x.write_fallback es f).0 ≡ ok tt
        → Has e es
        → stored_f e (x.write_fallback es f).1
    pub fallback_keeps :
        (es : List E) (f : F) (e : E) → stored_f e f → stored_f e (x.write_fallback es f).1

  -- In the buffer, in a flush, or in a store.
  abbrev pub IsHeld : E → Writer E P F → Type 0
  IsHeld e w =
      Has e w.buffer ⊎ (InFlight e w.flights ⊎ (stored_p e w.primary ⊎ stored_f e w.fallback))

  module _ (keeping : IsKeeping) where
    spill-IsHeld :
        (event e : E) (w : Writer E P F) → IsHeld e w → IsHeld e (spill E P F x event w).1
    spill-IsHeld event e w (inl h) = inl h
    spill-IsHeld event e w (inr (inl h)) = inr (inl h)
    spill-IsHeld event e w (inr (inr (inl h))) = inr (inr (inl h))
    spill-IsHeld event e w (inr (inr (inr h))) =
        inr (inr (inr (keeping.fallback_keeps (event ∷ []) w.fallback e h)))

    push_event-IsHeld :
        (event e : E) (w : Writer E P F) → IsHeld e w → IsHeld e (push_event E P F x event w)
    push_event-IsHeld event e w (inl h) = inl (Has-left e w.buffer (event ∷ []) h)
    push_event-IsHeld event e w (inr h) = inr h

    pub enqueue-IsHeld :
        (event e : E) (w : Writer E P F) → IsHeld e w → IsHeld e (enqueue E P F x event w).1
    unfolding enqueue
    enqueue-IsHeld event e w h = elim (Bool-cases w.is_closed) [
      | inl c ↦ rw (c, enqueue) h
      | inr c ↦ elim (Bool-cases (leb x.buffer_max (length w.buffer))) [
        | inl d ↦ rw (c, d, enqueue) (spill-IsHeld event e w h)
        | inr d ↦ rw (c, d, enqueue) (push_event-IsHeld event e w h)
      ]
    ]

    -- What is accepted is held.
    pub accepted-IsHeld :
        (event : E) (w : Writer E P F)
        → (enqueue E P F x event w).0 ≡ ok tt
        → IsHeld event (enqueue E P F x event w).1
    unfolding enqueue
    accepted-IsHeld event w = elim (Bool-cases w.is_closed) [
      | inl c ↦ rw (c, enqueue) (λ h. elim (refused_too h) [ ])
      | inr c ↦ elim (Bool-cases (leb x.buffer_max (length w.buffer))) [
        | inl d ↦
            rw (c, d, enqueue)
              (λ h.
                inr
                  (inr (inr (keeping.fallback_stores (event ∷ []) w.fallback event h (inl refl)))))
        | inr d ↦ rw (c, d, enqueue) (λ h. inl (Has-right event w.buffer (event ∷ []) (inl refl)))
      ]
    ]
      where
        refused_too : ◌≡◌ {0} {A = Result None} (err store_unavailable) (ok tt) → ⊥
        refused_too h = ground (arith, h)
