-- ===== src/Exec.antt =====
-- Methods that change an object and may raise: what was written before the raise stays written, so
-- the state comes back beside the exception. `await` gives no other task a turn in this model.
use agentic_governance.Errors.{Exception, None, Result, ok, err}

abbrev pub Exec {ℓ} : Type ℓ → Type ℓ → Type ℓ
Exec S A = S → Result A × S

abbrev pub modify : {S : Type 0} → (S → S) → Exec S None
modify f s = (ok tt, f s)

module _ {ℓ} {S A B : Type ℓ} where
  -- What follows a statement that returned or raised.
  abbrev pub resume : (A → Exec S B) → Result A → Exec S B
  resume f (err x) s = (err x, s)
  resume f (ok a) s = f a s

  infixl 5 ◌>>=◌ ◌>>◌
  abbrev pub ◌>>=◌ : Exec S A → (A → Exec S B) → Exec S B
  (m >>= f) s = let (r, after) = m s in resume f r after

  abbrev pub ◌>>◌ : Exec S A → Exec S B → Exec S B
  m >> next = m >>= (λ a. next)

module _ {ℓ} {S A : Type ℓ} where
  abbrev pub gets : (S → Result A) → Exec S A
  gets f s = (f s, s)

  abbrev pub raise : Exception → Exec S A
  raise x = gets λ _. err x

  abbrev pub pure : A → Exec S A
  pure a = gets λ _. ok a
