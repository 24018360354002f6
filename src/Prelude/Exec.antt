-- ===== src/Prelude/Exec.antt =====
-- Code that changes a state and may throw. What was written before a throw stays written, so the
-- state comes back beside the error too.
use mathlib.Core.Path.{◌≡◌, refl}
use mathlib.Core.Logic.{◌⊎◌, inl, inr}
use arkain.Prelude.Results.{Result, ok, throw}

abbrev pub Exec {ℓ} : Type ℓ → Type ℓ → Type ℓ → Type ℓ
Exec E S A = S → Result E A × S

module _ {ℓ} {E S A : Type ℓ} where
  abbrev pub pure : A → Exec E S A
  pure a s = (ok a, s)

  abbrev pub raise : E → Exec E S A
  raise e s = (throw e, s)

  abbrev pub gets : (S → A) → Exec E S A
  gets f s = (ok (f s), s)

  -- a value, or the error for its absence
  abbrev pub from_result : Result E A → Exec E S A
  from_result r s = (r, s)

module _ {ℓ} {E S A B : Type ℓ} where
  abbrev pub continue : Result E A → (A → Exec E S B) → Exec E S B
  continue (ok a) f s = f a s
  continue (throw e) f s = (throw e, s)

  infixl 5 ◌>>=◌ ◌>>◌
  abbrev pub ◌>>=◌ : Exec E S A → (A → Exec E S B) → Exec E S B
  ◌>>=◌ m f s = continue (m s).0 f (m s).1

  abbrev pub ◌>>◌ : Exec E S A → Exec E S B → Exec E S B
  m >> n = m >>= λ _. n

pub Exec-cases {ℓ} :
    {E S A : Type ℓ} (p : Result E A × S)
    → ((a : A) × (s : S) × (p ≡ (ok a, s))) ⊎ ((e : E) × (s : S) × (p ≡ (throw e, s)))
Exec-cases (ok a, s) = inl (a, s, refl)
Exec-cases (throw e, s) = inr (e, s, refl)
