-- ===== src/Prelude/Sort.antt =====
-- `xs.sort(compare)`, which is stable, as insertion: `may_precede a b` says that the comparison of a
-- with b is not positive.
use Prim.Native.Nat.{ℕ, ◌+◌}
use mathlib.Core.Path.{◌≡◌, refl}
use mathlib.Core.Bool.{Bool}
use mathlib.Core.Logic.{inl, inr}
use mathlib.Core.List.{List, [], ◌∷◌}
use native.Mathlib.Omega.{arith}
use arkain.Prelude.Tests.{if◌then◌else◌, Bool-cases}
use arkain.Prelude.Lists.{sum_by}

module _ {ℓ} {A : Type ℓ} (may_precede : A → A → Bool) where
  unfoldable pub put : A → List A → List A
  put a [] = a ∷ []
  put a (b ∷ rest) =
      let further = put a rest in if may_precede a b then a ∷ b ∷ rest else b ∷ further

  unfoldable pub sort : List A → List A
  unfolding put
  sort [] = []
  sort (a ∷ rest) = put a (sort rest)

  sum_by-put : (g : A → ℕ) (a : A) (xs : List A) → sum_by g (put a xs) ≡ g a + sum_by g xs
  unfolding put
  sum_by-put g a [] = refl
  sum_by-put g a (b ∷ rest) = elim (Bool-cases (may_precede a b)) [
    | inl e ↦ rw e refl
    | inr e ↦ rw e (omega (arith, sum_by-put g a rest))
  ]

  pub sum_by-sort : (g : A → ℕ) (xs : List A) → sum_by g (sort xs) ≡ sum_by g xs
  unfolding sort
  sum_by-sort g [] = refl
  sum_by-sort g (a ∷ rest) = omega (arith, sum_by-put g a (sort rest), sum_by-sort g rest)
