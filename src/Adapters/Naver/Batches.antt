-- ===== src/Adapters/Naver/Batches.antt =====
-- The batches of a details query.

use arkain.Prelude.{
  ◌≡◌, refl, ap, ◌∙◌, ℕ, zero, suc, ◌-◌, ◌≤◌, min, List, [], ◌∷◌, ◌++◌, length, take, All, arith,
}
use arkain.Adapters.Naver.{chunk, chunk_rounds, drop}

module _ {A : Type 0} where
  take-drop : (n : ℕ) (xs : List A) → take n xs ++ drop n xs ≡ xs
  take-drop zero xs = refl
  take-drop (suc n) [] = refl
  take-drop (suc n) (x ∷ xs) = ap (λ ys. x ∷ ys) (take-drop n xs)

  length-take : (n : ℕ) (xs : List A) → length (take n xs) ≡ min n (length xs)
  length-take zero xs = omega arith
  length-take (suc n) [] = omega arith
  length-take (suc n) (x ∷ xs) = omega (arith, length-take n xs)

  length-drop : (n : ℕ) (xs : List A) → length (drop n xs) ≡ length xs - n
  length-drop zero xs = omega arith
  length-drop (suc n) [] = omega arith
  length-drop (suc n) (x ∷ xs) = omega (arith, length-drop n xs)

  abbrev pub concat : List (List A) → List A
  concat [] = []
  concat (batch ∷ batches) = batch ++ concat batches

  -- None is empty, and none is longer than the size.
  abbrev pub Fit : ℕ → List (List A) → Type 0
  Fit size batches = All (λ batch. (1 ≤ length batch) × (length batch ≤ size)) batches

  rounds_lem :
      (left size : ℕ) (items : List A)
      → 1 ≤ size
      → length items ≤ left
      → (concat (chunk_rounds left size items) ≡ items) × Fit size (chunk_rounds left size items)
  unfolding chunk_rounds
  rounds_lem zero size [] some_size enough = (refl, tt)
  rounds_lem zero size (a ∷ items) some_size enough = absurd (omega arith)
  rounds_lem (suc left) size [] some_size enough = (refl, tt)
  rounds_lem (suc left) size (a ∷ items) some_size enough =
      let (whole, fit) =
        rounds_lem left size (drop size (a ∷ items)) some_size
          (omega (arith, length-drop size (a ∷ items))) in
      (
        ap (λ ys. take size (a ∷ items) ++ ys) whole ∙ take-drop size (a ∷ items),
        (
          (
            omega (arith, length-take size (a ∷ items)),
            omega (arith, length-take size (a ∷ items)),
          ),
          fit,
        ),
      )

  -- The batches hold the items, each once and in their order, none is empty, and none is longer
  -- than the size, if the size is not 0.
  pub chunk-Fit :
      (items : List A) (size : ℕ)
      → 1 ≤ size
      → (concat (chunk items size) ≡ items) × Fit size (chunk items size)
  unfolding chunk
  chunk-Fit items size some_size = rounds_lem (length items) size items some_size (omega arith)
