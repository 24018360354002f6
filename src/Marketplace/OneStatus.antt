-- ===== src/Marketplace/OneStatus.antt =====
-- The status of an order with several lines.
use arkain.Prelude.{
  ◌≡◌, refl, sym, ◌⊎◌, inl, inr, String, List, [], ◌∷◌, ◌++◌, All, Bool-cases, holds-yes, holds-no,
  String-discrete,
}
use arkain.Marketplace.Grouping.{is_in, distinct_from, only, one_status}

two_stay :
    (s u : String) (more rest : List String) → only (distinct_from (s ∷ u ∷ more) rest) ≡ "MIXED"
unfolding distinct_from
two_stay s u more [] = refl
two_stay s u more (t ∷ rest) = elim (Bool-cases (is_in t (s ∷ u ∷ more))) [
  | inl e ↦ rw e (two_stay s u more rest)
  | inr e ↦ rw e (two_stay s u (more ++ t ∷ []) rest)
]

abbrev pub IsOneStatus : String → List String → String → Type 0
IsOneStatus s rest status =
    (All (λ t. t ≡ s) rest × (status ≡ s)) ⊎ ((¬ All (λ t. t ≡ s) rest) × (status ≡ "MIXED"))

one_seen :
    (s : String) (rest : List String) → IsOneStatus s rest (only (distinct_from (s ∷ []) rest))
unfolding distinct_from
one_seen s [] = inl (tt, refl)
one_seen s (t ∷ rest) = elim (String-discrete s t) [
  | yes p ↦ rw (holds-yes (String-discrete s t) p) (same p (one_seen s rest))
  | no n ↦ rw (holds-no (String-discrete s t) n) (inr (λ all. n (sym all.0), two_stay s t [] rest))
]
  where
    same :
        s ≡ t
        → IsOneStatus s rest (only (distinct_from (s ∷ []) rest))
        → IsOneStatus s (t ∷ rest) (only (distinct_from (s ∷ []) rest))
    same p (inl (all, e)) = inl ((sym p, all), e)
    same p (inr (differ, e)) = inr (λ all. differ all.1, e)

-- An order whose lines agree has their status, and one whose lines differ is MIXED.
pub one_status-IsOneStatus :
    (s : String) (rest : List String) → IsOneStatus s rest (one_status (s ∷ rest))
unfolding one_status distinct_from
one_status-IsOneStatus s rest = one_seen s rest
