-- ===== src/Adapters/Http/Decimal.antt =====
-- The rendering of numbers in the messages.
use arkain.Prelude.{◌≡◌, refl, ℕ, zero, suc, ◌/◌, ◌<◌, String, arith, ltb, Bool-cases, inl, inr}
use arkain.Adapters.Http.{decimal_rounds}

-- More rounds than the number give the same text.
decimal_rounds-enough :
    (left more n : ℕ) (rest : String)
    → n < left
    → n < more
    → decimal_rounds left n rest ≡ decimal_rounds more n rest
unfolding decimal_rounds
decimal_rounds-enough zero more n rest low high = absurd (omega arith)
decimal_rounds-enough (suc left) zero n rest low high = absurd (omega arith)
decimal_rounds-enough (suc left) (suc more) n rest low high = elim (Bool-cases (ltb n 10)) [
  | inl e ↦ rw (e, decimal_rounds) refl
  | inr e ↦
      rw (e, decimal_rounds)
        (decimal_rounds-enough left more (n / 10) _ (ground arith) (ground arith))
]
