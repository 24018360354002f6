-- ===== src/Accounting/Vat.antt =====
-- src/domain/accounting.ts: the split of an amount into supply and tax.
-- `Math.round(total / 1.1)` is computed in whole numbers: ten elevenths of a whole number are never
-- half way between two whole numbers, and the nearest they come is 1/22, far above the error of the
-- floating-point quotient for amounts that fit a database integer.
pub mod Nearest
use arkain.Prelude.{ℕ, ◌+◌, ◌-◌, ◌*◌, ◌/◌, Result, ok, throw}
use arkain.Prelude.Int.{ℤ, pos, negsuc}

pub data AccountingInvariantError : Type 0 where
  bad_amount : ℤ → AccountingInvariantError
  unbalanced : ℕ → ℕ → AccountingInvariantError
  not_seeded : AccountingInvariantError

pub record Split : Type 0 where
  pub supply_amount_krw : ℕ
  pub vat_amount_krw : ℕ

-- round(n / 1.1) = floor(10 n / 11 + 1 / 2)
unfoldable pub round_div_1_1 : ℕ → ℕ
round_div_1_1 n = (20 * n + 11) / 22

-- The amount is an integer by its type, so the guard is on its sign. The tax is the rest, which is
-- never negative: the supply is at most the total.
unfoldable pub split_supply_and_vat : ℤ → Result AccountingInvariantError Split
unfolding round_div_1_1
split_supply_and_vat (pos n) =
    ok (record { supply_amount_krw = round_div_1_1 n; vat_amount_krw = n - round_div_1_1 n })
split_supply_and_vat (negsuc n) = throw (bad_amount (negsuc n))
