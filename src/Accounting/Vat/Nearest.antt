-- ===== src/Accounting/Vat/Nearest.antt =====
-- The split is the exact one: nothing is lost, and the supply is the nearest to ten elevenths.
use arkain.Prelude.{ℕ, ◌+◌, ◌*◌, ◌/◌, ◌≤◌, ◌≡◌, refl, ok, arith}
use arkain.Prelude.Int.{pos}
use arkain.Accounting.Vat.{Split, split_supply_and_vat}

-- What a split of `n` is to be.
pub record IsSplit (n : ℕ) (s : Split) : Type 0 where
  pub whole : s.supply_amount_krw + s.vat_amount_krw ≡ n
  -- the distance of 11 supply from 10 n is at most 5, less than a half of 11
  pub near_above : 11 * s.supply_amount_krw ≤ 10 * n + 5
  pub near_below : 10 * n ≤ 11 * s.supply_amount_krw + 5

-- An amount that is not negative is split without a throw, the two parts add up to it, and the
-- supply is the whole number nearest to the amount divided by 1.1.
pub split-IsSplit : (n : ℕ) → (s : Split) × (split_supply_and_vat (pos n) ≡ ok s) × IsSplit n s
unfolding split_supply_and_vat
split-IsSplit n = (_, refl, omega arith)

-- The split finds the supply again from a total that was made of it: for a supply and a tax of one
-- tenth of it, rounded, it gives back both.
pub split-total :
    (supply : ℕ)
    → split_supply_and_vat (pos (supply + (supply + 5) / 10))
      ≡ ok (record { supply_amount_krw = supply; vat_amount_krw = (supply + 5) / 10 })
unfolding split_supply_and_vat
split-total supply = ground arith
