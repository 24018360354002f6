-- ===== src/Accounting/Journal/Balance.antt =====
-- The lines of a sales entry always balance.
use arkain.Prelude.{ℕ, ◌+◌, ◌≡◌, refl, ◌↔◌, List, [], ◌∷◌, some, none, ok, throw, arith}
use arkain.Prelude.Int.{pos, negsuc}
use arkain.Accounting.Vat.{Split, bad_amount, split_supply_and_vat}
use arkain.Accounting.Vat.Nearest.{IsSplit, split-IsSplit}
use arkain.Accounting.Journal.{
  debit, credit, SalesJournalLine, Partner, debits, credits, assert_balanced, sales_lines,
  build_sales_journal_lines,
}

-- The check passes exactly the lists of lines whose debits are their credits.
pub assert_balanced_iff :
    (lines : List SalesJournalLine)
    → (assert_balanced lines ≡ ok tt) ↔ (debits lines ≡ credits lines)
unfolding assert_balanced
assert_balanced_iff lines = (λ h. ground arith, λ h. ground arith)

made :
    (total : ℕ) (partner : Partner) (s : Split)
    → split_supply_and_vat (pos total) ≡ ok s
    → s.supply_amount_krw + s.vat_amount_krw ≡ total
    → build_sales_journal_lines (pos total) partner
      ≡ ok (sales_lines total s.supply_amount_krw s.vat_amount_krw partner)
unfolding build_sales_journal_lines
made total partner s e whole = ground (arith, e, whole)

pub build-negative :
    (n : ℕ) (partner : Partner)
    → build_sales_journal_lines (negsuc n) partner ≡ throw (bad_amount (negsuc n))
unfolding build_sales_journal_lines
build-negative n partner = refl

-- One debit of the whole on receivables (108), with the partner, and a credit of each part, on sales
-- (404) and on the tax to pay (255).
abbrev pub expected_lines : ℕ → Split → Partner → List SalesJournalLine
expected_lines total split partner =
    record { account_code = "108"; side = debit; amount_krw = total; partner = some partner }
    ∷ record {
      account_code = "404";
      side = credit;
      amount_krw = split.supply_amount_krw;
      partner = none;
    }
    ∷ record {
      account_code = "255";
      side = credit;
      amount_krw = split.vat_amount_krw;
      partner = none;
    }
    ∷ []

-- The lines of a sale of `total`.
pub record IsSalesLines (total : ℕ) (partner : Partner) : Type 0 where
  pub split : Split
  pub is_split : IsSplit total split
  pub built :
      build_sales_journal_lines (pos total) partner ≡ ok (expected_lines total split partner)
  pub debited : debits (expected_lines total split partner) ≡ total
  pub credited : credits (expected_lines total split partner) ≡ total

-- For an amount that is not negative the lines are made, and the balance check inside does not
-- throw: one debit of the whole amount on account 108, with the partner, and two credits, the supply on
-- account 404 and the tax on account 255, with debits and credits both adding up to the amount.
pub build-IsSalesLines : (total : ℕ) (partner : Partner) → IsSalesLines total partner
unfolding debits credits
build-IsSalesLines total partner =
    let (s, e, h) = split-IsSplit total in
    record {
      split = s;
      is_split = h;
      built = made total partner s e h.whole;
      debited = omega arith;
      credited = omega (arith, h.whole);
    }
