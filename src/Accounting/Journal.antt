-- ===== src/Accounting/Journal.antt =====
-- src/domain/accounting.ts: the lines of a sales entry, and the check that an entry balances.
pub mod Balance
use arkain.Prelude.{
  ℕ, String, Bool, Option, none, some, List, [], ◌∷◌, Result, ok, throw, ◌>>=◌, ◌>>◌, keep, sum_by,
  if◌then◌else◌, ◌==◌,
}
use arkain.Prelude.Int.{ℤ, pos}
use arkain.Accounting.Vat.{AccountingInvariantError, unbalanced, split_supply_and_vat}

pub data Side : Type 0 where
  debit credit : Side

-- `LEDGER_CODE`
abbrev pub accounts_receivable : String
accounts_receivable = "108"

abbrev pub sales_revenue : String
sales_revenue = "404"

abbrev pub vat_payable : String
vat_payable = "255"

pub record Partner : Type 0 where
  pub id : String
  pub name : String

pub record SalesJournalLine : Type 0 where
  pub account_code : String
  pub side : Side
  pub amount_krw : ℕ
  pub partner : Option Partner

abbrev pub is_debit : Side → Bool
is_debit debit = Bool.true
is_debit credit = Bool.false

abbrev pub is_credit : Side → Bool
is_credit debit = Bool.false
is_credit credit = Bool.true

-- `lines.filter((l) => l.side === ...).reduce(...)`
unfoldable pub debits : List SalesJournalLine → ℕ
debits lines = sum_by (λ l. l.amount_krw) (keep (λ l. is_debit l.side) lines)

unfoldable pub credits : List SalesJournalLine → ℕ
credits lines = sum_by (λ l. l.amount_krw) (keep (λ l. is_credit l.side) lines)

unfoldable pub assert_balanced : List SalesJournalLine → Result AccountingInvariantError (Unit {0})
unfolding debits credits
assert_balanced lines =
    if debits lines == credits lines
    then ok tt
    else throw (unbalanced (debits lines) (credits lines))

abbrev pub sales_lines : ℕ → ℕ → ℕ → Partner → List SalesJournalLine
sales_lines total supply vat partner =
    record {
      account_code = accounts_receivable;
      side = debit;
      amount_krw = total;
      partner = some partner;
    }
    ∷ record { account_code = sales_revenue; side = credit; amount_krw = supply; partner = none }
    ∷ record { account_code = vat_payable; side = credit; amount_krw = vat; partner = none }
    ∷ []

abbrev pub magnitude : ℤ → ℕ
magnitude (pos n) = n
magnitude (ℤ.negsuc n) = 0

-- A total that is negative has been refused before the lines are made, so its magnitude is itself.
unfoldable pub build_sales_journal_lines :
    ℤ → Partner → Result AccountingInvariantError (List SalesJournalLine)
unfolding split_supply_and_vat assert_balanced
build_sales_journal_lines total partner = do
  split ← split_supply_and_vat total
  let lines = sales_lines (magnitude total) split.supply_amount_krw split.vat_amount_krw partner
  assert_balanced lines
  ok lines
