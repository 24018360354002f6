-- ===== src/NorthStar/Examples.antt =====
-- The theorems on the metrics at work.
use arkain.Prelude.{ℕ, ◌≡◌, String, none, some, List, [], ◌∷◌}
use arkain.Accounting.Journal.{debit, credit}
use arkain.NorthStar.Aging.{ArLedgerLine, compute_aging_fifo, default_aging_buckets_days}
use arkain.NorthStar.Aging.Totals.{
  receivables, receivables_of, owed, lines_of, compute_aging_fifo-totals,
}
use arkain.NorthStar.Rates.{MonthlyAmountLine}
use arkain.NorthStar.Health.{HealthScoreInputs}

abbrev lines : List ArLedgerLine
lines =
    record {
      side = debit;
      amount_krw = 500;
      partner_id = some "p";
      partner_name = some "P";
      entry_date = 0;
    }
    ∷ record {
      side = credit;
      amount_krw = 200;
      partner_id = some "p";
      partner_name = some "P";
      entry_date = 9;
    }
    ∷ record {
      side = credit;
      amount_krw = 900;
      partner_id = none;
      partner_name = none;
      entry_date = 9;
    }
    ∷ []

compute_aging_fifo-totals_example :
    ((compute_aging_fifo 8640000000 default_aging_buckets_days lines).total_open_krw
      ≡ receivables (compute_aging_fifo 8640000000 default_aging_buckets_days lines).by_partner)
    × (receivables_of "p"
          (compute_aging_fifo 8640000000 default_aging_buckets_days lines).by_partner
        ≡ owed (lines_of "p" lines))
compute_aging_fifo-totals_example =
    compute_aging_fifo-totals 8640000000 default_aging_buckets_days lines "p"

abbrev month : ℕ → String
month date = "2024-01"

abbrev sales : List MonthlyAmountLine
sales = record { amount_krw = 700; date = 1 } ∷ record { amount_krw = 50; date = 2 } ∷ []

abbrev scores : HealthScoreInputs
scores = record {
  cash_score = some 80;
  receivables_score = some 100;
  conversion_score = none;
  margin_score = none;
  speed_score = some 20;
}
