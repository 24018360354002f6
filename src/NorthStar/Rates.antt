-- ===== src/NorthStar/Rates.antt =====
-- src/domain/northStar.ts: cash conversion by month and the conversion of quotes. A rate is its
-- numerator and denominator. The key of a month is a parameter, as in the source.
use arkain.Prelude.{
  ℕ, ◌+◌, ◌≤◌, ◌<◌, ◌≡◌, refl, String, Option, none, some, List, [], ◌∷◌, Result, ok, throw,
  if◌then◌else◌, ltb, ◌==◌, sum_by, String-discrete, arith,
}
use arkain.Prelude.Dict.{lookup, alter, sum_by-alter}

pub record MonthlyAmountLine : Type 0 where
  pub amount_krw : ℕ
  pub date : ℕ

pub record CcrMonth : Type 0 where
  pub month_key : String
  pub revenue_krw : ℕ
  pub cash_collected_krw : ℕ
  pub ccr : Option (ℕ × ℕ)

abbrev or_zero : Option ℕ → ℕ
or_zero none = 0
or_zero (some n) = n

-- a share of a total, or no number at all where the total is 0
unfoldable pub rate : ℕ → ℕ → Option (ℕ × ℕ)
rate part whole = if whole == 0 then none else some (part, whole)

unfoldable pub amounts_by_month :
    (ℕ → String) → List MonthlyAmountLine → List (String × ℕ) → List (String × ℕ)
amounts_by_month month_key_fn [] m = m
amounts_by_month month_key_fn (line ∷ lines) m =
    amounts_by_month month_key_fn lines
      (alter String-discrete (month_key_fn line.date) (λ old. or_zero old + line.amount_krw) m)

-- the row of one month
unfoldable pub ccr_month : List (String × ℕ) → List (String × ℕ) → String → CcrMonth
ccr_month revenue_by_month cash_by_month month_key =
    let revenue_krw = or_zero (lookup String-discrete month_key revenue_by_month) in
    let cash_collected_krw = or_zero (lookup String-discrete month_key cash_by_month) in
    record {
      month_key = month_key;
      revenue_krw = revenue_krw;
      cash_collected_krw = cash_collected_krw;
      ccr = rate cash_collected_krw revenue_krw;
    }

pub record QuoteConversion : Type 0 where
  pub sent_count : ℕ
  pub accepted_count : ℕ
  pub conversion_rate : Option (ℕ × ℕ)

pub data NorthStarInvariantError : Type 0 where
  accepted_exceeds_sent : ℕ → ℕ → NorthStarInvariantError

unfoldable pub compute_quote_conversion : ℕ → ℕ → Result NorthStarInvariantError QuoteConversion
unfolding rate
compute_quote_conversion sent_count accepted_count =
    if ltb sent_count accepted_count
    then throw (accepted_exceeds_sent accepted_count sent_count)
    else ok (record {
      sent_count = sent_count;
      accepted_count = accepted_count;
      conversion_rate = rate accepted_count sent_count;
    })

abbrev pub total : List (String × ℕ) → ℕ
total m = sum_by (λ (e : String × ℕ). e.1) m

total-amounts_by_month :
    (month_key_fn : ℕ → String) (lines : List MonthlyAmountLine) (m : List (String × ℕ))
    → total (amounts_by_month month_key_fn lines m) ≡ total m + sum_by (λ l. l.amount_krw) lines
unfolding amounts_by_month
total-amounts_by_month month_key_fn [] m = omega arith
total-amounts_by_month month_key_fn (line ∷ lines) m = omega (
  arith,
  total-amounts_by_month month_key_fn lines
      (alter String-discrete (month_key_fn line.date) (λ old. or_zero old + line.amount_krw) m),
  sum_by-alter String-discrete (λ n. n) (month_key_fn line.date)
      (λ old. or_zero old + line.amount_krw) line.amount_krw m (omega arith) (λ v. refl),
)

-- Whatever the key of a month, grouping by month loses and doubles nothing: the months add up to the
-- lines.
pub amounts_by_month-total :
    (month_key_fn : ℕ → String) (lines : List MonthlyAmountLine)
    → total (amounts_by_month month_key_fn lines []) ≡ sum_by (λ l. l.amount_krw) lines
amounts_by_month-total month_key_fn lines =
    omega (arith, total-amounts_by_month month_key_fn lines [])

-- What a conversion of quotes is: a share of at most 1, or no number when nothing was sent.
abbrev pub Share : Option (ℕ × ℕ) → Type 0
Share none = Unit
Share (some (part, whole)) = (0 < whole) × (part ≤ whole)

abbrev pub IsConversion : ℕ → ℕ → Result NorthStarInvariantError QuoteConversion → Type 0
IsConversion sent accepted (ok c) =
    (accepted ≤ sent)
    × (c.sent_count ≡ sent)
    × (c.accepted_count ≡ accepted)
    × Share c.conversion_rate
IsConversion sent accepted (throw e) = (sent < accepted) × (e ≡ accepted_exceeds_sent accepted sent)

-- The conversion of quotes is a share of at most 1, or no number when nothing was sent, and counts
-- with more accepted than sent are refused instead of giving more than 1.
pub compute_quote_conversion-IsConversion :
    (sent accepted : ℕ) → IsConversion sent accepted (compute_quote_conversion sent accepted)
unfolding compute_quote_conversion
compute_quote_conversion-IsConversion sent accepted = ground arith
