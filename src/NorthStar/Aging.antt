-- ===== src/NorthStar/Aging.antt =====
-- src/domain/northStar.ts: receivables by age. The label of a bucket stands for its text,
-- `lower-upper` or `last+`, which differ for different labels; a share is its numerator and
-- denominator.
pub mod Totals
use arkain.Prelude.{
  ℕ, zero, suc, ◌+◌, ◌-◌, ◌/◌, min, String, Bool, true, false, Option, none, some, List, [], ◌∷◌,
  ◌++◌, map, if◌then◌else◌, ltb, leb, ◌==◌, keep, sum_by, String-discrete, ℕ_discrete,
}
use arkain.Prelude.Dict.{lookup, alter}
use arkain.Prelude.Sort.{sort}
use arkain.Marketplace.Grouping.{or_empty}
use arkain.Accounting.Journal.{Side, debit, credit}

pub data BucketLabel : Type 0 where
  between : ℕ → ℕ → BucketLabel
  over : Option ℕ → BucketLabel

unfoldable pub BucketLabel-discrete : Discrete BucketLabel
BucketLabel-discrete = hlevel ℕ_discrete

pub record AgingBucket : Type 0 where
  pub label : BucketLabel
  pub amount_krw : ℕ

pub record PartnerReceivable : Type 0 where
  pub partner_id : String
  pub partner_name : String
  pub total_open_krw : ℕ
  pub buckets : List AgingBucket

pub record AgingResult : Type 0 where
  pub total_open_krw : ℕ
  pub buckets : List AgingBucket
  pub by_partner : List PartnerReceivable
  pub over90_days_share_of_open : Option (ℕ × ℕ)

pub record ArLedgerLine : Type 0 where
  pub side : Side
  pub amount_krw : ℕ
  pub partner_id : Option String
  pub partner_name : Option String
  pub entry_date : ℕ

abbrev pub default_aging_buckets_days : List ℕ
default_aging_buckets_days = 30 ∷ 60 ∷ 90 ∷ []

-- the lower end of a bucket, from the boundary before it
abbrev lower_end : Option ℕ → ℕ
lower_end none = 0
lower_end (some before) = before + 1

unfoldable pub labels_from : Option ℕ → List ℕ → List BucketLabel
labels_from before [] = over before ∷ []
labels_from before (upper ∷ rest) = between (lower_end before) upper ∷ labels_from (some upper) rest

unfoldable pub aging_bucket_labels : List ℕ → List BucketLabel
unfolding labels_from
aging_bucket_labels boundaries_days = labels_from none boundaries_days

unfoldable pub label_from : Option ℕ → List ℕ → ℕ → BucketLabel
label_from before [] age_days = over before
label_from before (upper ∷ rest) age_days =
    let further = label_from (some upper) rest age_days in
    if leb age_days upper then between (lower_end before) upper else further

unfoldable pub bucket_label_for_age_days : ℕ → List ℕ → BucketLabel
unfolding label_from
bucket_label_for_age_days age_days boundaries_days = label_from none boundaries_days age_days

abbrev pub or_else_text : Option String → String → String
or_else_text none d = d
or_else_text (some s) d = s

abbrev pub or_zero : Option ℕ → ℕ
or_zero none = 0
or_zero (some n) = n

-- `byPartnerLines`, from the map so far
unfoldable pub by_partner_lines :
    List ArLedgerLine → List (String × List ArLedgerLine) → List (String × List ArLedgerLine)
by_partner_lines [] m = m
by_partner_lines (line ∷ lines) m = by_partner_lines lines (
    alter String-discrete (or_else_text line.partner_id "__unassigned__")
      (λ old. or_empty old ++ line ∷ []) m)

abbrev pub is_debit : ArLedgerLine → Bool
is_debit l = elim l.side [ debit ↦ true | credit ↦ false ]

abbrev pub is_credit : ArLedgerLine → Bool
is_credit l = elim l.side [ debit ↦ false | credit ↦ true ]

pub record Invoice : Type 0 where
  pub entry_date : ℕ
  pub remaining_krw : ℕ

unfoldable pub invoices_of : List ArLedgerLine → List Invoice
invoices_of lines =
    map (λ l. record { entry_date = l.entry_date; remaining_krw = l.amount_krw })
      (sort (λ a b. leb a.entry_date b.entry_date) (keep is_debit lines))

-- the loop that pays the oldest invoices first
unfoldable pub pay : ℕ → List Invoice → List Invoice
pay credits_pool [] = []
pay credits_pool (invoice ∷ rest) =
    let consumed = min invoice.remaining_krw credits_pool in
    let paid = record invoice { remaining_krw = invoice.remaining_krw - consumed } in
    let further = pay (credits_pool - consumed) rest in
    if leb credits_pool 0 then invoice ∷ rest else paid ∷ further

-- `Math.max(0, Math.floor((asOf - entryDate) / 86_400_000))`
abbrev pub age_in_days : ℕ → ℕ → ℕ
age_in_days as_of entry_date = (as_of - entry_date) / 86400000

abbrev pub Buckets : Type 0
Buckets = List (BucketLabel × ℕ)

abbrev pub add_to : BucketLabel → ℕ → Buckets → Buckets
add_to label amount m = alter BucketLabel-discrete label (λ old. or_zero old + amount) m

pub record Open : Type 0 where
  pub partner_buckets : Buckets
  pub tenant_buckets : Buckets
  pub partner_open_krw : ℕ
  pub total_open_krw : ℕ

module _ (as_of : ℕ) (boundaries_days : List ℕ) where
  -- the body of the loop over a partner's invoices
  unfoldable pub add_invoice : Invoice → Open → Open
  add_invoice invoice o =
      let label =
        bucket_label_for_age_days (age_in_days as_of invoice.entry_date) boundaries_days in
      if leb invoice.remaining_krw 0 then o else record {
        partner_buckets = add_to label invoice.remaining_krw o.partner_buckets;
        tenant_buckets = add_to label invoice.remaining_krw o.tenant_buckets;
        partner_open_krw = o.partner_open_krw + invoice.remaining_krw;
        total_open_krw = o.total_open_krw + invoice.remaining_krw;
      }

  unfoldable pub age_invoices : List Invoice → Open → Open
  unfolding add_invoice
  age_invoices [] o = o
  age_invoices (invoice ∷ rest) o = age_invoices rest (add_invoice invoice o)

  abbrev pub empty_buckets : Buckets
  empty_buckets = map (λ l. (l, 0)) (aging_bucket_labels boundaries_days)

  abbrev pub in_order : Buckets → List AgingBucket
  in_order m =
      map (λ l. record { label = l; amount_krw = or_zero (lookup BucketLabel-discrete l m) })
        (aging_bucket_labels boundaries_days)

  abbrev pub first_name : List ArLedgerLine → String
  first_name [] = "미분류"
  first_name (l ∷ ls) = or_else_text l.partner_name "미분류"

  abbrev pub credits_of : List ArLedgerLine → ℕ
  credits_of lines = sum_by (λ l. l.amount_krw) (keep is_credit lines)

  -- one partner's invoices, from the tenant's buckets and total so far
  unfoldable pub age_partner : List ArLedgerLine → Buckets → ℕ → Open
  unfolding age_invoices pay invoices_of
  age_partner lines tenant_buckets total_open_krw =
      age_invoices (pay (credits_of lines) (invoices_of lines)) (record {
        partner_buckets = empty_buckets;
        tenant_buckets = tenant_buckets;
        partner_open_krw = 0;
        total_open_krw = total_open_krw;
      })

  pub record Aged : Type 0 where
    pub tenant_buckets : Buckets
    pub total_open_krw : ℕ
    pub by_partner : List PartnerReceivable

  -- the loop over the partners
  unfoldable pub age_partners : List (String × List ArLedgerLine) → Aged → Aged
  unfolding age_partner
  age_partners [] a = a
  age_partners ((key, lines) ∷ rest) a =
      let o = age_partner lines a.tenant_buckets a.total_open_krw in
      let receivable : PartnerReceivable = record {
        partner_id = key;
        partner_name = first_name lines;
        total_open_krw = o.partner_open_krw;
        buckets = in_order o.partner_buckets;
      } in
      age_partners rest (record {
        tenant_buckets = o.tenant_buckets;
        total_open_krw = o.total_open_krw;
        by_partner =
            if ltb 0 o.partner_open_krw then a.by_partner ++ receivable ∷ [] else a.by_partner;
      })

  abbrev last_label : List BucketLabel → BucketLabel
  last_label [] = over none
  last_label (l ∷ []) = l
  last_label (l ∷ m ∷ rest) = last_label (m ∷ rest)

  unfoldable pub compute_aging_fifo : List ArLedgerLine → AgingResult
  unfolding age_partners
  compute_aging_fifo lines =
      let a =
        age_partners (by_partner_lines lines [])
          (record { tenant_buckets = empty_buckets; total_open_krw = 0; by_partner = [] }) in
      let over90 =
        lookup BucketLabel-discrete (last_label (aging_bucket_labels boundaries_days))
          a.tenant_buckets in
      record {
        total_open_krw = a.total_open_krw;
        buckets = in_order a.tenant_buckets;
        by_partner = sort (λ p q. leb q.total_open_krw p.total_open_krw) a.by_partner;
        over90_days_share_of_open =
            if a.total_open_krw == 0 then none else some (or_zero over90, a.total_open_krw);
      }
