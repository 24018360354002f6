-- ===== src/NorthStar/Aging/Totals.antt =====
-- The open amounts add up: by partner, and in all.
use arkain.Prelude.{
  ℕ, ◌+◌, ◌-◌, ◌≡◌, refl, ap, ◌∙◌, String, Option, none, some, Bool, List, [], ◌∷◌, ◌++◌, min,
  if◌then◌else◌, leb, ltb, keep, sum_by, sum_by-append, sum_by-map, arith, holds, String-discrete,
}
use arkain.Prelude.Dict.{lookup, DistinctKeys, alter-DistinctKeys, of_found, sum_by-key}
use arkain.Prelude.Sort.{sort, sum_by-sort}
use arkain.Marketplace.Grouping.{or_empty, group_from, lookup-group}
use arkain.Accounting.Journal.{Side, debit, credit}
use arkain.NorthStar.Aging.{
  ArLedgerLine, Invoice, invoices_of, is_debit, credits_of, pay, add_invoice, age_invoices,
  age_partner, age_partners, Open, Aged, Buckets, PartnerReceivable, by_partner_lines,
  compute_aging_fifo, empty_buckets, or_else_text, first_name, in_order,
}

-- What the lines of a side come to.
abbrev worth : Side → Side → ℕ → ℕ
worth debit debit n = n
worth credit credit n = n
worth _ _ n = 0

abbrev pub worth_of : Side → List ArLedgerLine → ℕ
worth_of side lines = sum_by (λ l. worth side l.side l.amount_krw) lines

-- The lines of a partner, those of no partner being under a key of their own.
abbrev pub lines_of : String → List ArLedgerLine → List ArLedgerLine
lines_of key lines =
    keep (λ l. holds (String-discrete (or_else_text l.partner_id "__unassigned__") key)) lines

-- What a partner owes: the debits less the credits, if there are fewer of these.
abbrev pub owed : List ArLedgerLine → ℕ
owed lines = worth_of debit lines - worth_of credit lines

-- The open amounts in a list of partners, of all and of those under a key.
abbrev pub receivables : List PartnerReceivable → ℕ
receivables list = sum_by (λ p. p.total_open_krw) list

abbrev pub receivables_of : String → List PartnerReceivable → ℕ
receivables_of key list =
    sum_by (λ p. if holds (String-discrete p.partner_id key) then p.total_open_krw else 0) list

abbrev debits_of : List ArLedgerLine → ℕ
debits_of lines = sum_by (λ l. l.amount_krw) (keep is_debit lines)

debits_of-worth : (lines : List ArLedgerLine) → debits_of lines ≡ worth_of debit lines
debits_of-worth [] = refl
debits_of-worth (l ∷ ls) = ground (arith, debits_of-worth ls)

abbrev remaining : List Invoice → ℕ
remaining invoices = sum_by (λ i. i.remaining_krw) invoices

-- The invoices are worth the debits.
remaining-invoices_of :
    (lines : List ArLedgerLine) → remaining (invoices_of lines) ≡ debits_of lines
unfolding invoices_of
remaining-invoices_of lines =
    sum_by-map (λ (i : Invoice). i.remaining_krw)
      (λ (l : ArLedgerLine). record { entry_date = l.entry_date; remaining_krw = l.amount_krw })
      (sort (λ a b. leb a.entry_date b.entry_date) (keep is_debit lines))
    ∙ sum_by-sort (λ a b. leb a.entry_date b.entry_date) (λ (l : ArLedgerLine). l.amount_krw)
        (keep is_debit lines)

-- What is paid is the pool, as far as the invoices reach.
remaining-pay :
    (pool : ℕ) (invoices : List Invoice) → remaining (pay pool invoices) ≡ remaining invoices - pool
unfolding pay
remaining-pay pool [] = omega arith
remaining-pay pool (i ∷ rest) = ground (arith, remaining-pay (pool - min i.remaining_krw pool) rest)

module _ (as_of : ℕ) (boundaries_days : List ℕ) where
  add_invoice-open :
      (i : Invoice) (o : Open)
      → (add_invoice as_of boundaries_days i o).partner_open_krw
        ≡ o.partner_open_krw + i.remaining_krw
  unfolding add_invoice
  add_invoice-open i o = ground arith

  add_invoice-total :
      (i : Invoice) (o : Open)
      → (add_invoice as_of boundaries_days i o).total_open_krw ≡ o.total_open_krw + i.remaining_krw
  unfolding add_invoice
  add_invoice-total i o = ground arith

  age_invoices-open :
      (invoices : List Invoice) (o : Open)
      → (age_invoices as_of boundaries_days invoices o).partner_open_krw
        ≡ o.partner_open_krw + remaining invoices
  unfolding age_invoices
  age_invoices-open [] o = omega arith
  age_invoices-open (i ∷ rest) o =
      omega (
        arith,
        age_invoices-open rest (add_invoice as_of boundaries_days i o),
        add_invoice-open i o,
      )

  age_invoices-total :
      (invoices : List Invoice) (o : Open)
      → (age_invoices as_of boundaries_days invoices o).total_open_krw
        ≡ o.total_open_krw + remaining invoices
  unfolding age_invoices
  age_invoices-total [] o = omega arith
  age_invoices-total (i ∷ rest) o = omega (
    arith,
    age_invoices-total rest (add_invoice as_of boundaries_days i o),
    add_invoice-total i o,
  )

  credits_of-worth :
      (lines : List ArLedgerLine) → credits_of as_of boundaries_days lines ≡ worth_of credit lines
  credits_of-worth [] = refl
  credits_of-worth (l ∷ ls) = ground (arith, credits_of-worth ls)

  age_partner-open :
      (lines : List ArLedgerLine) (m : Buckets) (total : ℕ)
      → (age_partner as_of boundaries_days lines m total).partner_open_krw ≡ owed lines
  unfolding age_partner
  age_partner-open lines m total = omega (
    arith,
    age_invoices-open (pay (credits_of as_of boundaries_days lines) (invoices_of lines)) (record {
      partner_buckets = empty_buckets as_of boundaries_days;
      tenant_buckets = m;
      partner_open_krw = 0;
      total_open_krw = total;
    }),
    remaining-pay (credits_of as_of boundaries_days lines) (invoices_of lines),
    remaining-invoices_of lines,
    debits_of-worth lines,
    credits_of-worth lines,
  )

  age_partner-total :
      (lines : List ArLedgerLine) (m : Buckets) (total : ℕ)
      → (age_partner as_of boundaries_days lines m total).total_open_krw ≡ total + owed lines
  unfolding age_partner
  age_partner-total lines m total = omega (
    arith,
    age_invoices-total (pay (credits_of as_of boundaries_days lines) (invoices_of lines)) (record {
      partner_buckets = empty_buckets as_of boundaries_days;
      tenant_buckets = m;
      partner_open_krw = 0;
      total_open_krw = total;
    }),
    remaining-pay (credits_of as_of boundaries_days lines) (invoices_of lines),
    remaining-invoices_of lines,
    debits_of-worth lines,
    credits_of-worth lines,
  )

  abbrev Groups : Type 0
  Groups = List (String × List ArLedgerLine)

  abbrev owed_by_all : Groups → ℕ
  owed_by_all groups = sum_by (λ g. owed g.1) groups

  age_partners-total :
      (groups : Groups) (a : Aged as_of boundaries_days)
      → (age_partners as_of boundaries_days groups a).total_open_krw
        ≡ a.total_open_krw + owed_by_all groups
  unfolding age_partners
  age_partners-total [] a = omega arith
  age_partners-total ((key, lines) ∷ rest) a =
      omega (
        arith,
        age_partners-total rest _,
        age_partner-total lines a.tenant_buckets a.total_open_krw,
      )

  added : ℕ → PartnerReceivable → List PartnerReceivable → List PartnerReceivable
  added n r list = if ltb 0 n then list ++ r ∷ [] else list

  receivables-added :
      (n : ℕ) (r : PartnerReceivable) (list : List PartnerReceivable)
      → r.total_open_krw ≡ n
      → receivables (added n r list) ≡ receivables list + n
  unfolding added
  receivables-added n r list h =
      ground (arith, h, sum_by-append (λ p. p.total_open_krw) list (r ∷ []))

  age_partners-receivables :
      (groups : Groups) (a : Aged as_of boundaries_days)
      → receivables (age_partners as_of boundaries_days groups a).by_partner
        ≡ receivables a.by_partner + owed_by_all groups
  unfolding age_partners added
  age_partners-receivables [] a = omega arith
  age_partners-receivables ((key, lines) ∷ rest) a =
      let o = age_partner as_of boundaries_days lines a.tenant_buckets a.total_open_krw in
      omega (
        arith,
        age_partners-receivables rest _,
        receivables-added o.partner_open_krw
            (record {
              partner_id = key;
              partner_name = first_name as_of boundaries_days lines;
              total_open_krw = o.partner_open_krw;
              buckets = in_order as_of boundaries_days o.partner_buckets;
            })
            a.by_partner refl,
        age_partner-open lines a.tenant_buckets a.total_open_krw,
      )

  abbrev owed_at : String → Groups → ℕ
  owed_at key groups = sum_by (λ g. if holds (String-discrete g.0 key) then owed g.1 else 0) groups

  receivables_of-added :
      (key : String) (n : ℕ) (r : PartnerReceivable) (list : List PartnerReceivable)
      → r.total_open_krw ≡ n
      → receivables_of key (added n r list)
        ≡ receivables_of key list + (if holds (String-discrete r.partner_id key) then n else 0)
  unfolding added
  receivables_of-added key n r list h = ground (
    arith,
    h,
    sum_by-append (λ p. if holds (String-discrete p.partner_id key) then p.total_open_krw else 0)
        list (r ∷ []),
  )

  age_partners-receivables_of :
      (key : String) (groups : Groups) (a : Aged as_of boundaries_days)
      → receivables_of key (age_partners as_of boundaries_days groups a).by_partner
        ≡ receivables_of key a.by_partner + owed_at key groups
  unfolding age_partners added
  age_partners-receivables_of key [] a = omega arith
  age_partners-receivables_of key ((id, lines) ∷ rest) a =
      let o = age_partner as_of boundaries_days lines a.tenant_buckets a.total_open_krw in
      let one =
        receivables_of-added key o.partner_open_krw
          (record {
            partner_id = id;
            partner_name = first_name as_of boundaries_days lines;
            total_open_krw = o.partner_open_krw;
            buckets = in_order as_of boundaries_days o.partner_buckets;
          })
          a.by_partner refl in
      let amount =
        ap (λ n. if holds (String-discrete id key) then n else 0)
          (age_partner-open lines a.tenant_buckets a.total_open_krw) in
      omega (arith, age_partners-receivables_of key rest _, one, amount)

-- The groups of the code are those of the keys.
by_partner_lines-group :
    (lines : List ArLedgerLine) (m : List (String × List ArLedgerLine))
    → by_partner_lines lines m
      ≡ group_from (λ l. or_else_text l.partner_id "__unassigned__") lines m
unfolding by_partner_lines group_from
by_partner_lines-group [] m = refl
by_partner_lines-group (l ∷ ls) m = by_partner_lines-group ls _

by_partner_lines-DistinctKeys :
    (lines : List ArLedgerLine) (m : List (String × List ArLedgerLine))
    → DistinctKeys String-discrete m
    → DistinctKeys String-discrete (by_partner_lines lines m)
unfolding by_partner_lines
by_partner_lines-DistinctKeys [] m h = h
by_partner_lines-DistinctKeys (l ∷ ls) m h =
    by_partner_lines-DistinctKeys ls _ (alter-DistinctKeys String-discrete _ _ m h)

of_found-owed :
    (o : Option (List ArLedgerLine)) → of_found String-discrete owed o ≡ owed (or_empty o)
of_found-owed none = refl
of_found-owed (some lines) = refl

owed_at-groups :
    (as_of : ℕ) (boundaries_days : List ℕ) (key : String) (lines : List ArLedgerLine)
    → owed_at as_of boundaries_days key (by_partner_lines lines []) ≡ owed (lines_of key lines)
owed_at-groups as_of boundaries_days key lines =
    let groups = by_partner_lines lines [] in
    sum_by-key String-discrete owed key groups
      (by_partner_lines-DistinctKeys lines [] (unfold DistinctKeys in tt))
    ∙ of_found-owed (lookup String-discrete key groups)
    ∙ ap (λ g. owed (or_empty (lookup String-discrete key g))) (by_partner_lines-group lines [])
    ∙ ap owed (lookup-group (λ l. or_else_text l.partner_id "__unassigned__") key lines)

-- The total of open receivables is what the listed partners owe together; and under every key, which
-- is the id of a partner, or one for the lines with none, stands what the debits of its own lines
-- come to less its own credits, and nothing where these are more: what one partner has paid too much
-- pays nothing for another.
pub compute_aging_fifo-totals :
    (as_of : ℕ) (boundaries_days : List ℕ) (lines : List ArLedgerLine) (key : String)
    → ((compute_aging_fifo as_of boundaries_days lines).total_open_krw
        ≡ receivables (compute_aging_fifo as_of boundaries_days lines).by_partner)
      × (receivables_of key (compute_aging_fifo as_of boundaries_days lines).by_partner
          ≡ owed (lines_of key lines))
unfolding compute_aging_fifo
compute_aging_fifo-totals as_of boundaries_days lines key =
    let start : Aged as_of boundaries_days = record {
      tenant_buckets = empty_buckets as_of boundaries_days;
      total_open_krw = 0;
      by_partner = [];
    } in
    let groups = by_partner_lines lines [] in
    let listed = (age_partners as_of boundaries_days groups start).by_partner in
    let larger : PartnerReceivable → PartnerReceivable → Bool =
      λ p q. leb q.total_open_krw p.total_open_krw in
    (
      omega (
        arith,
        age_partners-total as_of boundaries_days groups start,
        age_partners-receivables as_of boundaries_days groups start,
        sum_by-sort larger (λ p. p.total_open_krw) listed,
      ),
      omega (
        arith,
        sum_by-sort larger
            (λ p. if holds (String-discrete p.partner_id key) then p.total_open_krw else 0) listed,
        age_partners-receivables_of as_of boundaries_days key groups start,
        owed_at-groups as_of boundaries_days key lines,
      ),
    )
