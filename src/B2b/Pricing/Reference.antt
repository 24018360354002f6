-- ===== src/B2b/Pricing/Reference.antt =====
-- What pricing promises, without the map: a line takes the last price entered for its sku.
use arkain.Prelude.{
  ◌*◌, String, ◌≡◌, ◌≢◌, refl, ap, Option, none, some, List, [], ◌∷◌, ◌++◌, Result, ok, throw,
  ◌>>=◌, ite, arith, All, sum_by, String-discrete, Option-cases, inl, inr,
}
use arkain.Prelude.Dict.{lookup, insert, lookup-insert}
use arkain.B2b.Types.{AccountPriceListEntry, PurchaseOrderLineRequest, PurchaseOrderItem}
use arkain.B2b.Pricing.{
  MissingPriceError, missing_price, PricedLines, by_sku_from, price_each, price_lines,
}

abbrev or_else {ℓ} : {A : Type ℓ} → Option A → Option A → Option A
or_else none b = b
or_else (some a) b = some a

-- The last entry for the sku.
pub last_entry : String → List AccountPriceListEntry → Option AccountPriceListEntry
last_entry sku [] = none
last_entry sku (e ∷ es) =
    or_else (last_entry sku es) (ite (String-discrete e.sku sku) (some e) none)

lookup-by_sku_from :
    (sku : String) (m : List (String × AccountPriceListEntry)) (es : List AccountPriceListEntry)
    → lookup String-discrete sku (by_sku_from m es)
      ≡ or_else (last_entry sku es) (lookup String-discrete sku m)
unfolding by_sku_from last_entry
lookup-by_sku_from sku m [] = refl
lookup-by_sku_from sku m (e ∷ es) = ground (
  arith,
  lookup-by_sku_from sku (insert String-discrete e.sku e m) es,
  lookup-insert String-discrete e.sku sku e m,
)

lookup-by_sku :
    (sku : String) (es : List AccountPriceListEntry)
    → lookup String-discrete sku (by_sku_from [] es) ≡ last_entry sku es
unfolding lookup
lookup-by_sku sku es = ground (arith, lookup-by_sku_from sku [] es)

module _ (price_list : List AccountPriceListEntry) where
  -- The item is the line at the last price entered for its sku.
  pub record IsPriced (line : PurchaseOrderLineRequest) (item : PurchaseOrderItem) : Type 0 where
    pub entry : AccountPriceListEntry
    pub entered : last_entry line.sku price_list ≡ some entry
    pub sku : item.sku ≡ line.sku
    pub product_name : item.product_name ≡ entry.product_name
    pub quantity : item.quantity ≡ line.quantity
    pub unit_price : item.unit_price_krw ≡ entry.unit_price_krw
    pub line_total : item.line_total_krw ≡ item.quantity * item.unit_price_krw

  -- One item for each line, in order.
  abbrev pub ArePriced : List PurchaseOrderLineRequest → List PurchaseOrderItem → Type 0
  ArePriced [] [] = Unit
  ArePriced (l ∷ ls) (i ∷ is) = IsPriced l i × ArePriced ls is
  ArePriced _ _ = ⊥

  -- The line is the first one whose sku has no price, and the error names that sku.
  pub record FirstMissing (lines : List PurchaseOrderLineRequest) (sku : String) : Type 0 where
    pub before : List PurchaseOrderLineRequest
    pub line : PurchaseOrderLineRequest
    pub after : List PurchaseOrderLineRequest
    pub split : lines ≡ before ++ line ∷ after
    pub priced_before :
        All (λ (l : PurchaseOrderLineRequest). last_entry l.sku price_list ≢ none) before
    pub missing : last_entry line.sku price_list ≡ none
    pub named : sku ≡ line.sku

  abbrev pub EachPriced :
      List PurchaseOrderLineRequest → Result MissingPriceError (List PurchaseOrderItem) → Type 0
  EachPriced lines (ok items) = ArePriced lines items
  EachPriced lines (throw (missing_price sku)) = FirstMissing lines sku

  extend :
      (l : PurchaseOrderLineRequest) (ls : List PurchaseOrderLineRequest) (i : PurchaseOrderItem)
      (r : Result MissingPriceError (List PurchaseOrderItem))
      → IsPriced l i
      → EachPriced ls r
      → EachPriced (l ∷ ls) (do items ← r; ok (i ∷ items))
  extend l ls i (ok items) p h = (p, h)
  extend l ls i (throw (missing_price sku)) p h = record {
    before = l ∷ h.before;
    line = h.line;
    after = h.after;
    split = ap (λ t. l ∷ t) h.split;
    priced_before = (ground (arith, p.entered), h.priced_before);
    missing = h.missing;
    named = h.named;
  }

  price_each-EachPriced :
      (lines : List PurchaseOrderLineRequest)
      → EachPriced lines (price_each (by_sku_from [] price_list) lines)
  unfolding price_each
  price_each-EachPriced [] = tt
  price_each-EachPriced (l ∷ ls) = elim (Option-cases (last_entry l.sku price_list)) [
    | inl missing ↦
        rw (lookup-by_sku, missing)
          (record {
            before = [];
            line = l;
            after = ls;
            split = refl;
            priced_before = tt;
            missing = missing;
            named = refl;
          })
    | inr (e, entered) ↦
        rw (lookup-by_sku, entered)
          (extend l ls _ _
            (record {
              entry = e;
              entered = entered;
              sku = refl;
              product_name = refl;
              quantity = refl;
              unit_price = refl;
              line_total = omega arith;
            })
            (price_each-EachPriced ls))
  ]

  pub line_totals :
      (lines : List PurchaseOrderLineRequest) (items : List PurchaseOrderItem)
      → ArePriced lines items
      → sum_by (λ (i : PurchaseOrderItem). i.line_total_krw) items
        ≡ sum_by (λ (i : PurchaseOrderItem). i.quantity * i.unit_price_krw) items
  line_totals [] [] h = refl
  line_totals (l ∷ ls) (i ∷ is) h = omega (arith, h.0.line_total, line_totals ls is h.1)
  line_totals [] (i ∷ is) h = absurd h
  line_totals (l ∷ ls) [] h = absurd h

  -- Either every line is priced and the total is theirs, or the first line without a price is named.
  abbrev pub IsPricing :
      List PurchaseOrderLineRequest → Result MissingPriceError PricedLines → Type 0
  IsPricing lines (ok r) =
      ArePriced lines r.items
      × (r.total_amount_krw
          ≡ sum_by (λ (i : PurchaseOrderItem). i.quantity * i.unit_price_krw) r.items)
  IsPricing lines (throw (missing_price sku)) = FirstMissing lines sku

  finish :
      (lines : List PurchaseOrderLineRequest)
      (r : Result MissingPriceError (List PurchaseOrderItem))
      → EachPriced lines r
      → IsPricing lines (do
        items ← r
        ok (record { items = items; total_amount_krw = sum_by (λ i. i.line_total_krw) items }))
  finish lines (ok items) h = (h, line_totals lines items h)
  finish lines (throw (missing_price sku)) h = h

-- Pricing gives one item for each requested line, in order, at the last price entered for its sku,
-- with the sum of quantity times unit price as the total; or, when some line's sku has no price, it
-- fails and names the sku of the first such line.
pub price_lines-IsPricing :
    (lines : List PurchaseOrderLineRequest) (price_list : List AccountPriceListEntry)
    → IsPricing price_list lines (price_lines lines price_list)
unfolding price_lines
price_lines-IsPricing lines price_list =
    finish price_list lines _ (price_each-EachPriced price_list lines)
