-- ===== src/B2b/Store/Creation.antt =====
-- What creating a purchase order does to the database.
use arkain.Prelude.{
  String, ◌≡◌, refl, ap, ◌∙◌, sym, subst, none, some, Result, ok, throw, All, List, [], ◌∷◌, inl,
  inr, ◌⊎◌, if_pos, if_neg,
}
use arkain.B2b.Types.{
  draft, CreatePurchaseOrderInput, PurchaseOrderItem, PurchaseOrderLineRequest,
  AccountPriceListEntry,
}
use arkain.B2b.Pricing.{MissingPriceError, PricedLines, price_lines}
use arkain.B2b.Pricing.Reference.{ArePriced, IsPricing, price_lines-IsPricing, line_totals}
use arkain.B2b.Rows.{PurchaseOrderRow, Tables, Database, unpriced, to_purchase_order}
use arkain.B2b.Store.{create_purchase_order, list_price_list_entries}
use arkain.B2b.Store.WellFormed.{HasLineTotal, IsWellFormed}

-- The row of a new order.
abbrev pub new_row : CreatePurchaseOrderInput → PricedLines → PurchaseOrderRow
new_row input priced = record {
  tenant_id = input.tenant_id;
  account_id = input.account_id;
  status = draft;
  total_amount_krw = priced.total_amount_krw;
  memo = input.memo;
  submitted_at = none;
  approved_at = none;
  rejected_at = none;
  rejection_reason = none;
  items = priced.items;
}

module _ (t : Tables) (input : CreatePurchaseOrderInput) (db : Database t) where
  abbrev pub priced : Result MissingPriceError PricedLines
  priced = price_lines input.lines (list_price_list_entries t input.tenant_id input.account_id db)

  abbrev pub IsCreation : Result MissingPriceError PricedLines → Type 0
  IsCreation (throw e) = create_purchase_order t input db ≡ (throw (unpriced e), db)
  IsCreation (ok p) =
      let made = t.orders.create (new_row input p) db.orders in
      create_purchase_order t input db
      ≡ (ok (to_purchase_order made.0 (new_row input p)), record db { orders = made.1 })

  pub creation : (r : Result MissingPriceError PricedLines) → priced ≡ r → IsCreation r
  unfolding create_purchase_order
  creation (throw e) h = rw h
  creation (ok p) h = rw h

  -- An order after the call is as it was, or it is a new one under a key that was free.
  pub record WasCreated (j : String) (new : PurchaseOrderRow) : Type 0 where
    pub lines : PricedLines
    pub priced_as : priced ≡ ok lines
    pub row : new ≡ new_row input lines
    pub key_was_free : t.orders.find j db.orders ≡ none

  abbrev KeptOrCreated : String → PurchaseOrderRow → Type 0
  KeptOrCreated j new = (t.orders.find j db.orders ≡ some new) ⊎ WasCreated j new

  from_creation :
      (r : Result MissingPriceError PricedLines)
      → priced ≡ r
      → (j : String) (new : PurchaseOrderRow)
      → t.orders.find j (create_purchase_order t input db).1.orders ≡ some new
      → KeptOrCreated j new
  from_creation (throw e) h j new found =
      inl (ap (λ x. t.orders.find j x.1.orders) (sym (creation (throw e) h)) ∙ found)
  from_creation (ok p) h j new found =
      let row = new_row input p in
      let made = t.orders.create row db.orders in
      let here = ap (λ x. t.orders.find j x.1.orders) (sym (creation (ok p) h)) ∙ found in
      elim (t.orders.dec made.0 j) [
        | no other ↦ inl (cc (rw (if_neg _ other) at (t.orders.find-create row db.orders j), here))
        | yes same ↦ inr (record {
          lines = p;
          priced_as = h;
          row = cc (rw (if_pos _ same) at (t.orders.find-create row db.orders j), here);
          key_was_free =
              subst (λ k. t.orders.find k db.orders ≡ none) same
                (t.orders.create_fresh row db.orders);
        })
      ]

  pub kept_or_created :
      (j : String) (new : PurchaseOrderRow)
      → t.orders.find j (create_purchase_order t input db).1.orders ≡ some new
      → KeptOrCreated j new
  kept_or_created = from_creation priced refl

All-line_totals :
    (price_list : List AccountPriceListEntry) (lines : List PurchaseOrderLineRequest)
    (items : List PurchaseOrderItem)
    → ArePriced price_list lines items
    → All HasLineTotal items
All-line_totals price_list [] [] h = tt
All-line_totals price_list (l ∷ ls) (i ∷ is) h =
    (h.0.line_total, All-line_totals price_list ls is h.1)
All-line_totals price_list [] (i ∷ is) h = absurd h
All-line_totals price_list (l ∷ ls) [] h = absurd h

pub new_row-IsWellFormed :
    (t : Tables) (input : CreatePurchaseOrderInput) (db : Database t) (p : PricedLines)
    → priced t input db ≡ ok p
    → IsWellFormed (new_row input p)
new_row-IsWellFormed t input db p h =
    let price_list = list_price_list_entries t input.tenant_id input.account_id db in
    let spec =
      subst (IsPricing price_list input.lines) h (price_lines-IsPricing input.lines price_list) in
    record {
      line_totals = All-line_totals price_list input.lines p.items spec.0;
      total = spec.1 ∙ sym (line_totals price_list input.lines p.items spec.0);
      submission = λ _. refl;
      approval = refl;
      rejection = refl;
      reason = refl;
    }
