-- ===== src/Marketplace/GsShop.antt =====
-- src/imports/gsshop/gsshop.mapper.ts: the rows of the sheet, checked before, as orders. Amounts are
-- whole won. `to_iso_string` is `new Date(text).toISOString()`, `none` for a text that is no date.
use arkain.Prelude.{
  ℕ, ◌≡◌, ◌∙◌, String, Option, none, some, List, [], ◌∷◌, map, sum_by, sum_by-map, if◌then◌else◌,
  ltb,
}
use arkain.Marketplace.Types.{gsshop, NormalizedOrderItem, NormalizedOrder}
use arkain.Marketplace.Grouping.{group, sum_by-group, one_status, round_div}

pub record GsShopRow : Type 0 where
  pub order_no : String
  pub ordered_at : String
  pub status : String
  pub buyer_name : Option String
  pub product_code : Option String
  pub product_name : String
  pub quantity : ℕ
  pub amount_krw : ℕ

abbrev or_text : Option String → String → String
or_text none d = d
or_text (some s) d = s

unfoldable pub to_item : GsShopRow → NormalizedOrderItem
unfolding round_div
to_item l = record {
  marketplace_product_id = or_text l.product_code l.product_name;
  product_name = l.product_name;
  quantity = l.quantity;
  unit_price_krw = if ltb 0 l.quantity then round_div l.amount_krw l.quantity else 0;
}

module _ (to_iso_string : String → Option String) where
  unfoldable pub to_iso : String → String
  to_iso value = or_text (to_iso_string value) value

  abbrev first_date : List GsShopRow → String
  first_date [] = ""
  first_date (l ∷ ls) = l.ordered_at

  abbrev first_buyer : List GsShopRow → Option String
  first_buyer [] = none
  first_buyer (l ∷ ls) = l.buyer_name

  unfoldable pub to_order : String × List GsShopRow → NormalizedOrder
  unfolding to_iso to_item one_status
  to_order (order_no, lines) = record {
    marketplace = gsshop;
    marketplace_order_id = order_no;
    ordered_at = to_iso (first_date lines);
    status = one_status (map (λ l. l.status) lines);
    buyer_name = first_buyer lines;
    total_amount_krw = sum_by (λ l. l.amount_krw) lines;
    items = map to_item lines;
  }

  unfoldable pub map_gs_shop_rows_to_orders : List GsShopRow → List NormalizedOrder
  unfolding to_order
  map_gs_shop_rows_to_orders rows = map to_order (group (λ r. r.order_no) rows)

-- No amount of the sheet is lost or counted twice: the totals of the orders add up to the amounts of
-- the rows.
pub map_gs_shop_rows_to_orders-total :
    (to_iso_string : String → Option String) (rows : List GsShopRow)
    → sum_by (λ o. o.total_amount_krw) (map_gs_shop_rows_to_orders to_iso_string rows)
      ≡ sum_by (λ r. r.amount_krw) rows
unfolding map_gs_shop_rows_to_orders to_order
map_gs_shop_rows_to_orders-total to_iso_string rows =
    sum_by-map (λ (o : NormalizedOrder). o.total_amount_krw) (to_order to_iso_string)
      (group (λ (r : GsShopRow). r.order_no) rows)
    ∙ sum_by-group (λ r. r.order_no) (λ r. r.amount_krw) rows
