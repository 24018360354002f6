-- ===== src/Marketplace/Naver.antt =====
-- src/integrations/naver/naver.mapper.ts: the lines of Naver, checked before, as orders, and its
-- products. An id that comes as a number stands as its text.
use arkain.Prelude.{
  ℕ, ◌≡◌, ◌∙◌, String, Option, none, some, List, [], ◌∷◌, ◌++◌, map, sum_by, sum_by-map,
  if◌then◌else◌, ltb, holds, String-discrete,
}
use arkain.Marketplace.Types.{
  naver_smartstore, NormalizedOrderItem, NormalizedOrder, NormalizedProduct,
}
use arkain.Marketplace.Grouping.{group, sum_by-group, one_status, round_div}

-- `productOrder` and `order`
pub record ProductOrderDetail : Type 0 where
  pub product_order_id : String
  pub product_order_status : Option String
  pub product_name : Option String
  pub product_id : Option String
  pub quantity : ℕ
  pub unit_price : Option ℕ
  pub total_payment_amount : Option ℕ
  pub total_product_amount : Option ℕ
  pub order_id : String
  pub orderer_name : Option String
  pub order_date : Option String
  pub payment_date : Option String

abbrev or_text : Option String → String → String
or_text none d = d
or_text (some s) d = s

abbrev first_of : Option String → Option String → Option String
first_of none b = b
first_of (some a) b = some a

-- an explicit unit price, else one derived from the line's total
unfoldable pub unit_price_of : ProductOrderDetail → ℕ
unfolding round_div
unit_price_of l = elim l.unit_price [
  | some price ↦ price
  | none ↦
      if ltb 0 l.quantity
      then elim l.total_payment_amount [ some paid ↦ round_div paid l.quantity | none ↦ 0 ]
      else 0
]

unfoldable pub line_amount : ProductOrderDetail → ℕ
line_amount l = elim l.total_payment_amount [
  | some paid ↦ paid
  | none ↦ elim l.total_product_amount [ some amount ↦ amount | none ↦ 0 ]
]

unfoldable pub to_item : ProductOrderDetail → NormalizedOrderItem
unfolding unit_price_of
to_item l = record {
  marketplace_product_id = or_text l.product_id l.product_order_id;
  product_name = or_text l.product_name "";
  quantity = l.quantity;
  unit_price_krw = unit_price_of l;
}

module _ (to_iso_string : String → Option String) where
  -- no date and the empty text give the empty text
  unfoldable pub to_iso : Option String → String
  to_iso none = ""
  to_iso (some value) =
      if holds (String-discrete value "") then "" else or_text (to_iso_string value) value

  abbrev first_date : List ProductOrderDetail → Option String
  first_date [] = none
  first_date (l ∷ ls) = first_of l.payment_date l.order_date

  abbrev first_buyer : List ProductOrderDetail → Option String
  first_buyer [] = none
  first_buyer (l ∷ ls) = l.orderer_name

  unfoldable pub to_order : String × List ProductOrderDetail → NormalizedOrder
  unfolding to_iso to_item one_status line_amount
  to_order (order_id, lines) = record {
    marketplace = naver_smartstore;
    marketplace_order_id = order_id;
    ordered_at = to_iso (first_date lines);
    status = one_status (map (λ l. or_text l.product_order_status "UNKNOWN") lines);
    buyer_name = first_buyer lines;
    total_amount_krw = sum_by line_amount lines;
    items = map to_item lines;
  }

  unfoldable pub map_product_orders_to_orders : List ProductOrderDetail → List NormalizedOrder
  unfolding to_order
  map_product_orders_to_orders details = map to_order (group (λ d. d.order_id) details)

pub record ChannelProduct : Type 0 where
  pub channel_product_no : String
  pub name : Option String
  pub sale_price : Option ℕ
  pub stock_quantity : Option ℕ
  pub status_type : Option String

pub record ProductSearchItem : Type 0 where
  pub origin_product_no : Option String
  pub channel_products : List ChannelProduct

abbrev or_zero : Option ℕ → ℕ
or_zero none = 0
or_zero (some n) = n

unfoldable pub to_product : Option String → ChannelProduct → NormalizedProduct
to_product origin_id ch = record {
  marketplace = naver_smartstore;
  marketplace_product_id = ch.channel_product_no;
  origin_product_id = origin_id;
  name = or_text ch.name "";
  sale_price_krw = or_zero ch.sale_price;
  stock_quantity = or_zero ch.stock_quantity;
  status = or_text ch.status_type "UNKNOWN";
}

unfoldable pub map_product_search_to_products : List ProductSearchItem → List NormalizedProduct
unfolding to_product
map_product_search_to_products [] = []
map_product_search_to_products (item ∷ rest) =
    map (to_product item.origin_product_no) item.channel_products
    ++ map_product_search_to_products rest

-- No payment is lost or counted twice when product orders are gathered into orders: the totals of
-- the orders add up to the amounts of the lines.
pub map_product_orders_to_orders-total :
    (to_iso_string : String → Option String) (details : List ProductOrderDetail)
    → sum_by (λ o. o.total_amount_krw) (map_product_orders_to_orders to_iso_string details)
      ≡ sum_by line_amount details
unfolding map_product_orders_to_orders to_order
map_product_orders_to_orders-total to_iso_string details =
    sum_by-map (λ (o : NormalizedOrder). o.total_amount_krw) (to_order to_iso_string)
      (group (λ (d : ProductOrderDetail). d.order_id) details)
    ∙ sum_by-group (λ d. d.order_id) line_amount details
