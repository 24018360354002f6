-- ===== src/Marketplace/Examples.antt =====
-- The theorems on the mappers at work.
use arkain.Prelude.{ℕ, ◌≡◌, String, Option, none, some, List, [], ◌∷◌, sum_by}
use arkain.Marketplace.GsShop.{GsShopRow}
use arkain.Marketplace.Naver.{
  ProductOrderDetail, line_amount, map_product_orders_to_orders, map_product_orders_to_orders-total,
}

abbrev row : String → ℕ → GsShopRow
row order_no amount_krw = record {
  order_no = order_no;
  ordered_at = "2024-01-02";
  status = "결제완료";
  buyer_name = none;
  product_code = none;
  product_name = "Cup";
  quantity = 1;
  amount_krw = amount_krw;
}

abbrev rows : List GsShopRow
rows = row "1" 300 ∷ row "2" 500 ∷ row "1" 700 ∷ []

abbrev no_dates : String → Option String
no_dates text = none

abbrev detail : Option ℕ → ProductOrderDetail
detail paid = record {
  product_order_id = "a";
  product_order_status = some "PAYED";
  product_name = some "Cup";
  product_id = none;
  quantity = 2;
  unit_price = none;
  total_payment_amount = paid;
  total_product_amount = some 900;
  order_id = "o";
  orderer_name = none;
  order_date = some "2024-01-02";
  payment_date = none;
}

abbrev details : List ProductOrderDetail
details = detail (some 800) ∷ detail none ∷ []

map_product_orders_to_orders-total_example :
    sum_by (λ o. o.total_amount_krw) (map_product_orders_to_orders no_dates details)
    ≡ sum_by line_amount details
map_product_orders_to_orders-total_example = map_product_orders_to_orders-total no_dates details
