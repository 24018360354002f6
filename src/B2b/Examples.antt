-- ===== src/B2b/Examples.antt =====
-- The theorems on purchase orders at work, on a small shop in memory.
use arkain.Prelude.{
  String, ◌≡◌, ◌≢◌, refl, none, some, List, [], ◌∷◌, ok, arith, String-discrete, Pair-discrete,
}
use text.Mathlib.TextEquality.{eq_iff}
use arkain.Prelude.Dict.{lookup, insert}
use arkain.Prisma.Memory.{text_table, pair_table}
use arkain.B2b.Types.{
  draft, submitted, CreatePurchaseOrderInput, AccountPriceListEntry, PurchaseOrderLineRequest,
}
use arkain.B2b.Pricing.{price_lines}
use arkain.B2b.Pricing.Reference.{IsPricing, price_lines-IsPricing}
use arkain.B2b.Rows.{PurchaseOrderRow, Tables, Database}
use arkain.B2b.Store.Transition.{IsTransition, transition-IsTransition}
use arkain.B2b.Store.{stamp_submitted, upsert_price_list_entry, create_purchase_order}
use arkain.B2b.Store.WellFormed.{IsWellFormed, AllOrders}
use arkain.B2b.Store.Calls.{
  Call, perform, set_price, create, submit, approve, fulfill, cancel, perform_all,
  perform_all-AllOrders,
}
use arkain.B2b.Store.History.{Continues, perform_all-Continues, perform_all-other_tenants}

abbrev price_of_cup : AccountPriceListEntry
price_of_cup = record {
  account_id = "acme";
  sku = "cup";
  product_name = "Cup";
  unit_price_krw = 1200;
}

abbrev two_cups : PurchaseOrderLineRequest
two_cups = record { sku = "cup"; quantity = 2 }

price_lines_runs :
    price_lines (two_cups ∷ []) (price_of_cup ∷ [])
    ≡ ok (record {
      items =
          record {
            sku = "cup";
            product_name = "Cup";
            quantity = 2;
            unit_price_krw = 1200;
            line_total_krw = 2400;
          }
          ∷ [];
      total_amount_krw = 2400;
    })
unfolding price_lines insert lookup String-discrete
price_lines_runs = refl

price_lines-IsPricing_example :
    IsPricing (price_of_cup ∷ []) (two_cups ∷ []) (price_lines (two_cups ∷ []) (price_of_cup ∷ []))
price_lines-IsPricing_example = price_lines-IsPricing (two_cups ∷ []) (price_of_cup ∷ [])

shop : Tables
shop = record { accounts = text_table _; prices = pair_table _; orders = text_table _ }

empty_shop : Database shop
unfolding shop text_table pair_table
empty_shop = record { accounts = ([], tt); prices = ([], tt); orders = ([], tt) }

abbrev order_two_cups : CreatePurchaseOrderInput
order_two_cups = record {
  tenant_id = "seller";
  account_id = "acme";
  lines = two_cups ∷ [];
  memo = none;
}

abbrev script : List Call
script =
    set_price "seller" price_of_cup
    ∷ create order_two_cups
    ∷ submit 5 "seller" "k"
    ∷ approve 7 "seller" "k"
    ∷ fulfill "seller" "k"
    ∷ []

transition-IsTransition_example :
    IsTransition shop "seller" "k" submitted
      (stamp_submitted 5)
      (perform_all shop script empty_shop)
transition-IsTransition_example =
    transition-IsTransition shop "seller" "k" submitted (stamp_submitted 5)
      (perform_all shop script empty_shop)

empty_shop-AllOrders : AllOrders IsWellFormed shop empty_shop
unfolding empty_shop shop text_table lookup
empty_shop-AllOrders j r h = cc

perform_all-AllOrders_example : AllOrders IsWellFormed shop (perform_all shop script empty_shop)
perform_all-AllOrders_example = perform_all-AllOrders shop script empty_shop empty_shop-AllOrders

abbrev stored : PurchaseOrderRow
stored = record {
  tenant_id = "seller";
  account_id = "acme";
  status = draft;
  total_amount_krw = 2400;
  memo = none;
  submitted_at = none;
  approved_at = none;
  rejected_at = none;
  rejection_reason = none;
  items =
      record {
        sku = "cup";
        product_name = "Cup";
        quantity = 2;
        unit_price_krw = 1200;
        line_total_krw = 2400;
      }
      ∷ [];
}

ordered : Database shop
ordered = perform_all shop (set_price "seller" price_of_cup ∷ create order_two_cups ∷ []) empty_shop

ordered_lem : shop.orders.find "k" ordered.orders ≡ some stored
unfolding ordered empty_shop shop text_table pair_table perform perform_all upsert_price_list_entry
    create_purchase_order price_lines lookup insert String-discrete Pair-discrete
ordered_lem = refl

perform_all-Continues_example :
    (new : PurchaseOrderRow) × (shop.orders.find "k" (perform_all shop script ordered).orders
      ≡ some new)
    × Continues stored new
perform_all-Continues_example = perform_all-Continues shop script ordered "k" stored ordered_lem

abbrev meddling : List Call
meddling = submit 5 "rival" "k" ∷ cancel "rival" "k" ∷ []

different : ◌≢◌ {A = String} "seller" "rival"
different = ground (arith, eq_iff "seller" "rival")

perform_all-other_tenants_example :
    shop.orders.find "k" (perform_all shop meddling ordered).orders ≡ some stored
perform_all-other_tenants_example =
    perform_all-other_tenants shop meddling ordered "k" stored (different, (different, tt))
      ordered_lem
