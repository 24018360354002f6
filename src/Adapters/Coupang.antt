-- ===== src/Adapters/Coupang.antt =====
-- src/integrations/coupang/coupang.adapter.ts and coupang.mapper.ts. `transport` is
-- `CoupangHttpClient.request` of a client, and the parsers are the schemas, which throw on a body that
-- does not fit. `day` is the date of a time, and `to_iso_string` the ISO text of a date, if it is one.
pub mod Client
pub mod Windows
mod Examples
use arkain.Prelude.{
  ℕ, zero, suc, length, ◌||◌, ◌+◌, ◌*◌, min, String, Bool, Option, none, some, List, [], ◌∷◌, ◌++◌,
  map, Result, ok, throw, sum_by, if◌then◌else◌, ltb, String-discrete, holds,
}
use arkain.Prelude.Text.{append}
use arkain.Prelude.Exec.{Exec, ◌>>=◌, pure, from_result}
use arkain.Marketplace.Types.{
  coupang, SellerCredential, FetchOrdersParams, FetchOrdersPage, NormalizedOrder,
  NormalizedOrderItem, NormalizedProduct,
}
use arkain.Retry.{RaisedError}
use arkain.Adapters.Cursors.{CursorCodec, encode_cursor, decode_cursor, or_first}
use arkain.Adapters.Transport.{
  RequestSpec, Call, get, no_body, permanent, field, filled, is_empty, verdict_of,
  FetchProductsParams, FetchProductsPage, or_else, item_at,
}

-- 31 days
abbrev pub max_window_ms : ℕ
max_window_ms = 31 * 24 * 60 * 60 * 1000

abbrev pub order_statuses : List String
order_statuses =
    "ACCEPT" ∷ "INSTRUCT" ∷ "DEPARTURE" ∷ "DELIVERING" ∷ "FINAL_DELIVERY" ∷ "NONE_TRACKING" ∷ []

abbrev pub order_page_size : ℕ
order_page_size = 50

abbrev pub product_page_size : ℕ
product_page_size = 100

pub record OrderCursor : Type 0 where
  pub status_idx : ℕ
  pub from : ℕ
  pub next_token : Option String

pub record CoupangCredential : Type 0 where
  pub vendor_id : String
  pub access_key : String
  pub secret_key : String

-- what is read of the answers, after their schemas
pub record CoupangOrderItem : Type 0 where
  pub vendor_item_id : String
  pub vendor_item_name : String
  pub shipping_count : ℕ
  pub sales_price : Option ℕ
  pub order_price : Option ℕ

pub record CoupangOrderSheet : Type 0 where
  -- as a text
  pub shipment_box_id : String
  pub ordered_at : Option String
  pub paid_at : Option String
  pub status : String
  pub orderer_name : Option String
  pub order_items : List CoupangOrderItem

pub record CoupangOrderSheets : Type 0 where
  pub next_token : Option String
  pub sheets : List CoupangOrderSheet

pub record CoupangSellerProductItem : Type 0 where
  pub vendor_item_id : String
  pub item_name : String
  pub sale_price : Option ℕ
  pub stock_quantity : ℕ
  pub sale_status_name : String

pub record CoupangSellerProduct : Type 0 where
  pub seller_product_id : String
  pub seller_product_name : String
  pub items : List CoupangSellerProductItem

pub record CoupangSellerProducts : Type 0 where
  pub next_token : Option String
  pub rows : List CoupangSellerProduct

unfoldable pub to_iso : (String → Option String) → Option String → String
to_iso to_iso_string none = ""
to_iso to_iso_string (some value) =
    if is_empty value then "" else or_first (to_iso_string value) value

unfoldable pub to_item : CoupangOrderItem → NormalizedOrderItem
to_item item = record {
  marketplace_product_id = item.vendor_item_id;
  product_name = item.vendor_item_name;
  quantity = item.shipping_count;
  unit_price_krw = or_first (or_else item.sales_price item.order_price) 0;
}

unfoldable pub to_order : (String → Option String) → CoupangOrderSheet → NormalizedOrder
unfolding to_iso to_item
to_order to_iso_string sheet = record {
  marketplace = coupang;
  marketplace_order_id = sheet.shipment_box_id;
  ordered_at = to_iso to_iso_string (or_else sheet.paid_at sheet.ordered_at);
  status = sheet.status;
  buyer_name = sheet.orderer_name;
  total_amount_krw = sum_by (λ i. i.unit_price_krw * i.quantity) (map to_item sheet.order_items);
  items = map to_item sheet.order_items;
}

unfoldable pub map_order_sheets_to_orders :
    (String → Option String) → List CoupangOrderSheet → List NormalizedOrder
unfolding to_order
map_order_sheets_to_orders to_iso_string sheets = map (to_order to_iso_string) sheets

unfoldable pub to_product : CoupangSellerProduct → CoupangSellerProductItem → NormalizedProduct
to_product row item = record {
  marketplace = coupang;
  marketplace_product_id = item.vendor_item_id;
  origin_product_id = some row.seller_product_id;
  name = if is_empty item.item_name then row.seller_product_name else item.item_name;
  sale_price_krw = or_first item.sale_price 0;
  stock_quantity = item.stock_quantity;
  status = item.sale_status_name;
}

unfoldable pub map_seller_products_to_products : List CoupangSellerProduct → List NormalizedProduct
unfolding to_product
map_seller_products_to_products [] = []
map_seller_products_to_products (row ∷ rows) =
    map (to_product row) row.items ++ map_seller_products_to_products rows

abbrev pub mapped_token : Option String → Option (Option String)
mapped_token none = none
mapped_token (some token) = some (some token)

abbrev checked_client : CoupangCredential → Result RaisedError CoupangCredential
checked_client cred =
    if is_empty cred.vendor_id || (is_empty cred.access_key || is_empty cred.secret_key)
    then throw (permanent coupang "Missing Coupang vendorId/accessKey/secretKey credential")
    else ok cred

unfoldable pub client_for : SellerCredential → Result RaisedError CoupangCredential
client_for cred = checked_client (record {
  vendor_id = or_first (field "vendorId" cred) "";
  access_key = or_first (field "accessKey" cred) "";
  secret_key = or_first (field "secretKey" cred) "";
})

-- where the pull goes on: more at the status, or the next status, or the next window, or nowhere
abbrev pub cursor_after : OrderCursor → ℕ → Option String → Option OrderCursor
cursor_after state now_ms (some token) =
    some (record { status_idx = state.status_idx; from = state.from; next_token = some token })
cursor_after state now_ms none =
    let to_ms = min (state.from + max_window_ms) now_ms in
    if ltb (state.status_idx + 1) (length order_statuses)
    then some (record { status_idx = state.status_idx + 1; from = state.from; next_token = none })
    else if ltb to_ms now_ms
    then some (record { status_idx = 0; from = to_ms; next_token = none })
    else none

unfoldable pub next_cursor : OrderCursor → ℕ → CoupangOrderSheets → Option OrderCursor
next_cursor state now_ms parsed = cursor_after state now_ms (filled parsed.next_token)

module _ {W Json : Type 0} (transport : CoupangCredential → RequestSpec → Call W Json)
    (day : ℕ → String) (count_text : ℕ → String) (to_iso_string : String → Option String)
    (order_codec : CursorCodec OrderCursor) (token_codec : CursorCodec (Option String))
    (parse_sheets : Json → Result RaisedError CoupangOrderSheets)
    (parse_products : Json → Result RaisedError CoupangSellerProducts) where
  abbrev products_path : String
  products_path = "/v2/providers/seller_api/apis/api/v1/marketplace/seller-products"

  unfoldable pub verify_credential : SellerCredential → Call W Bool
  unfolding client_for
  verify_credential cred world = verdict_of (
      (from_result (client_for cred) >>= λ client. transport client (record {
        method = get;
        path = products_path;
        query = ("vendorId", some client.vendor_id) ∷ ("maxPerPage", some (count_text 1)) ∷ [];
        body = no_body;
      }))
        world)

  abbrev pub sheets_request : CoupangCredential → String → OrderCursor → ℕ → RequestSpec
  sheets_request client status state now_ms = record {
    method = get;
    path =
        append "/v2/providers/openapi/apis/api/v4/vendors/"
          (append client.vendor_id "/ordersheets");
    query =
        ("createdAtFrom", some (day state.from))
        ∷ ("createdAtTo", some (day (min (state.from + max_window_ms) now_ms)))
        ∷ ("status", some status)
        ∷ ("maxPerPage", some (count_text order_page_size))
        ∷ ("nextToken", state.next_token)
        ∷ [];
    body = no_body;
  }

  abbrev pub first_state : FetchOrdersParams → OrderCursor
  first_state params =
      or_first (decode_cursor order_codec params.cursor)
        (record { status_idx = 0; from = params.since; next_token = none })

  abbrev pub fetch_at : CoupangCredential → OrderCursor → ℕ → Option String → Call W FetchOrdersPage
  fetch_at client state now_ms none = pure (record { orders = []; next_cursor = none })
  fetch_at client state now_ms (some status) = do
    raw ← transport client (sheets_request client status state now_ms)
    parsed ← from_result (parse_sheets raw)
    pure (record {
      orders = map_order_sheets_to_orders to_iso_string parsed.sheets;
      next_cursor = encode_cursor order_codec (next_cursor state now_ms parsed);
    })

  -- with the time that `now()` gives
  unfoldable pub fetch_orders : SellerCredential → FetchOrdersParams → ℕ → Call W FetchOrdersPage
  unfolding client_for next_cursor
  fetch_orders cred params now_ms = do
    client ← from_result (client_for cred)
    fetch_at client (first_state params) now_ms
        (item_at order_statuses (first_state params).status_idx)

  unfoldable pub fetch_products : SellerCredential → FetchProductsParams → Call W FetchProductsPage
  unfolding client_for
  fetch_products cred params = do
    client ← from_result (client_for cred)
    raw ← transport client (record {
      method = get;
      path = products_path;
      query =
          ("vendorId", some client.vendor_id)
          ∷ ("maxPerPage", some (count_text (or_first params.page_size product_page_size)))
          ∷ ("nextToken", or_first (decode_cursor token_codec params.cursor) none)
          ∷ [];
      body = no_body;
    })
    parsed ← from_result (parse_products raw)
    pure (record {
      products = map_seller_products_to_products parsed.rows;
      next_cursor = encode_cursor token_codec (mapped_token (filled parsed.next_token));
    })
