-- ===== src/Adapters/Esm.antt =====
-- src/integrations/esm/esm.adapter.ts and esm.mapper.ts. `transport` is `EsmHttpClient.request` of a client
-- for a storefront, and the parsers are the schemas, which throw on a body that does not fit.
-- `utc` are the parts of a time, and `to_iso_string` the ISO text of a date, if it
-- is one, with its space replaced.
pub mod Client
pub mod Windows
mod Examples
use arkain.Prelude.{
  ℕ, zero, suc, length, ◌||◌, ◌&&◌, ◌+◌, ◌*◌, min, String, Bool, true, false, Option, none, some,
  List, [], ◌∷◌, ◌++◌, map, Result, ok, throw, if◌then◌else◌, ltb, leb, ◌==◌,
}
use arkain.Prelude.Exec.{Exec, ◌>>=◌, pure, from_result}
use arkain.Prelude.Text.{append}
use arkain.Marketplace.Types.{
  esm_2_0, SellerCredential, FetchOrdersParams, FetchOrdersPage, NormalizedOrder,
  NormalizedOrderItem, NormalizedProduct,
}
use arkain.Retry.{RaisedError}
use arkain.Adapters.Cursors.{CursorCodec, encode_cursor, decode_cursor, or_first}
use arkain.Adapters.Http.{Utc, pad, decimal}
use arkain.Adapters.Transport.{
  RequestSpec, Call, post, search_page, request_orders, permanent, field, filled, is_empty,
  has_some, verdict_of, FetchProductsParams, FetchProductsPage, or_else, item_at,
}

-- 30 days
abbrev pub max_window_ms : ℕ
max_window_ms = 30 * 24 * 60 * 60 * 1000

abbrev pub order_statuses : List ℕ
order_statuses = 1 ∷ 2 ∷ 3 ∷ 4 ∷ 5 ∷ []

abbrev pub order_page_size : ℕ
order_page_size = 200

abbrev pub product_page_size : ℕ
product_page_size = 200

pub data EsmSite : Type 0 where
  auction gmarket : EsmSite

pub record OrderCursor : Type 0 where
  pub site_idx : ℕ
  pub status_idx : ℕ
  pub from : ℕ
  pub page_index : ℕ

pub record EsmCredential : Type 0 where
  pub master_id : String
  pub secret_key : String
  pub client_domain : String
  pub auction_seller_id : Option String
  pub gmarket_seller_id : Option String

-- what is read of the answers, after their schemas
pub record EsmOrderRow : Type 0 where
  pub order_no : String
  pub order_status : String
  pub order_date : Option String
  pub pay_date : Option String
  pub site_goods_no : String
  pub goods_name : String
  pub sale_price : Option ℕ
  pub contr_amount : ℕ
  pub acnt_money : Option ℕ
  pub buyer_name : Option String

-- a value for each storefront, `gmkt` and `iac`
pub record PerSite (A : Type 0) : Type 0 where
  pub gmkt : Option A
  pub iac : Option A

pub record EsmGoodsRow : Type 0 where
  pub goods_no : String
  pub goods_name : String
  pub price : Option (PerSite ℕ)
  pub stock : Option (PerSite ℕ)
  pub sell_status : Option (PerSite String)
  pub site_goods_no : Option (PerSite String)

pub record EsmGoodsSearch : Type 0 where
  pub total_items : ℕ
  pub items : List EsmGoodsRow

unfoldable pub to_iso : (String → Option String) → Option String → String
to_iso to_iso_string none = ""
to_iso to_iso_string (some value) =
    if is_empty value then "" else or_first (to_iso_string value) value

abbrev pub or_one : ℕ → ℕ
or_one n = if n == 0 then 1 else n

unfoldable pub to_order : (String → Option String) → EsmOrderRow → NormalizedOrder
unfolding to_iso
to_order to_iso_string row = record {
  marketplace = esm_2_0;
  marketplace_order_id = row.order_no;
  ordered_at = to_iso to_iso_string (or_else row.pay_date row.order_date);
  status = row.order_status;
  buyer_name = row.buyer_name;
  total_amount_krw = or_first row.acnt_money (or_first row.sale_price 0 * or_one row.contr_amount);
  items =
      record {
        marketplace_product_id =
            if is_empty row.site_goods_no then row.order_no else row.site_goods_no;
        product_name = row.goods_name;
        quantity = or_one row.contr_amount;
        unit_price_krw = or_first row.sale_price 0;
      }
      ∷ [];
}

unfoldable pub map_order_rows_to_orders :
    (String → Option String) → List EsmOrderRow → List NormalizedOrder
unfolding to_order
map_order_rows_to_orders to_iso_string rows = map (to_order to_iso_string) rows

-- `values?.[key]`
abbrev pub at_site : {A : Type 0} → EsmSite → Option (PerSite A) → Option A
at_site site none = none
at_site gmarket (some values) = values.gmkt
at_site auction (some values) = values.iac

-- the listing of a row at a storefront, if it has one
abbrev pub listing : EsmGoodsRow → EsmSite → Option String → List NormalizedProduct
listing item site none = []
listing item site (some site_goods_no) =
    record {
      marketplace = esm_2_0;
      marketplace_product_id = site_goods_no;
      origin_product_id = some item.goods_no;
      name = item.goods_name;
      sale_price_krw = or_first (at_site site item.price) 0;
      stock_quantity = or_first (at_site site item.stock) 0;
      status = or_first (at_site site item.sell_status) "UNKNOWN";
    }
    ∷ []

unfoldable pub map_goods_search_to_products : List EsmGoodsRow → List NormalizedProduct
map_goods_search_to_products [] = []
map_goods_search_to_products (item ∷ rest) =
    listing item gmarket (filled (at_site gmarket item.site_goods_no))
    ++ (listing item auction (filled (at_site auction item.site_goods_no))
        ++ map_goods_search_to_products rest)

abbrev checked_client : EsmCredential → Result RaisedError EsmCredential
checked_client cred =
    if is_empty cred.master_id || (is_empty cred.secret_key || is_empty cred.client_domain)
    then throw (permanent esm_2_0 "Missing ESM 2.0 masterId/secretKey/clientDomain credential")
    else if has_some (filled cred.auction_seller_id) || has_some (filled cred.gmarket_seller_id)
    then ok cred
    else throw (
        permanent esm_2_0
          "ESM 2.0 credential needs at least one of auctionSellerId/gmarketSellerId")

unfoldable pub client_for : SellerCredential → Result RaisedError EsmCredential
client_for cred = checked_client (record {
  master_id = or_first (field "masterId" cred) "";
  secret_key = or_first (field "secretKey" cred) "";
  client_domain = or_first (field "clientDomain" cred) "";
  auction_seller_id = field "auctionSellerId" cred;
  gmarket_seller_id = field "gmarketSellerId" cred;
})

-- the storefronts of a credential, in this order
unfoldable pub sites_for : SellerCredential → List EsmSite
sites_for cred =
    (if has_some (filled (field "gmarketSellerId" cred)) then gmarket ∷ [] else [])
    ++ (if has_some (filled (field "auctionSellerId" cred)) then auction ∷ [] else [])

-- where the pull goes on: the next page, or the next status, or the next storefront, or the next
-- window, or nowhere; `sites` is the number of storefronts and `rows` that of the rows of the page
unfoldable pub next_cursor : ℕ → OrderCursor → ℕ → ℕ → Option OrderCursor
next_cursor sites state now_ms rows =
    let to_ms = min (state.from + max_window_ms) now_ms in
    if leb order_page_size rows
    then some (record state { page_index = state.page_index + 1 })
    else if ltb (state.status_idx + 1) (length order_statuses)
    then some (record {
      site_idx = state.site_idx;
      status_idx = state.status_idx + 1;
      from = state.from;
      page_index = 1;
    })
    else if ltb (state.site_idx + 1) sites
    then some (record {
      site_idx = state.site_idx + 1;
      status_idx = 0;
      from = state.from;
      page_index = 1;
    })
    else if ltb to_ms now_ms
    then some (record { site_idx = 0; status_idx = 0; from = to_ms; page_index = 1 })
    else none

abbrev pub site_type : EsmSite → ℕ
site_type auction = 1
site_type gmarket = 2

-- `YYYY-MM-DD hh:mm`, with the digits of UTC
unfoldable pub format_esm_date : (ℕ → Utc) → ℕ → String
unfolding pad decimal
format_esm_date utc ms =
    let d = utc ms in
    append (decimal d.full_year) (
      append "-" (
        append (pad (d.month + 1)) (
          append "-" (
            append (pad d.date) (append " " (append (pad d.hours) (append ":" (pad d.minutes))))))))

unfoldable pub orders_request : (ℕ → Utc) → EsmSite → OrderCursor → ℕ → RequestSpec
unfolding format_esm_date
orders_request utc site state now_ms = record {
  method = post;
  path = "/shipping/v1/Order/RequestOrders";
  query = [];
  body =
      request_orders (site_type site) (or_first (item_at order_statuses state.status_idx) 0)
        (format_esm_date utc state.from)
        (format_esm_date utc (min (state.from + max_window_ms) now_ms)) state.page_index
        order_page_size;
}

module _ {W Json : Type 0} (transport : EsmCredential → EsmSite → RequestSpec → Call W Json)
    (utc : ℕ → Utc) (to_iso_string : String → Option String) (order_codec : CursorCodec OrderCursor)
    (page_codec : CursorCodec ℕ) (parse_orders : Json → Result RaisedError (List EsmOrderRow))
    (parse_goods : Json → Result RaisedError EsmGoodsSearch) where
  abbrev pub search_request : ℕ → ℕ → RequestSpec
  search_request page size = record {
    method = post;
    path = "/item/v1/goods/search";
    query = [];
    body = search_page page size;
  }

  abbrev verify_at : EsmCredential → Option EsmSite → Call W Bool
  verify_at client none = pure false
  verify_at client (some site) = transport client site (search_request 1 1) >>= λ _. pure true

  abbrev answer_of : Result RaisedError Bool × W → Result RaisedError Bool × W
  answer_of (ok b, world) = (ok b, world)
  answer_of (throw e, world) = verdict_of {A = Bool} (throw e, world)

  unfoldable pub verify_credential : SellerCredential → Call W Bool
  unfolding client_for sites_for
  verify_credential cred world = answer_of (
      (from_result (client_for cred) >>= λ client. verify_at client (item_at (sites_for cred) 0))
        world)

  abbrev pub first_state : FetchOrdersParams → OrderCursor
  first_state params =
      or_first (decode_cursor order_codec params.cursor)
        (record { site_idx = 0; status_idx = 0; from = params.since; page_index = 1 })

  abbrev pub fetch_at :
      EsmCredential → ℕ → OrderCursor → ℕ → Option EsmSite → Call W FetchOrdersPage
  fetch_at client sites state now_ms none = pure (record { orders = []; next_cursor = none })
  fetch_at client sites state now_ms (some site) = do
    raw ← transport client site (orders_request utc site state now_ms)
    rows ← from_result (parse_orders raw)
    pure (record {
      orders = map_order_rows_to_orders to_iso_string rows;
      next_cursor = encode_cursor order_codec (next_cursor sites state now_ms (length rows));
    })

  abbrev pub fetch_sites :
      List EsmSite → SellerCredential → FetchOrdersParams → ℕ → Call W FetchOrdersPage
  fetch_sites [] cred params now_ms = pure (record { orders = []; next_cursor = none })
  fetch_sites (s ∷ sites) cred params now_ms = do
    client ← from_result (client_for cred)
    fetch_at client (length (s ∷ sites)) (first_state params) now_ms
        (item_at (s ∷ sites) (first_state params).site_idx)

  -- with the time that `now()` gives
  unfoldable pub fetch_orders : SellerCredential → FetchOrdersParams → ℕ → Call W FetchOrdersPage
  unfolding client_for next_cursor sites_for orders_request
  fetch_orders cred = fetch_sites (sites_for cred) cred

  abbrev pub page_of : FetchProductsParams → ℕ
  page_of params = or_first (or_else (decode_cursor page_codec params.cursor) params.page) 1

  abbrev pub size_of : FetchProductsParams → ℕ
  size_of params = or_first params.page_size product_page_size

  abbrev pub products_at :
      Option EsmSite → SellerCredential → FetchProductsParams → Call W FetchProductsPage
  products_at none cred params = pure (record { products = []; next_cursor = none })
  products_at (some site) cred params = do
    client ← from_result (client_for cred)
    raw ← transport client site (search_request (page_of params) (size_of params))
    parsed ← from_result (parse_goods raw)
    pure (record {
      products = map_goods_search_to_products parsed.items;
      next_cursor = encode_cursor page_codec (
          if ltb (page_of params * size_of params) parsed.total_items
          then some (page_of params + 1)
          else none);
    })

  unfoldable pub fetch_products : SellerCredential → FetchProductsParams → Call W FetchProductsPage
  unfolding client_for sites_for
  fetch_products cred = products_at (item_at (sites_for cred) 0) cred
