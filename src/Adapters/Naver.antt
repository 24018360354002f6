-- ===== src/Adapters/Naver.antt =====
-- src/integrations/naver/naver.adapter.ts. `transport` is `NaverHttpClient.request` of a client, and the
-- parsers are the schemas, which throw on a body that does not fit. `iso` is the ISO text of a time.
pub mod Batches
pub mod Client
pub mod Windows
mod Examples
use arkain.Prelude.{
  ℕ, zero, suc, ◌+◌, ◌*◌, min, String, Bool, true, false, Option, none, some, List, [], ◌∷◌, ◌++◌,
  map, Result, ok, throw, if◌then◌else◌, ltb, length, take, String-discrete, holds,
}
use arkain.Prelude.Exec.{Exec, ◌>>=◌, pure, from_result}
use arkain.Marketplace.Types.{
  naver_smartstore, SellerCredential, FetchOrdersParams, FetchOrdersPage, NormalizedOrder,
  NormalizedProduct,
}
use arkain.Marketplace.Grouping.{distinct_from}
use arkain.Marketplace.Naver.{
  ProductOrderDetail, map_product_orders_to_orders, ProductSearchItem,
  map_product_search_to_products,
}
use arkain.Retry.{RaisedError}
use arkain.Adapters.Cursors.{CursorCodec, encode_cursor, decode_cursor, or_first}
use arkain.Adapters.Transport.{
  RequestSpec, Call, get, post, no_body, product_order_ids, search_page, permanent, field, or_else,
  filled, verdict_of, FetchProductsParams, FetchProductsPage,
}

-- 24 hours
abbrev pub max_window_ms : ℕ
max_window_ms = 24 * 60 * 60 * 1000

abbrev pub order_query_batch : ℕ
order_query_batch = 300

abbrev pub default_product_page_size : ℕ
default_product_page_size = 100

pub record NaverAdapterConfig : Type 0 where
  pub base_url : String
  pub client_id : Option String
  pub client_secret : Option String

pub record NaverHttpConfig : Type 0 where
  pub base_url : String
  pub client_id : String
  pub client_secret : String
  pub account_id : Option String

pub record OrderCursor : Type 0 where
  pub from : ℕ
  pub more_sequence : Option String

-- what is read of the answers, after their schemas
pub record LastChangedStatuses : Type 0 where
  pub product_order_ids : List String
  pub more_sequence : Option String

pub record ProductSearch : Type 0 where
  pub items : List ProductSearchItem
  pub total_pages : ℕ

abbrev pub drop {ℓ} : {A : Type ℓ} → ℕ → List A → List A
drop zero xs = xs
drop (suc n) [] = []
drop (suc n) (x ∷ xs) = drop n xs

-- the loop, with as many rounds as there are items, which is enough
unfoldable pub chunk_rounds : {A : Type 0} → ℕ → ℕ → List A → List (List A)
chunk_rounds zero size items = []
chunk_rounds (suc left) size [] = []
chunk_rounds (suc left) size (a ∷ items) =
    take size (a ∷ items) ∷ chunk_rounds left size (drop size (a ∷ items))

unfoldable pub chunk : {A : Type 0} → List A → ℕ → List (List A)
unfolding chunk_rounds
chunk items size = chunk_rounds (length items) size items

abbrev pub checked_client :
    String → Option String → Option String → Option String → Result RaisedError NaverHttpConfig
checked_client base_url (some client_id) (some client_secret) account_id = ok (record {
  base_url = base_url;
  client_id = client_id;
  client_secret = client_secret;
  account_id = account_id;
})
checked_client base_url _ _ account_id = throw (
    permanent naver_smartstore
      "Missing Naver clientId/clientSecret (set app-level config or per-seller credential)")

unfoldable pub client_for :
    NaverAdapterConfig → SellerCredential → Result RaisedError NaverHttpConfig
client_for config cred =
    checked_client config.base_url (filled (or_else (field "clientId" cred) config.client_id))
      (filled (or_else (field "clientSecret" cred) config.client_secret))
      (filled (field "accountId" cred))

-- where the pull goes on: more in the window, or else the next window, or else nowhere
abbrev pub cursor_after : OrderCursor → ℕ → Option String → Option OrderCursor
cursor_after state now_ms (some more) =
    some (record { from = state.from; more_sequence = some more })
cursor_after state now_ms none =
    let to_ms = min (state.from + max_window_ms) now_ms in
    if ltb to_ms now_ms then some (record { from = to_ms; more_sequence = none }) else none

unfoldable pub next_cursor : OrderCursor → ℕ → LastChangedStatuses → Option OrderCursor
next_cursor state now_ms statuses = cursor_after state now_ms (filled statuses.more_sequence)

module _ {W Json : Type 0} (config : NaverAdapterConfig)
    (transport : NaverHttpConfig → RequestSpec → Call W Json)
    (get_token : NaverHttpConfig → Call W String) (iso : ℕ → String)
    (to_iso_string : String → Option String) (order_codec : CursorCodec OrderCursor)
    (page_codec : CursorCodec ℕ) (parse_statuses : Json → Result RaisedError LastChangedStatuses)
    (parse_details : Json → Result RaisedError (List ProductOrderDetail))
    (parse_products : Json → Result RaisedError ProductSearch) where
  unfoldable pub verify_credential : SellerCredential → Call W Bool
  unfolding client_for
  verify_credential cred world =
      verdict_of ((from_result (client_for config cred) >>= get_token) world)

  abbrev pub statuses_request : OrderCursor → ℕ → RequestSpec
  statuses_request state now_ms = record {
    method = get;
    path = "/external/v1/pay-order/seller/product-orders/last-changed-statuses";
    query =
        ("lastChangedFrom", some (iso state.from))
        ∷ ("lastChangedTo", some (iso (min (state.from + max_window_ms) now_ms)))
        ∷ ("moreSequence", state.more_sequence)
        ∷ [];
    body = no_body;
  }

  abbrev pub details_request : List String → RequestSpec
  details_request batch = record {
    method = post;
    path = "/external/v1/pay-order/seller/product-orders/query";
    query = [];
    body = product_order_ids batch;
  }

  -- the loop over the batches
  unfoldable pub fetch_details :
      NaverHttpConfig → List (List String) → List NormalizedOrder → Call W (List NormalizedOrder)
  fetch_details client [] orders = pure orders
  fetch_details client (batch ∷ batches) orders = do
    raw ← transport client (details_request batch)
    details ← from_result (parse_details raw)
    fetch_details client batches (orders ++ map_product_orders_to_orders to_iso_string details)

  abbrev pub first_state : FetchOrdersParams → OrderCursor
  first_state params =
      or_first (decode_cursor order_codec params.cursor)
        (record { from = params.since; more_sequence = none })

  -- with the time that `now()` gives
  unfoldable pub fetch_orders : SellerCredential → FetchOrdersParams → ℕ → Call W FetchOrdersPage
  unfolding client_for fetch_details next_cursor chunk distinct_from
  fetch_orders cred params now_ms = do
    client ← from_result (client_for config cred)
    raw ← transport client (statuses_request (first_state params) now_ms)
    statuses ← from_result (parse_statuses raw)
    orders ←
        fetch_details client (chunk (distinct_from [] statuses.product_order_ids) order_query_batch)
          []
    pure (record {
      orders = orders;
      next_cursor = encode_cursor order_codec (next_cursor (first_state params) now_ms statuses);
    })

  abbrev pub page_of : FetchProductsParams → ℕ
  page_of params = or_first (or_else (decode_cursor page_codec params.cursor) params.page) 1

  unfoldable pub fetch_products : SellerCredential → FetchProductsParams → Call W FetchProductsPage
  unfolding client_for
  fetch_products cred params = do
    client ← from_result (client_for config cred)
    raw ← transport client (record {
      method = post;
      path = "/external/v1/products/search";
      query = [];
      body = search_page (page_of params) (or_first params.page_size default_product_page_size);
    })
    parsed ← from_result (parse_products raw)
    pure (record {
      products = map_product_search_to_products parsed.items;
      next_cursor =
          encode_cursor page_codec
            (if ltb (page_of params) parsed.total_pages then some (page_of params + 1) else none);
    })
