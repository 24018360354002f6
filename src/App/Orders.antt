-- ===== src/App/Orders.antt =====
-- src/app.ts: the orders of a seller and the products that a seller enters. An order is named by its
-- unique columns. `auth` is absent where the application has no sessions; the store is there. Of a
-- query and a body, `number` reads the whole numbers that are not negative.
pub mod Owner
use arkain.Prelude.{
  ℕ, String, Bool, true, false, Option, none, some, List, [], ◌∷◌, Result, ok, throw, ltb,
  String-discrete, if◌then◌else◌,
}
use arkain.Prelude.Dict.{lookup}
use arkain.Prelude.Text.{append}
use arkain.Marketplace.Types.{MarketplaceId, naver_smartstore, coupang, eleven_st, gsshop}
use arkain.Domain.Status.{
  UnifiedOrderStatus, pending, paid, dispatched, delivered, confirmed, cancelled, returned,
  exchanged, mixed, unknown,
}
use arkain.Domain.Rows.{ProductRow}
use arkain.Domain.Store.{
  DomainTables, DomainDb, DomainError, OrderKey, OrderDetail, OrderListItem, OrderListFilter,
  get_order_by_id, update_order_status, list_orders, create_manual_product,
}
use arkain.Auth.Session.{UriError}
use arkain.App.Reply.{Reply, answered, refused, crashed, Value, TypeError, trimmed}
use arkain.App.Accounts.{AuthDeps, session_of}

abbrev pub valid_statuses : List (String × UnifiedOrderStatus)
valid_statuses =
    ("PENDING", pending)
    ∷ ("PAID", paid)
    ∷ ("DISPATCHED", dispatched)
    ∷ ("DELIVERED", delivered)
    ∷ ("CONFIRMED", confirmed)
    ∷ ("CANCELLED", cancelled)
    ∷ ("RETURNED", returned)
    ∷ ("EXCHANGED", exchanged)
    ∷ ("MIXED", mixed)
    ∷ ("UNKNOWN", unknown)
    ∷ []

abbrev pub valid_marketplaces : List (String × MarketplaceId)
valid_marketplaces =
    ("naver_smartstore", naver_smartstore)
    ∷ ("coupang", coupang)
    ∷ ("eleven_st", eleven_st)
    ∷ ("gsshop", gsshop)
    ∷ []

-- the parameters of a query that are texts
pub record OrderQuery : Type 0 where
  pub marketplace : Option String
  pub status : Option String
  pub limit : Option String

-- what a table gives for a text that is there
unfoldable pub listed_as : {A : Type 0} → List (String × A) → Option String → Option A
listed_as entries none = none
listed_as entries (some text) = lookup String-discrete text entries

abbrev pub positive : Option ℕ → Option ℕ
positive none = none
positive (some n) = if ltb 0 n then some n else none

abbrev pub number_of : (String → Option ℕ) → Option String → Option ℕ
number_of number none = none
number_of number (some text) = number text

unfoldable pub parse_order_filter : (String → Option ℕ) → OrderQuery → OrderListFilter
unfolding listed_as
parse_order_filter number query = record {
  marketplace = listed_as valid_marketplaces query.marketplace;
  status = listed_as valid_statuses query.status;
  limit = positive (number_of number query.limit);
  tenant_id = none;
}

-- A finite number of a body: whole, or below 0. A fraction, which the columns do not take, is left out.
pub data Amount : Type 0 where
  whole_amount : ℕ → Amount
  below_zero : Amount

-- `{ name, salePriceKrw, stockQuantity }`
pub record ProductBody : Type 0 where
  pub name : Value
  pub sale_price_krw : Option Amount
  pub stock_quantity : Option Amount

abbrev pub no_session : String
no_session = "로그인이 필요합니다"

-- what a handler does for the seller of the session
abbrev pub for_session :
    {A : Type 0} → Result UriError (Option String) → (String → Reply A) → Reply A
for_session (throw e) act = crashed
for_session (ok none) act = refused 401 no_session
for_session (ok (some seller_id)) act = act seller_id

module _ (t : DomainTables) where
  abbrev pub Handler : Type 0 → Type 0
  Handler A = DomainDb t → Reply A × DomainDb t

  -- the same of a handler that writes
  abbrev pub for_seller :
      {A : Type 0} → Result UriError (Option String) → (String → Handler A) → Handler A
  for_seller (throw e) act db = (crashed, db)
  for_seller (ok none) act db = (refused 401 no_session, db)
  for_seller (ok (some seller_id)) act db = act seller_id db

  -- `GET /api/orders`
  unfoldable pub get_orders :
      Option AuthDeps
      → (String → Option ℕ)
      → OrderQuery
      → Option String
      → DomainDb t
      → Reply (List OrderListItem)
  unfolding parse_order_filter
  get_orders none number query cookie db =
      answered (list_orders t (parse_order_filter number query) db)
  get_orders (some deps) number query cookie db = for_session (session_of deps cookie) (λ seller_id.
      answered (
        list_orders t (record (parse_order_filter number query) { tenant_id = some seller_id }) db))

  -- an order, or none
  abbrev pub found_order :
      Result DomainError (Option OrderDetail) × DomainDb t → Reply OrderDetail × DomainDb t
  found_order (throw e, db) = (crashed, db)
  found_order (ok none, db) = (refused 404 "주문을 찾을 수 없습니다", db)
  found_order (ok (some order), db) = (answered order, db)

  -- `GET /api/orders/:id`
  unfoldable pub get_order : Option AuthDeps → Option String → OrderKey → Handler OrderDetail
  get_order none cookie id db =
      (refused 503 "주문 상세가 아직 설정되지 않았습니다 (DATABASE_URL/SESSION_SECRET 미설정)", db)
  get_order (some deps) cookie id db =
      for_seller (session_of deps cookie)
        (λ seller_id db'. found_order (get_order_by_id t seller_id id db')) db

  abbrev pub patched : OrderKey → Option UnifiedOrderStatus → String → Handler OrderDetail
  patched id none seller_id db = (refused 400 "유효하지 않은 status 값입니다", db)
  patched id (some status) seller_id db = found_order (update_order_status t seller_id id status db)

  -- `PATCH /api/orders/:id`, with the status of the body where it is a text
  unfoldable pub patch_order :
      Option AuthDeps → Option String → OrderKey → Option String → Handler OrderDetail
  unfolding listed_as
  patch_order none cookie id status db =
      (refused 503 "주문 상태 변경이 아직 설정되지 않았습니다 (DATABASE_URL/SESSION_SECRET 미설정)", db)
  patch_order (some deps) cookie id status db =
      for_seller (session_of deps cookie) (patched id (listed_as valid_statuses status)) db

  abbrev pub product_made :
      Result DomainError ProductRow × DomainDb t → Reply ProductRow × DomainDb t
  product_made (throw e, db) = (crashed, db)
  product_made (ok product, db) = (answered product, db)

  abbrev pub priced : ℕ → String → String → Amount → Amount → String → Handler ProductRow
  priced now_ms product_id name (whole_amount price) (whole_amount stock) seller_id db =
      product_made (create_manual_product t seller_id now_ms product_id name price stock db)
  priced now_ms product_id name _ _ seller_id db =
      (refused 400 "salePriceKrw and stockQuantity must not be negative", db)

  abbrev pub entered :
      ℕ
      → String
      → Result TypeError (Option String)
      → Option Amount
      → Option Amount
      → String
      → Handler ProductRow
  entered now_ms product_id (throw e) price stock seller_id db = (crashed, db)
  entered now_ms product_id (ok (some name)) (some price) (some stock) seller_id db =
      priced now_ms product_id name price stock seller_id db
  entered now_ms product_id _ _ _ seller_id db =
      (refused 400 "name, salePriceKrw, stockQuantity are required", db)

  -- `POST /api/products`
  unfoldable pub post_product :
      Option AuthDeps → Option String → ℕ → String → ProductBody → Handler ProductRow
  post_product none cookie now_ms product_id body db =
      (refused 503 "상품등록이 아직 설정되지 않았습니다 (DATABASE_URL/SESSION_SECRET 미설정)", db)
  post_product (some deps) cookie now_ms product_id body db =
      for_seller (session_of deps cookie)
        (entered now_ms product_id (trimmed (λ text. text) body.name) body.sale_price_krw
          body.stock_quantity)
        db
