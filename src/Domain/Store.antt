-- ===== src/Domain/Store.antt =====
-- src/domain/repository.ts: the orders, products and connections of `PrismaDomainStore` (its sync runs
-- are in Sync/Runs). An order's `id` is its unique key here. A call takes the database and gives
-- it back beside its result.
pub mod Upserts
pub mod Reads
pub mod Edits
use arkain.Prelude.{
  ℕ, zero, ◌+◌, min, String, Bool, true, false, ◌&&◌, Option, none, some, List, [], ◌∷◌, map,
  Result, ok, throw, holds, String-discrete, if◌then◌else◌, ltb, leb, length, take,
}
use arkain.Prelude.Exec.{Exec}
use arkain.Prisma.{Table, by_key}
use arkain.Marketplace.Types.{
  MarketplaceId, MarketplaceId-discrete, NormalizedOrder, NormalizedProduct, id_text,
}
use arkain.Domain.Status.{UnifiedOrderStatus, UnifiedProductStatus, on_sale, out_of_stock}
use arkain.Domain.Rows.{
  OrderItemRow, OrderScalarFields, to_order_scalar_fields, to_order_items_create, ProductRow,
  to_product_upsert_input,
}

pub record OrderRow : Type 0 where
  pub status : UnifiedOrderStatus
  pub raw_status : String
  pub ordered_at : ℕ
  pub buyer_name : Option String
  pub total_amount_krw : ℕ
  pub items : List OrderItemRow

-- tenantId, marketplace and marketplaceOrderId
abbrev pub OrderKey : Type 0
OrderKey = String × (MarketplaceId × String)

-- tenantId, marketplace (a text, as it may be "direct") and marketplaceProductId
abbrev pub ProductKey : Type 0
ProductKey = String × (String × String)

pub record ConnectionRow : Type 0 where
  pub ciphertext : String
  pub key_version : ℕ
  pub is_active : Bool

pub record DomainTables : Type 1 where
  pub orders : Table OrderKey OrderRow
  pub products : Table ProductKey ProductRow
  -- unique on (sellerId, marketplace)
  pub connections : Table (String × MarketplaceId) ConnectionRow

pub record DomainDb (t : DomainTables) : Type 0 where
  pub orders : t.orders.Db
  pub products : t.products.Db
  pub connections : t.connections.Db

-- `OrderListItem`, and `OrderDetail` with the items
pub record OrderListItem : Type 0 where
  pub id : OrderKey
  pub marketplace : MarketplaceId
  pub marketplace_order_id : String
  pub status : UnifiedOrderStatus
  pub raw_status : String
  pub ordered_at : ℕ
  pub buyer_name : Option String
  pub total_amount_krw : ℕ
  pub item_count : ℕ

pub record OrderDetail : Type 0 where
  pub order : OrderListItem
  pub items : List OrderItemRow

pub record OrderListFilter : Type 0 where
  pub marketplace : Option MarketplaceId
  pub status : Option UnifiedOrderStatus
  pub limit : Option ℕ
  pub tenant_id : Option String

unfoldable pub to_list_item : OrderKey → OrderRow → OrderListItem
to_list_item key row = record {
  id = key;
  marketplace = key.1.0;
  marketplace_order_id = key.1.1;
  status = row.status;
  raw_status = row.raw_status;
  ordered_at = row.ordered_at;
  buyer_name = row.buyer_name;
  total_amount_krw = row.total_amount_krw;
  item_count = length row.items;
}

abbrev pub to_detail : OrderKey → OrderRow → OrderDetail
to_detail key row = record { order = to_list_item key row; items = row.items }

pub data DomainError : Type 0 where
  -- the database refuses a date that is none
  invalid_date : DomainError
  record_missing : DomainError
  -- `create` of a key that is there
  unique_violation : DomainError

abbrev pub order_key : NormalizedOrder → String → OrderKey
order_key order tenant_id = (tenant_id, (order.marketplace, order.marketplace_order_id))

-- the row that both branches of the upsert leave
unfoldable pub order_row : (String → Option ℕ) → NormalizedOrder → String → Option OrderRow
order_row parse_date order tenant_id =
    let fields = to_order_scalar_fields parse_date order tenant_id in
    elim fields.ordered_at [
      | none ↦ none
      | some ordered_at ↦ some (record {
        status = fields.status;
        raw_status = fields.raw_status;
        ordered_at = ordered_at;
        buyer_name = fields.buyer_name;
        total_amount_krw = fields.total_amount_krw;
        items = to_order_items_create order;
      })
    ]

abbrev pub is_of : String → String → Bool
is_of tenant_id owner = holds (String-discrete owner tenant_id)

module _ (t : DomainTables) where
  abbrev pub Action : Type 0 → Type 0
  Action A = Exec DomainError (DomainDb t) A

  module _ (parse_date : String → Option ℕ) (tenant_id : String) where
    -- the loop; an order that the database refuses ends it
    unfoldable pub upsert_each :
        List NormalizedOrder → t.orders.Db → Result DomainError (Unit {0}) × t.orders.Db
    upsert_each [] orders = (ok tt, orders)
    upsert_each (order ∷ rest) orders = elim (order_row parse_date order tenant_id) [
      | none ↦ (throw invalid_date, orders)
      | some row ↦
          upsert_each rest (t.orders.upsert (order_key order tenant_id) row (λ _. row) orders)
    ]

    unfoldable pub count_orders : t.orders.Db → ℕ
    count_orders orders = length (t.orders.find_many (λ key _. is_of tenant_id key.0) orders)

    unfoldable pub upsert_orders : List NormalizedOrder → Action ℕ
    unfolding upsert_each count_orders
    upsert_orders orders db = counted (upsert_each orders db.orders)
      where
        counted : Result DomainError (Unit {0}) × t.orders.Db → Result DomainError ℕ × DomainDb t
        counted (ok _, after) = (ok (count_orders after), record db { orders = after })
        counted (throw e, after) = (throw e, record db { orders = after })

  module _ (tenant_id : String) where
    -- the loop; `now_ms` is the time that the database gives a new row
    unfoldable pub upsert_each_product : ℕ → List NormalizedProduct → t.products.Db → t.products.Db
    upsert_each_product now_ms [] products = products
    upsert_each_product now_ms (product ∷ rest) products = upsert_each_product now_ms rest (
        t.products.upsert (tenant_id, (id_text product.marketplace, product.marketplace_product_id))
          (to_product_upsert_input product now_ms)
          (λ old. to_product_upsert_input product old.created_at) products)

    unfoldable pub upsert_products : ℕ → List NormalizedProduct → Action ℕ
    unfolding upsert_each_product
    upsert_products now_ms products db =
        let after = upsert_each_product now_ms products db.products in
        (
          ok (length (t.products.find_many (λ key _. is_of tenant_id key.0) after)),
          record db { products = after },
        )

    unfoldable pub get_order_by_id : OrderKey → Action (Option OrderDetail)
    get_order_by_id id db = (
      ok (detail (t.orders.find_first (by_key t.orders id (λ _. is_of tenant_id id.0)) db.orders)),
      db,
    )
      where
        detail : Option (OrderKey × OrderRow) → Option OrderDetail
        detail none = none
        detail (some (key, row)) = some (to_detail key row)

    unfoldable pub update_order_status : OrderKey → UnifiedOrderStatus → Action (Option OrderDetail)
    unfolding get_order_by_id
    update_order_status id status db =
        checked (t.orders.find_first (by_key t.orders id (λ _. is_of tenant_id id.0)) db.orders)
      where
        written :
            Option (OrderRow × t.orders.Db) → Result DomainError (Option OrderDetail) × DomainDb t
        written none = (throw record_missing, db)
        written (some (_, after)) = get_order_by_id id (record db { orders = after })

        checked :
            Option (OrderKey × OrderRow) → Result DomainError (Option OrderDetail) × DomainDb t
        checked none = (ok none, db)
        checked (some _) =
            written (t.orders.update id (λ row. record row { status = status }) db.orders)

    unfoldable pub upsert_connection : MarketplaceId → String → ℕ → Action (String × MarketplaceId)
    upsert_connection marketplace ciphertext key_version db =
        let row : ConnectionRow = record {
          ciphertext = ciphertext;
          key_version = key_version;
          is_active = true;
        } in
        (
          ok (tenant_id, marketplace),
          record db {
            connections =
                t.connections.upsert (tenant_id, marketplace) row (λ _. row) db.connections;
          },
        )

    -- `product_id` is the made UUID
    unfoldable pub create_manual_product : ℕ → String → String → ℕ → ℕ → Action ProductRow
    create_manual_product now_ms product_id name sale_price_krw stock_quantity db =
        let row : ProductRow = record {
          origin_product_id = none;
          name = name;
          sale_price_krw = sale_price_krw;
          stock_quantity = stock_quantity;
          status = if ltb 0 stock_quantity then on_sale else out_of_stock;
          raw_status = "MANUAL";
          created_at = now_ms;
        } in
        elim (t.products.find (tenant_id, ("direct", product_id)) db.products) [
          | some _ ↦ (throw unique_violation, db)
          | none ↦ (
            ok row,
            record db {
              products =
                  t.products.upsert (tenant_id, ("direct", product_id)) row (λ old. old)
                    db.products;
            },
          )
        ]

  -- Connections that are active, with their keys.
  unfoldable pub list_active_connections :
      DomainDb t → List ((String × MarketplaceId) × ConnectionRow)
  list_active_connections db = t.connections.find_many (λ _ row. row.is_active) db.connections

-- `orderBy: { orderedAt: "desc" }`
unfoldable pub put_by_date :
    OrderKey × OrderRow → List (OrderKey × OrderRow) → List (OrderKey × OrderRow)
put_by_date e [] = e ∷ []
put_by_date e (f ∷ rest) =
    let further = put_by_date e rest in
    if leb f.1.ordered_at e.1.ordered_at then e ∷ f ∷ rest else f ∷ further

unfoldable pub newest_first : List (OrderKey × OrderRow) → List (OrderKey × OrderRow)
unfolding put_by_date
newest_first [] = []
newest_first (e ∷ rest) = put_by_date e (newest_first rest)

unfoldable pub UnifiedOrderStatus-discrete : Discrete UnifiedOrderStatus
UnifiedOrderStatus-discrete = hlevel

-- a condition of a `where` that is left out when it is undefined
abbrev pub given {ℓ} : {A : Type ℓ} → Discrete A → Option A → A → Bool
given dec none a = true
given dec (some b) a = holds (dec a b)

unfoldable pub shown_by : OrderListFilter → OrderKey → OrderRow → Bool
unfolding UnifiedOrderStatus-discrete
shown_by filter key row =
    given String-discrete filter.tenant_id key.0
    && (given MarketplaceId-discrete filter.marketplace key.1.0
        && given UnifiedOrderStatus-discrete filter.status row.status)

unfoldable pub page_limit : Option ℕ → ℕ
page_limit none = min 50 200
page_limit (some limit) = min limit 200

unfoldable pub list_orders : (t : DomainTables) → OrderListFilter → DomainDb t → List OrderListItem
unfolding newest_first shown_by page_limit
list_orders t filter db =
    map (λ e. to_list_item e.0 e.1)
      (take (page_limit filter.limit)
        (newest_first (t.orders.find_many (shown_by filter) db.orders)))
