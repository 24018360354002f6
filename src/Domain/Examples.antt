-- ===== src/Domain/Examples.antt =====
-- The theorems on the domain store at work, on a small database in memory.
use arkain.Prelude.{
  ℕ, String, ◌≡◌, ◌≢◌, refl, Option, none, some, List, [], ◌∷◌, arith, String-discrete,
  Pair-discrete,
}
use text.Mathlib.TextEquality.{eq_iff}
use arkain.Prisma.Memory.{made_table}
use arkain.Marketplace.Types.{MarketplaceId-discrete, naver_smartstore, NormalizedOrder}
use arkain.Domain.Status.{delivered}
use arkain.Domain.Store.{
  DomainTables, DomainDb, OrderKey, OrderListFilter, upsert_orders, update_order_status,
  list_orders,
}
use arkain.Domain.Store.Upserts.{IsStored, upsert_orders-IsStored, upsert_orders-other_tenants}
use arkain.Domain.Store.Reads.{IsOrderList, list_orders-IsOrderList}
use arkain.Domain.Store.Edits.{IsStatusUpdate, update_order_status-IsStatusUpdate}

tables : DomainTables
tables = record {
  orders =
      made_table
        (Pair-discrete String-discrete (Pair-discrete MarketplaceId-discrete String-discrete))
        (λ p. p.0) (λ s. (s, (naver_smartstore, s))) (λ s. refl) _;
  products =
      made_table (Pair-discrete String-discrete (Pair-discrete String-discrete String-discrete))
        (λ p. p.0) (λ s. (s, (s, s))) (λ s. refl) _;
  connections =
      made_table (Pair-discrete String-discrete MarketplaceId-discrete) (λ p. p.0)
        (λ s. (s, naver_smartstore)) (λ s. refl) _;
}

empty : DomainDb tables
unfolding tables made_table
empty = record { orders = ([], tt); products = ([], tt); connections = ([], tt) }

abbrev paid_order : NormalizedOrder
paid_order = record {
  marketplace = naver_smartstore;
  marketplace_order_id = "2024-1";
  ordered_at = "2024-01-02T03:04:05Z";
  status = "PAYED";
  buyer_name = some "Kim";
  total_amount_krw = 11000;
  items =
      record {
        marketplace_product_id = "p1";
        product_name = "Cup";
        quantity = 1;
        unit_price_krw = 11000;
      }
      ∷ [];
}

abbrev delivered_order : NormalizedOrder
delivered_order = record paid_order { status = "DELIVERED" }

abbrev pulled : List NormalizedOrder
pulled = paid_order ∷ delivered_order ∷ []

abbrev parse : String → Option ℕ
parse text = some 1704164645000

abbrev key : OrderKey
key = ("seller", (naver_smartstore, "2024-1"))

abbrev rival_key : OrderKey
rival_key = ("rival", (naver_smartstore, "2024-1"))

upsert_orders-IsStored_example : IsStored tables parse "seller" pulled empty
upsert_orders-IsStored_example = upsert_orders-IsStored tables parse "seller" pulled empty

full : DomainDb tables
full = (upsert_orders tables parse "seller" pulled empty).1

different : ◌≢◌ {A = String} "rival" "seller"
different = ground (arith, eq_iff "rival" "seller")

upsert_orders-other_tenants_example :
    tables.orders.find rival_key (upsert_orders tables parse "seller" pulled empty).1.orders
    ≡ tables.orders.find rival_key empty.orders
upsert_orders-other_tenants_example =
    upsert_orders-other_tenants tables parse "seller" pulled empty rival_key different

abbrev filter : OrderListFilter
filter = record { marketplace = none; status = none; limit = some 500; tenant_id = some "seller" }

list_orders-IsOrderList_example : IsOrderList filter (list_orders tables filter full)
list_orders-IsOrderList_example = list_orders-IsOrderList tables filter full

update_order_status-IsStatusUpdate_example :
    IsStatusUpdate tables "seller" key delivered full
      (update_order_status tables "seller" key delivered full)
update_order_status-IsStatusUpdate_example =
    update_order_status-IsStatusUpdate tables "seller" key delivered full
