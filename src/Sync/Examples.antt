-- ===== src/Sync/Examples.antt =====
-- The theorems on the poll loop at work, on one shop whose marketplace answers with a page and then
-- fails.
use arkain.Prelude.{
  ℕ, ◌+◌, String, ◌≡◌, true, none, some, List, [], ◌∷◌, Option, ok, throw, Result, refl,
  if◌then◌else◌, ◌==◌,
}
use arkain.Prelude.Exec.{Exec}
use arkain.Prisma.Memory.{text_table}
use arkain.Marketplace.Types.{
  MarketplaceId, naver_smartstore, NormalizedOrder, SellerCredential, FetchOrdersParams,
  FetchOrdersPage,
}
use arkain.Sync.Engine.{SyncConnection, OrderAdapter, OrderSyncEngineOptions}
use arkain.Sync.Audit.{Synced, sync_connection-Synced}
use arkain.Sync.Runs.{SyncRunRow, World, prisma_store}
use arkain.Sync.Runs.Audited.{on_rest_adapter, on_rest_options, audited}
use arkain.Sync.Scheduler.{
  Scheduler, start_scheduler, Exclusive, ticks, done, further, tick, settle, stop, Steps-Exclusive,
  Steps-stopped,
}

abbrev order : NormalizedOrder
order = record {
  marketplace = naver_smartstore;
  marketplace_order_id = "2024-1";
  ordered_at = "2024-01-02T03:04:05Z";
  status = "PAYED";
  buyer_name = none;
  total_amount_krw = 11000;
  items = [];
}

-- The world counts the pages that were asked for: the first is full, the others fail.
abbrev fetch : SellerCredential → FetchOrdersParams → ℕ → Result String FetchOrdersPage × ℕ
fetch credential params asked =
    if asked == 0
    then (ok (record { orders = order ∷ []; next_cursor = some "more" }), 1)
    else (throw "429", asked + 1)

abbrev shop_adapters : MarketplaceId → Option (OrderAdapter ℕ)
shop_adapters naver_smartstore = some (record { fetch_orders = fetch })
shop_adapters _ = none

abbrev shop_options : OrderSyncEngineOptions ℕ
shop_options = record {
  default_since_ms = 1209600000;
  max_pages_per_cycle = 50;
  now_ms = λ w. 0;
  on_error = λ conn e w. w;
}

abbrev shop_upsert : List NormalizedOrder → String → Exec String ℕ ℕ
shop_upsert orders tenant_id w = (ok 1, w)

abbrev connection : SyncConnection
connection = record {
  id = "c1";
  marketplace = naver_smartstore;
  credential = record { seller_id = "seller"; marketplace = naver_smartstore; secret = [] };
}

first_world : World (text_table SyncRunRow) ℕ
unfolding text_table
first_world = record { runs = ([], tt); clock = 1700000000000; rest = 0 }

sync_connection-Synced_example :
    Synced
      (λ m. on_rest_adapter (text_table SyncRunRow) ℕ (shop_adapters m))
      (prisma_store (text_table SyncRunRow) ℕ shop_upsert)
      (on_rest_options (text_table SyncRunRow) ℕ shop_options)
      (audited (text_table SyncRunRow) ℕ shop_adapters shop_upsert shop_options)
      connection
      first_world
sync_connection-Synced_example =
    sync_connection-Synced (λ m. on_rest_adapter (text_table SyncRunRow) ℕ (shop_adapters m))
      (prisma_store (text_table SyncRunRow) ℕ shop_upsert)
      (on_rest_options (text_table SyncRunRow) ℕ shop_options)
      (audited (text_table SyncRunRow) ℕ shop_adapters shop_upsert shop_options) connection
      first_world

abbrev once : Scheduler
once = tick start_scheduler

abbrev closed : Scheduler
closed = stop (settle once 0)

Steps-Exclusive_example : Exclusive (tick once)
Steps-Exclusive_example = Steps-Exclusive (tick once) (
    further start_scheduler once (tick once) (ticks start_scheduler)
      (further once (tick once) (tick once) (ticks once) (done (tick once))))

Steps-stopped_example : ((tick closed).stopped ≡ true) × ((tick closed).started ≡ closed.started)
Steps-stopped_example =
    Steps-stopped closed (tick closed)
      (further closed (tick closed) (tick closed) (ticks closed) (done (tick closed)))
      (unfold stop in refl)
