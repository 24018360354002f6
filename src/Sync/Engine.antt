-- ===== src/Sync/Engine.antt =====
-- src/sync/orderSyncEngine.ts: one sync of a connection, and a cycle over all. An error is its
-- message. Store, adapters and `onError` act on one world `W`, which an error leaves as far changed
-- as it got.
use Prim.Native.String.{◌++◌ as text_append}
use arkain.Prelude.{
  ℕ, zero, suc, ◌+◌, ◌-◌, max, String, Bool, false, Option, none, some, List, [], ◌∷◌, Result, ok,
  throw, if◌then◌else◌, length, holds, not, String-discrete,
}
use arkain.Prelude.Exec.{Exec, ◌>>=◌, ◌>>◌}
use arkain.Marketplace.Types.{
  MarketplaceId, SellerCredential, NormalizedOrder, FetchOrdersParams, FetchOrdersPage, id_text,
}

pub record SyncConnection : Type 0 where
  pub id : String
  pub marketplace : MarketplaceId
  pub credential : SellerCredential

pub data SyncStatus : Type 0 where
  success failed : SyncStatus

pub record SyncRunResult : Type 0 where
  pub status : SyncStatus
  pub orders_pulled : ℕ
  pub cursor : Option String
  pub error : Option String

pub record SyncSummary : Type 0 where
  pub connection_id : String
  pub marketplace : MarketplaceId
  pub orders_fetched : ℕ
  pub total_orders : ℕ
  pub status : SyncStatus
  pub error : Option String

abbrev pub Call : Type 0 → Type 0 → Type 0
Call W A = Exec String W A

-- `OrderSyncStore`
pub record OrderSyncStore (W : Type 0) : Type 0 where
  pub get_last_cursor : String → Call W (Option String)
  pub record_sync_start : String → Call W String
  pub record_sync_finish : String → SyncRunResult → Call W (Unit {0})
  pub upsert_orders : List NormalizedOrder → String → Call W ℕ

-- what the engine uses of a `MarketplaceAdapter`
pub record OrderAdapter (W : Type 0) : Type 0 where
  pub fetch_orders : SellerCredential → FetchOrdersParams → Call W FetchOrdersPage

-- `defaultSinceMs`, `maxPagesPerCycle` and `onError`, and the clock that `Date.now()` reads
pub record OrderSyncEngineOptions (W : Type 0) : Type 0 where
  pub default_since_ms : ℕ
  pub max_pages_per_cycle : ℕ
  pub now_ms : W → ℕ
  pub on_error : String → String → W → W

-- The variables of the loop, and what it threw, if it did.
pub record Pull : Type 0 where
  pub cursor : Option String
  pub orders_fetched : ℕ
  pub total_orders : ℕ
  pub thrown : Option String

-- `while (cursor ...)`: no cursor and the empty text are false
unfoldable pub has_cursor : Option String → Bool
has_cursor none = false
has_cursor (some cursor) = not (holds (String-discrete cursor ""))

-- whether the loop has a next page to ask for
unfoldable pub goes_on : Pull → Bool
unfolding has_cursor
goes_on pull = elim pull.thrown [ none ↦ has_cursor pull.cursor | some e ↦ false ]

module _ {W : Type 0} (store : OrderSyncStore W) where
  -- the page's orders are stored before its cursor is taken
  unfoldable pub store_page : String → FetchOrdersPage → Pull → W → Pull × W
  store_page seller_id page pull world = stored (length page.orders)
    where
      fetched : Pull
      fetched = record pull { orders_fetched = pull.orders_fetched + length page.orders }

      upserted : Result String ℕ × W → Pull × W
      upserted (ok total, after) =
          (record fetched { total_orders = total; cursor = page.next_cursor }, after)
      upserted (throw e, after) = (record fetched { thrown = some e }, after)

      stored : ℕ → Pull × W
      stored zero = (record fetched { cursor = page.next_cursor }, world)
      stored (suc _) = upserted (store.upsert_orders page.orders seller_id world)

  module _ (adapter : OrderAdapter W) (credential : SellerCredential) (since : ℕ) where
    -- the body of the loop
    unfoldable pub pull_page : Pull → W → Pull × W
    unfolding store_page
    pull_page pull world =
        fetched
          (adapter.fetch_orders credential (record { since = since; cursor = pull.cursor }) world)
      where
        fetched : Result String FetchOrdersPage × W → Pull × W
        fetched (ok page, after) = store_page credential.seller_id page pull after
        fetched (throw e, after) = (record pull { thrown = some e }, after)

    -- the loop, with the pages that it may still pull
    unfoldable pub pull_pages : ℕ → Pull → W → Pull × W
    unfolding pull_page goes_on
    pull_pages zero pull world = (pull, world)
    pull_pages (suc left) pull world =
        let (next, after) = pull_page pull world in
        let rest = pull_pages left next after in if goes_on next then rest else (next, after)

module _ {W : Type 0} (adapters : MarketplaceId → Option (OrderAdapter W))
    (store : OrderSyncStore W) (options : OrderSyncEngineOptions W) where
  abbrev pub summary : SyncConnection → SyncStatus → Pull → Option String → SyncSummary
  summary conn status pull error = record {
    connection_id = conn.id;
    marketplace = conn.marketplace;
    orders_fetched = pull.orders_fetched;
    total_orders = pull.total_orders;
    status = status;
    error = error;
  }

  -- the `catch` block
  unfoldable pub finish_failed : SyncConnection → String → Pull → String → Call W SyncSummary
  finish_failed conn run_id pull error = do
    store.record_sync_finish run_id (record {
      status = failed;
      orders_pulled = pull.orders_fetched;
      cursor = pull.cursor;
      error = some error;
    })
    (λ world. (ok (summary conn failed pull (some error)), options.on_error conn.id error world))

  -- what follows the loop; a throw of the first `recordSyncFinish` is caught like the loop's
  unfoldable pub finish : SyncConnection → String → Pull → Call W SyncSummary
  unfolding finish_failed
  finish conn run_id pull world = settled pull.thrown
    where
      finished : Result String (Unit {0}) × W → Result String SyncSummary × W
      finished (ok _, after) = (ok (summary conn success pull none), after)
      finished (throw e, after) = finish_failed conn run_id pull e after

      settled : Option String → Result String SyncSummary × W
      settled none = finished (
          store.record_sync_finish run_id
            (record {
              status = success;
              orders_pulled = pull.orders_fetched;
              cursor = pull.cursor;
              error = none;
            })
            world)
      settled (some e) = finish_failed conn run_id pull e world

  -- at least one page is pulled, as the test stands after the body
  unfoldable pub sync_with : OrderAdapter W → SyncConnection → Call W SyncSummary
  unfolding finish pull_pages
  sync_with adapter conn = do
    run_id ← store.record_sync_start conn.id
    since ← (λ world. (ok (options.now_ms world - options.default_since_ms), world))
    cursor ← store.get_last_cursor conn.id
    (λ world.
        let (pull, after) =
          pull_pages store adapter conn.credential since (max 1 options.max_pages_per_cycle)
            (record { cursor = cursor; orders_fetched = 0; total_orders = 0; thrown = none })
            world in
        finish conn run_id pull after)

  abbrev no_adapter : MarketplaceId → String
  no_adapter marketplace =
      text_append "no adapter registered for marketplace \""
        (text_append (id_text marketplace) "\"")

  unfoldable pub sync_connection : SyncConnection → Call W SyncSummary
  unfolding sync_with
  sync_connection conn world = with_adapter (adapters conn.marketplace)
    where
      with_adapter : Option (OrderAdapter W) → Result String SyncSummary × W
      with_adapter none = (
        ok (
            summary conn failed
              (record { cursor = none; orders_fetched = 0; total_orders = 0; thrown = none })
              (some (no_adapter conn.marketplace))),
        options.on_error conn.id (no_adapter conn.marketplace) world,
      )
      with_adapter (some adapter) = sync_with adapter conn world

  -- one after the other; a throw ends the cycle
  unfoldable pub sync_all : List SyncConnection → Call W (List SyncSummary)
  sync_all [] world = (ok [], world)
  sync_all (conn ∷ conns) world =
      let (first, after) = sync_connection conn world in
      let (rest, last) = sync_all conns after in
      elim first [ ok s ↦ (append s rest, last) | throw e ↦ (throw e, after) ]
    where
      append : SyncSummary → Result String (List SyncSummary) → Result String (List SyncSummary)
      append s (ok ss) = ok (s ∷ ss)
      append s (throw e) = throw e
