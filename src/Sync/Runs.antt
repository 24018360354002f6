-- ===== src/Sync/Runs.antt =====
-- src/domain/repository.ts: the sync runs in the database, through which the engine resumes, as the
-- store that the engine is given. `rest` is the other state that a sync touches: the orders and the
-- marketplaces.
pub mod Audited
use arkain.Prelude.{
  ℕ, ◌≡◌, ◌≢◌, refl, sym, ap, ◌∙◌, String, Bool, true, false, ◌&&◌, Option, none, some, List, [],
  ◌∷◌, Result, ok, throw, if◌then◌else◌, ltb, holds, String-discrete, if_pos, if_neg, Option-cases,
  inl, inr,
}
use arkain.Prelude.Exec.{Exec}
use arkain.Prisma.{Table}
use arkain.Marketplace.Types.{
  MarketplaceId, SellerCredential, NormalizedOrder, FetchOrdersParams, FetchOrdersPage,
}
use arkain.Sync.Engine.{
  SyncStatus, success, failed, SyncRunResult, Call, OrderSyncStore, OrderAdapter,
  OrderSyncEngineOptions,
}

pub data RunStatus : Type 0 where
  is_running is_success is_failed : RunStatus

pub record SyncRunRow : Type 0 where
  pub connection_id : String
  pub started_at : ℕ
  pub finished_at : Option ℕ
  pub status : RunStatus
  pub orders_pulled : ℕ
  pub cursor : Option String
  pub error : Option String

pub record World (t : Table String SyncRunRow) (M : Type 0) : Type 0 where
  pub runs : t.Db
  pub clock : ℕ
  pub rest : M

abbrev pub row_status : SyncStatus → RunStatus
row_status success = is_success
row_status failed = is_failed

-- a field that `update` is given as `undefined` stays as it is
abbrev pub keep_if_undefined {ℓ} : {A : Type ℓ} → Option A → Option A → Option A
keep_if_undefined none old = old
keep_if_undefined (some a) old = some a

abbrev pub is_success_of : String → SyncRunRow → Bool
is_success_of conn row = holds (String-discrete row.connection_id conn) && succeeded row.status
  where
    succeeded : RunStatus → Bool
    succeeded is_success = true
    succeeded _ = false

-- `orderBy: { startedAt: "desc" }`: the row with the latest start, the first one of equal starts
unfoldable pub latest_start : Option SyncRunRow → List (String × SyncRunRow) → Option SyncRunRow
latest_start best [] = best
latest_start none ((_, row) ∷ rows) = latest_start (some row) rows
latest_start (some best) ((_, row) ∷ rows) =
    latest_start (some (if ltb best.started_at row.started_at then row else best)) rows

abbrev pub cursor_of : Option SyncRunRow → Option String
cursor_of none = none
cursor_of (some row) = row.cursor

abbrev pub finished_row : ℕ → SyncRunResult → SyncRunRow → SyncRunRow
finished_row now_ms result row = record {
  connection_id = row.connection_id;
  started_at = row.started_at;
  finished_at = some now_ms;
  status = row_status result.status;
  orders_pulled = result.orders_pulled;
  cursor = keep_if_undefined result.cursor row.cursor;
  error = keep_if_undefined result.error row.error;
}

module _ (t : Table String SyncRunRow) (M : Type 0) where
  unfoldable pub get_last_cursor : String → Call (World t M) (Option String)
  unfolding latest_start
  get_last_cursor conn world = (
    ok (cursor_of (latest_start none (t.find_many (λ _ row. is_success_of conn row) world.runs))),
    world,
  )

  unfoldable pub record_sync_start : String → Call (World t M) String
  record_sync_start conn world =
      let (id, runs) =
        t.create
          (record {
            connection_id = conn;
            started_at = world.clock;
            finished_at = none;
            status = is_running;
            orders_pulled = 0;
            cursor = none;
            error = none;
          })
          world.runs in
      (ok id, record world { runs = runs })

  unfoldable pub record_sync_finish : String → SyncRunResult → Call (World t M) (Unit {0})
  record_sync_finish run_id result world =
      written (t.update run_id (finished_row world.clock result) world.runs)
    where
      written : Option (SyncRunRow × t.Db) → Result String (Unit {0}) × World t M
      written none = (throw "record to update not found", world)
      written (some (_, runs)) = (ok tt, record world { runs = runs })

  -- an action on the rest of the world
  abbrev pub on_rest : {A : Type 0} → Exec String M A → Call (World t M) A
  on_rest action world = let (r, rest) = action world.rest in (r, record world { rest = rest })

  unfoldable pub prisma_store :
      (List NormalizedOrder → String → Exec String M ℕ) → OrderSyncStore (World t M)
  prisma_store upsert_orders = record {
    get_last_cursor = get_last_cursor;
    record_sync_start = record_sync_start;
    record_sync_finish = record_sync_finish;
    upsert_orders = λ orders tenant_id. on_rest (upsert_orders orders tenant_id);
  }
