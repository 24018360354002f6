-- ===== src/Sync/Audit.antt =====
-- Every sync leaves one finished run, which says what the summary says.
use arkain.Prelude.{
  ℕ, zero, suc, ◌-◌, max, String, ◌≡◌, ◌≢◌, refl, sym, ap, ◌∙◌, Option, none, some, List, Result,
  ok, length, ◌⊎◌, inl, inr, Option-cases, Bool-cases,
}
use arkain.Prelude.Exec.{Exec-cases}
use arkain.Marketplace.Types.{
  MarketplaceId, SellerCredential, NormalizedOrder, FetchOrdersParams, FetchOrdersPage,
}
use arkain.Sync.Engine.{
  SyncConnection, success, failed, SyncRunResult, SyncSummary, OrderSyncStore, OrderAdapter,
  OrderSyncEngineOptions, Pull, goes_on, store_page, pull_page, pull_pages, summary, finish_failed,
  finish, sync_with, sync_connection,
}

-- What the audit rows say of a run.
pub data RunState : Type 0 where
  absent : RunState
  running : String → RunState
  finished : String → SyncRunResult → RunState
  -- of a row that runs and has a cursor or an error already, which the engine never leaves
  unclean : RunState

-- What the engine relies on: the store's runs, each started under a new id and finished when it
-- runs, which nothing else changes.
pub record Audit {W : Type 0} (adapters : MarketplaceId → Option (OrderAdapter W))
    (store : OrderSyncStore W) (options : OrderSyncEngineOptions W) : Type 0 where
  pub runs : String → W → RunState
  pub start :
      (conn : String) (w : W)
      → (id : String) × (w' : W) × (store.record_sync_start conn w ≡ (ok id, w'))
        × (runs id w ≡ absent)
        × (runs id w' ≡ running conn)
        × ((j : String) → ◌≢◌ {A = String} j id → runs j w' ≡ runs j w)
  pub last_cursor :
      (conn : String) (w : W)
      → (cursor : Option String) × (store.get_last_cursor conn w ≡ (ok cursor, w))
  pub finish_running :
      (id conn : String) (r : SyncRunResult) (w : W)
      → runs id w ≡ running conn
      → (w' : W) × (store.record_sync_finish id r w ≡ (ok tt, w'))
        × (runs id w' ≡ finished conn r)
        × ((j : String) → ◌≢◌ {A = String} j id → runs j w' ≡ runs j w)
  pub upsert_keeps :
      (orders : List NormalizedOrder) (tenant_id : String) (w : W) (j : String)
      → runs j (store.upsert_orders orders tenant_id w).1 ≡ runs j w
  pub fetch_keeps :
      (m : MarketplaceId) (adapter : OrderAdapter W)
      → adapters m ≡ some adapter
      → (c : SellerCredential) (p : FetchOrdersParams) (w : W) (j : String)
      → runs j (adapter.fetch_orders c p w).1 ≡ runs j w
  pub on_error_keeps :
      (conn e : String) (w : W) (j : String) → runs j (options.on_error conn e w) ≡ runs j w

module _ {W : Type 0} (adapters : MarketplaceId → Option (OrderAdapter W))
    (store : OrderSyncStore W) (options : OrderSyncEngineOptions W)
    (audit : Audit adapters store options) where
  store_page-runs :
      (seller_id : String) (page : FetchOrdersPage) (pull : Pull) (w : W) (j : String)
      → audit.runs j (store_page store seller_id page pull w).1 ≡ audit.runs j w
  unfolding store_page
  store_page-runs seller_id page pull w j = after_storing (length page.orders) refl
    where
      after_storing :
          (n : ℕ)
          → length page.orders ≡ n
          → audit.runs j (store_page store seller_id page pull w).1 ≡ audit.runs j w
      after_storing zero e = rw e refl
      after_storing (suc n) e =
          rw e (elim (Exec-cases (store.upsert_orders page.orders seller_id w)) [
            | inl (total, after, u) ↦
                rw u (
                  ap (λ p. audit.runs j p.1) (sym u) ∙ audit.upsert_keeps page.orders seller_id w j)
            | inr (err, after, u) ↦
                rw u (
                  ap (λ p. audit.runs j p.1) (sym u) ∙ audit.upsert_keeps page.orders seller_id w j)
          ])

  module _ (m : MarketplaceId) (adapter : OrderAdapter W) (known : adapters m ≡ some adapter)
      (credential : SellerCredential) (since : ℕ) where
    pull_page-runs :
        (pull : Pull) (w : W) (j : String)
        → audit.runs j (pull_page store adapter credential since pull w).1 ≡ audit.runs j w
    unfolding pull_page
    pull_page-runs pull w j =
        let asked : FetchOrdersParams = record { since = since; cursor = pull.cursor } in
        elim (Exec-cases (adapter.fetch_orders credential asked w)) [
          | inl (page, after, e) ↦ rw e (
              store_page-runs credential.seller_id page pull after j
              ∙ (ap (λ p. audit.runs j p.1) (sym e)
                  ∙ audit.fetch_keeps m adapter known credential asked w j))
          | inr (err, after, e) ↦ rw e (
              ap (λ p. audit.runs j p.1) (sym e)
              ∙ audit.fetch_keeps m adapter known credential asked w j)
        ]

    pull_pages-runs :
        (left : ℕ) (pull : Pull) (w : W) (j : String)
        → audit.runs j (pull_pages store adapter credential since left pull w).1 ≡ audit.runs j w
    unfolding pull_pages
    pull_pages-runs zero pull w j = refl
    pull_pages-runs (suc left) pull w j =
        let (next, after) = pull_page store adapter credential since pull w in
        let rest = pull_pages-runs left next after j in
        elim (Bool-cases (goes_on next)) [
          | inl e ↦ rw e (rest ∙ pull_page-runs pull w j)
          | inr e ↦ rw e (pull_page-runs pull w j)
        ]

  -- The end of a sync: the run is finished and the summary says of it what its row says.
  pub record IsFinished (conn : SyncConnection) (id : String) (w : W)
      (o : Result String SyncSummary × W) : Type 0 where
    pub said : SyncSummary
    pub result : SyncRunResult
    pub returns : o.0 ≡ ok said
    pub recorded : audit.runs id o.1 ≡ finished conn.id result
    pub same_status : result.status ≡ said.status
    pub same_orders : result.orders_pulled ≡ said.orders_fetched
    pub same_error : result.error ≡ said.error
    pub same_connection : (said.connection_id ≡ conn.id) × (said.marketplace ≡ conn.marketplace)
    pub others : (j : String) → ◌≢◌ {A = String} j id → audit.runs j o.1 ≡ audit.runs j w

  finish_failed-IsFinished :
      (conn : SyncConnection) (id : String) (pull : Pull) (e : String) (w : W)
      → audit.runs id w ≡ running conn.id
      → IsFinished conn id w (finish_failed adapters store options conn id pull e w)
  unfolding finish_failed
  finish_failed-IsFinished conn id pull e w h =
      let result : SyncRunResult = record {
        status = failed;
        orders_pulled = pull.orders_fetched;
        cursor = pull.cursor;
        error = some e;
      } in
      let (after, done, now_finished, others) = audit.finish_running id conn.id result w h in
      rw done (record {
        said = summary adapters store options conn failed pull (some e);
        result = result;
        returns = refl;
        recorded = audit.on_error_keeps conn.id e after id ∙ now_finished;
        same_status = refl;
        same_orders = refl;
        same_error = refl;
        same_connection = (refl, refl);
        others = λ j n. audit.on_error_keeps conn.id e after j ∙ others j n;
      })

  finish-IsFinished :
      (conn : SyncConnection) (id : String) (pull : Pull) (w : W)
      → audit.runs id w ≡ running conn.id
      → IsFinished conn id w (finish adapters store options conn id pull w)
  unfolding finish
  finish-IsFinished conn id pull w h = elim (Option-cases pull.thrown) [
    | inr (e, thrown) ↦ rw thrown (finish_failed-IsFinished conn id pull e w h)
    | inl calm ↦
        let result : SyncRunResult = record {
          status = success;
          orders_pulled = pull.orders_fetched;
          cursor = pull.cursor;
          error = none;
        } in
        let (after, done, now_finished, others) = audit.finish_running id conn.id result w h in
        rw (calm, done)
          (record {
            said = summary adapters store options conn success pull none;
            result = result;
            returns = refl;
            recorded = now_finished;
            same_status = refl;
            same_orders = refl;
            same_error = refl;
            same_connection = (refl, refl);
            others = others;
          })
  ]

  -- A sync that left one run, which was not there before.
  pub record IsSynced (conn : SyncConnection) (w : W) (o : Result String SyncSummary × W)
      : Type 0 where
    pub run_id : String
    pub fresh : audit.runs run_id w ≡ absent
    pub finished_run : IsFinished conn run_id w o

  from_before :
      (conn : SyncConnection) (id : String) (w w' : W) (o : Result String SyncSummary × W)
      → ((j : String) → ◌≢◌ {A = String} j id → audit.runs j w' ≡ audit.runs j w)
      → IsFinished conn id w' o
      → IsFinished conn id w o
  from_before conn id w w' o same h = record {
    said = h.said;
    result = h.result;
    returns = h.returns;
    recorded = h.recorded;
    same_status = h.same_status;
    same_orders = h.same_orders;
    same_error = h.same_error;
    same_connection = h.same_connection;
    others = λ j n. h.others j n ∙ same j n;
  }

  sync_with-IsSynced :
      (conn : SyncConnection) (adapter : OrderAdapter W) (w : W)
      → adapters conn.marketplace ≡ some adapter
      → IsSynced conn w (sync_with adapters store options adapter conn w)
  unfolding sync_with
  sync_with-IsSynced conn adapter w known =
      let (id, w', started, fresh, runs_now, others) = audit.start conn.id w in
      let (cursor, read) = audit.last_cursor conn.id w' in
      let since = options.now_ms w' - options.default_since_ms in
      let begin : Pull = record {
        cursor = cursor;
        orders_fetched = 0;
        total_orders = 0;
        thrown = none;
      } in
      let pages = max 1 options.max_pages_per_cycle in
      let pulled = pull_pages store adapter conn.credential since pages begin w' in
      let keeps =
        pull_pages-runs conn.marketplace adapter known conn.credential since pages begin w' in
      record {
        run_id = id;
        fresh = fresh;
        finished_run =
            rw (started, read)
              (from_before conn id w pulled.1
                (finish adapters store options conn id pulled.0 pulled.1)
                (λ j n. keeps j ∙ others j n)
                (finish-IsFinished conn id pulled.0 pulled.1 (keeps id ∙ runs_now)));
      }

-- What a sync of a connection comes to: with no adapter for its marketplace it fails and no run
-- changes, and with one it leaves one run.
abbrev pub Synced :
    {W : Type 0} (adapters : MarketplaceId → Option (OrderAdapter W)) (store : OrderSyncStore W)
    (options : OrderSyncEngineOptions W)
    → Audit adapters store options
    → SyncConnection
    → W
    → Type 0
Synced adapters store options audit conn w =
    ((adapters conn.marketplace ≡ none)
      × (said : SyncSummary) × ((sync_connection adapters store options conn w).0 ≡ ok said)
      × (said.status ≡ failed)
      × ((j : String)
          → audit.runs j (sync_connection adapters store options conn w).1 ≡ audit.runs j w))
    ⊎ IsSynced adapters store options audit conn w (sync_connection adapters store options conn w)

-- However the adapter and the storing of its orders fail, and whatever they return: a sync returns a
-- summary. With an adapter it leaves exactly one more run, under an id that had none, finished with
-- the status, the number of orders and the error of the summary, and changes no other run. With no
-- adapter for the marketplace the summary says failed and no run changes.
pub sync_connection-Synced :
    {W : Type 0} (adapters : MarketplaceId → Option (OrderAdapter W)) (store : OrderSyncStore W)
    (options : OrderSyncEngineOptions W) (audit : Audit adapters store options)
    (conn : SyncConnection) (w : W)
    → Synced adapters store options audit conn w
unfolding sync_connection
sync_connection-Synced adapters store options audit conn w =
    elim (Option-cases (adapters conn.marketplace)) [
      | inl missing ↦
          inl (rw missing (refl, _, refl, refl, λ j. audit.on_error_keeps conn.id _ w j))
      | inr (adapter, known) ↦
          inr (rw known (sync_with-IsSynced adapters store options audit conn adapter w known))
    ]
