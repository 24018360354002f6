-- ===== src/Sync/Runs/Audited.antt =====
-- The sync runs in the database are what the engine relies on.
use arkain.Prelude.{
  ℕ, ◌≡◌, ◌≢◌, refl, sym, ap, ◌∙◌, String, Option, none, some, List, ok, arith, ite, if_pos, if_neg,
  subst, Option-cases, inl, inr,
}
use arkain.Prisma.{Table}
use arkain.Marketplace.Types.{MarketplaceId, SellerCredential, NormalizedOrder, FetchOrdersParams}
use arkain.Sync.Engine.{
  SyncStatus, success, failed, SyncRunResult, Call, OrderAdapter, OrderSyncEngineOptions,
}
use arkain.Sync.Audit.{RunState, absent, running, finished, unclean, Audit}
use arkain.Sync.Runs.{
  RunStatus, row_status, keep_if_undefined, is_running, is_success, is_failed, SyncRunRow, World,
  finished_row, get_last_cursor, record_sync_start, record_sync_finish, on_rest, prisma_store,
}

-- What a row says of its run.
abbrev pub state_of : String → RunStatus → ℕ → Option String → Option String → RunState
state_of conn is_running n none none = running conn
state_of conn is_running n none (some e) = unclean
state_of conn is_running n (some c) e = unclean
state_of conn is_success n cursor error =
    finished conn (record { status = success; orders_pulled = n; cursor = cursor; error = error })
state_of conn is_failed n cursor error =
    finished conn (record { status = failed; orders_pulled = n; cursor = cursor; error = error })

unfoldable pub run_state : Option SyncRunRow → RunState
run_state none = absent
run_state (some row) = state_of row.connection_id row.status row.orders_pulled row.cursor row.error

state_of-finished :
    (conn row_conn : String) (status : RunStatus) (n : ℕ) (cursor error : Option String)
    (done : SyncStatus) (pulled : ℕ) (c e : Option String)
    → state_of row_conn status n cursor error ≡ running conn
    → state_of row_conn
        (row_status done)
        pulled
        (keep_if_undefined c cursor)
        (keep_if_undefined e error)
      ≡ finished conn (record { status = done; orders_pulled = pulled; cursor = c; error = e })
state_of-finished conn row_conn is_running n none none done pulled c e h = ground arith
state_of-finished conn row_conn is_running n none (some x) done pulled c e h = cc
state_of-finished conn row_conn is_running n (some y) error done pulled c e h = cc
state_of-finished conn row_conn is_success n cursor error done pulled c e h = cc
state_of-finished conn row_conn is_failed n cursor error done pulled c e h = cc

module _ (t : Table String SyncRunRow) (M : Type 0) where
  abbrev pub runs : String → World t M → RunState
  runs id world = run_state (t.find id world.runs)

  pub start_lem :
      (conn : String) (w : World t M)
      → (id : String) × (w' : World t M) × (record_sync_start t M conn w ≡ (ok id, w'))
        × (runs id w ≡ absent)
        × (runs id w' ≡ running conn)
        × ((j : String) → ◌≢◌ {A = String} j id → runs j w' ≡ runs j w)
  unfolding record_sync_start run_state
  start_lem conn w =
      let row : SyncRunRow = record {
        connection_id = conn;
        started_at = w.clock;
        finished_at = none;
        status = is_running;
        orders_pulled = 0;
        cursor = none;
        error = none;
      } in
      let (id, after) = t.create row w.runs in
      let found : (j : String)
          → t.find j (t.create row w.runs).1 ≡ ite (t.dec id j) (some row) (t.find j w.runs) =
        λ j. t.find-create row w.runs j in
      (
        _,
        _,
        refl,
        ap run_state (t.create_fresh row w.runs),
        ap run_state (found id ∙ if_pos (t.dec id id) refl (some row) (t.find id w.runs)),
        λ j n.
            ap run_state
              (found j ∙ if_neg (t.dec id j) (λ p. n (sym p)) (some row) (t.find j w.runs)),
      )

  pub finish_lem :
      (id conn : String) (r : SyncRunResult) (w : World t M)
      → runs id w ≡ running conn
      → (w' : World t M) × (record_sync_finish t M id r w ≡ (ok tt, w'))
        × (runs id w' ≡ finished conn r)
        × ((j : String) → ◌≢◌ {A = String} j id → runs j w' ≡ runs j w)
  unfolding record_sync_finish run_state
  finish_lem id conn r w h = elim (Option-cases (t.find id w.runs)) [
    | inl missing ↦ absurd (cc (ap run_state missing, h))
    | inr (row, found) ↦
        let new_row = finished_row w.clock r row in
        let (after, written, finds) = t.update-some id (finished_row w.clock r) w.runs row found in
        (
          record w { runs = after },
          rw written refl,
          ap run_state (finds id ∙ if_pos (t.dec id id) refl (some new_row) (t.find id w.runs))
              ∙ state_of-finished conn row.connection_id row.status row.orders_pulled row.cursor
                  row.error r.status r.orders_pulled r.cursor r.error
                  (sym (ap run_state found) ∙ h),
          λ j n.
              ap run_state
                (finds j ∙ if_neg (t.dec id j) (λ p. n (sym p)) (some new_row) (t.find j w.runs)),
        )
  ]

-- What acts on the rest of the world only.
abbrev pub on_rest_adapter :
    (t : Table String SyncRunRow) (M : Type 0)
    → Option (OrderAdapter M)
    → Option (OrderAdapter (World t M))
on_rest_adapter t M none = none
on_rest_adapter t M (some a) =
    some (record { fetch_orders = λ c p. on_rest t M (a.fetch_orders c p) })

abbrev pub on_rest_options :
    (t : Table String SyncRunRow) (M : Type 0)
    → OrderSyncEngineOptions M
    → OrderSyncEngineOptions (World t M)
on_rest_options t M o = record {
  default_since_ms = o.default_since_ms;
  max_pages_per_cycle = o.max_pages_per_cycle;
  now_ms = λ w. w.clock;
  on_error = λ conn e w. record w { rest = o.on_error conn e w.rest };
}

module _ (t : Table String SyncRunRow) (M : Type 0)
    (adapters : MarketplaceId → Option (OrderAdapter M))
    (upsert_orders : List NormalizedOrder → String → Call M ℕ)
    (options : OrderSyncEngineOptions M) where
  unfoldable pub Keeps : Option (OrderAdapter (World t M)) → Type 0
  Keeps none = Unit
  Keeps (some adapter) =
      (c : SellerCredential) (p : FetchOrdersParams) (w : World t M) (j : String)
      → runs t M j (adapter.fetch_orders c p w).1 ≡ runs t M j w

  pub on_rest_adapter-Keeps : (o : Option (OrderAdapter M)) → Keeps (on_rest_adapter t M o)
  unfolding Keeps
  on_rest_adapter-Keeps none = tt
  on_rest_adapter-Keeps (some a) = λ c p w j. refl

  -- With adapters, an `upsertOrders` and an `onError` that leave the sync runs alone, the runs in the
  -- database are the audit that the engine relies on.
  unfoldable pub audited :
      Audit
        (λ m. on_rest_adapter t M (adapters m))
        (prisma_store t M upsert_orders)
        (on_rest_options t M options)
  unfolding prisma_store get_last_cursor Keeps
  audited = record {
    runs = runs t M;
    start = start_lem t M;
    last_cursor = λ conn w. (_, refl);
    finish_running = finish_lem t M;
    upsert_keeps = λ orders tenant_id w j. refl;
    fetch_keeps = λ m adapter known. subst Keeps known (on_rest_adapter-Keeps (adapters m));
    on_error_keeps = λ conn e w j. refl;
  }
