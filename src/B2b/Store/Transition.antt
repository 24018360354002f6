-- ===== src/B2b/Store/Transition.antt =====
-- What a status change does to the order that it names, and to nothing else.
use arkain.Prelude.{
  String, ◌≡◌, refl, ap, sym, subst, ◌∙◌, if_pos, if_neg, ◌⊎◌, true, false, Option, none, some,
  Result, ok, throw, ite, arith, Bool-cases, inl, inr, if◌then◌else◌, String-discrete,
}
use arkain.Prisma.{select, select_cases, find_first-by_key}
use arkain.B2b.Types.{PurchaseOrderStatus, PurchaseOrder}
use arkain.B2b.Status.{can_transition, assert_transition, invalid_transition}
use arkain.B2b.Rows.{
  PurchaseOrderRow, Tables, Database, StoreError, not_found, invalid, to_purchase_order,
}
use arkain.B2b.Store.{of_tenant, transition}

abbrev pub moved :
    PurchaseOrderStatus
    → (PurchaseOrderRow → PurchaseOrderRow)
    → PurchaseOrderRow
    → PurchaseOrderRow
moved to stamp r = stamp (record r { status = to })

-- What the change answers, and the row afterwards, from the row before.
module _ (id : String) (to : PurchaseOrderStatus)
    (stamp : PurchaseOrderRow → PurchaseOrderRow) where
  abbrev pub outcome :
      Option PurchaseOrderRow
      → Option PurchaseOrderRow
      → Result StoreError PurchaseOrder × Option PurchaseOrderRow
  outcome none before = (throw (not_found id), before)
  outcome (some r) before =
      if can_transition r.status to
      then (ok (to_purchase_order id (moved to stamp r)), some (moved to stamp r))
      else (throw (invalid (invalid_transition r.status to)), before)

module _ (t : Tables) (tenant_id id : String) (to : PurchaseOrderStatus)
    (stamp : PurchaseOrderRow → PurchaseOrderRow) (db : Database t) where
  abbrev pub after : Database t
  after = (transition t tenant_id id to stamp db).1

  abbrev pub expected : Result StoreError PurchaseOrder × Option PurchaseOrderRow
  expected =
      let before = t.orders.find id db.orders in
      outcome id to stamp (select (of_tenant t tenant_id) before) before

  pub record IsTransition : Type 0 where
    pub answer : (transition t tenant_id id to stamp db).0 ≡ expected.0
    pub orders :
        (j : String)
        → t.orders.find j after.orders
          ≡ ite (t.orders.dec id j) expected.1 (t.orders.find j db.orders)
    pub prices : after.prices ≡ db.prices
    pub accounts : after.accounts ≡ db.accounts

  abbrev Rests : Database t → Option PurchaseOrderRow → Type 0
  Rests db' o =
      (j : String)
      → t.orders.find j db'.orders ≡ ite (t.orders.dec id j) o (t.orders.find j db.orders)

  unchanged : Rests db (t.orders.find id db.orders)
  unchanged j = ground arith

  from_equation :
      (a : Result StoreError PurchaseOrder) (db' : Database t)
      → transition t tenant_id id to stamp db ≡ (a, db')
      → a ≡ expected.0
      → Rests db' expected.1
      → db'.prices ≡ db.prices
      → db'.accounts ≡ db.accounts
      → IsTransition
  from_equation a db' e answer orders prices accounts = record {
    answer = ap (λ p. p.0) e ∙ answer;
    orders = λ j. ap (λ p. t.orders.find j p.1.orders) e ∙ orders j;
    prices = ap (λ p. p.1.prices) e ∙ prices;
    accounts = ap (λ p. p.1.accounts) e ∙ accounts;
  }

  -- The row that the `where` of the lookup lets through.
  abbrev visible : Option PurchaseOrderRow
  visible = select (of_tenant t tenant_id) (t.orders.find id db.orders)

  not_visible : visible ≡ none → IsTransition
  not_visible e =
      from_equation (throw (not_found id)) db (unfold transition in rw (find_first-by_key, e))
        (rw e) (rw e unchanged) refl refl

  not_allowed :
      (r : PurchaseOrderRow) → visible ≡ some r → can_transition r.status to ≡ false → IsTransition
  unfolding assert_transition
  not_allowed r e cannot =
      from_equation (throw (invalid (invalid_transition r.status to))) db
        (unfold transition in rw (find_first-by_key, e, cannot)) (rw (e, cannot))
        (rw (e, cannot) unchanged) refl refl

  allowed :
      (r : PurchaseOrderRow)
      → visible ≡ some r
      → t.orders.find id db.orders ≡ some r
      → can_transition r.status to ≡ true
      → IsTransition
  unfolding assert_transition
  allowed r e found can =
      let (orders, update, finds) = t.orders.update-some id (moved to stamp) db.orders r found in
      from_equation (ok (to_purchase_order id (moved to stamp r))) (record db { orders = orders })
        (unfold transition in rw (find_first-by_key, e, can, update)) (rw (e, can))
        (rw (e, can) finds) refl refl

  seen :
      (r : PurchaseOrderRow) → visible ≡ some r → t.orders.find id db.orders ≡ some r → IsTransition
  seen r e found = elim (Bool-cases (can_transition r.status to)) [
    | inl can ↦ allowed r e found can
    | inr cannot ↦ not_allowed r e cannot
  ]

-- A status change finds the order by its id and tenant, checks the move against the table and
-- writes the new status with its time stamps; it answers with the order as written. When the tenant
-- has no such order it throws that it was not found, when the move is not allowed it throws that,
-- and in both cases every order stays as it was. No other order, price or account is touched.
pub transition-IsTransition :
    (t : Tables) (tenant_id id : String) (to : PurchaseOrderStatus)
    (stamp : PurchaseOrderRow → PurchaseOrderRow) (db : Database t)
    → IsTransition t tenant_id id to stamp db
transition-IsTransition t tenant_id id to stamp db =
    elim (select_cases (of_tenant t tenant_id) (t.orders.find id db.orders)) [
      | inl e ↦ not_visible t tenant_id id to stamp db e
      | inr (r, found, passes, e) ↦ seen t tenant_id id to stamp db r e found
    ]

module _ (t : Tables) (tenant_id id : String) (to : PurchaseOrderStatus)
    (stamp : PurchaseOrderRow → PurchaseOrderRow) (db : Database t) where
  -- The order is the one named, it belongs to the tenant, and it was moved.
  pub record WasMoved (j : String) (new : PurchaseOrderRow) : Type 0 where
    pub old : PurchaseOrderRow
    pub named : j ≡ id
    pub held : t.orders.find j db.orders ≡ some old
    pub owned : old.tenant_id ≡ tenant_id
    pub can : can_transition old.status to ≡ true
    pub new_row : new ≡ moved to stamp old

  inverted :
      (o : Option PurchaseOrderRow) (new : PurchaseOrderRow)
      → t.orders.find id db.orders ≡ o
      → (outcome id to stamp (select (of_tenant t tenant_id) o) o).1 ≡ some new
      → (o ≡ some new) ⊎ WasMoved id new
  inverted none new e h = cc
  inverted (some r) new e h = elim (String-discrete r.tenant_id tenant_id) [
    | no other ↦ inl (ground arith)
    | yes own ↦ elim (Bool-cases (can_transition r.status to)) [
      | inr cannot ↦ inl (ground arith)
      | inl can ↦ inr (record {
        old = r;
        named = refl;
        held = e;
        owned = own;
        can = can;
        new_row = ground arith;
      })
    ]
  ]

  -- An order after the change is as it was, or it is the one that was moved.
  pub kept_or_moved :
      (j : String) (new : PurchaseOrderRow)
      → t.orders.find j (after t tenant_id id to stamp db).orders ≡ some new
      → (t.orders.find j db.orders ≡ some new) ⊎ WasMoved j new
  kept_or_moved j new h =
      let e = (transition-IsTransition t tenant_id id to stamp db).orders j in
      elim (t.orders.dec id j) [
        | yes p ↦
            let here = sym (rw (if_pos _ p) at e) ∙ h in
            subst (λ k. (t.orders.find k db.orders ≡ some new) ⊎ WasMoved k new) p
              (inverted (t.orders.find id db.orders) new refl here)
        | no p ↦ inl (sym (rw (if_neg _ p) at e) ∙ h)
      ]
