-- ===== src/Domain/Store/Edits.antt =====
-- A seller's change of an order's status.
use arkain.Prelude.{
  ◌≡◌, refl, ap, ◌∙◌, String, true, Option, none, some, ok, ite, if_pos, arith, inl, inr, Result,
}
use arkain.Prisma.{select, select_cases, find_first-by_key}
use arkain.Domain.Status.{UnifiedOrderStatus}
use arkain.Domain.Store.{
  OrderRow, OrderKey, OrderDetail, DomainTables, DomainDb, DomainError, to_detail, is_of,
  get_order_by_id, update_order_status,
}

module _ (t : DomainTables) (tenant_id : String) (id : OrderKey) (status : UnifiedOrderStatus)
    (db : DomainDb t) where
  abbrev restated : OrderRow → OrderRow
  restated row = record row { status = status }

  -- The order that the tenant has under the id.
  abbrev own : Option OrderRow
  own = select (λ _. is_of tenant_id id.0) (t.orders.find id db.orders)

  abbrev answer : Option OrderRow → Option OrderDetail
  answer none = none
  answer (some row) = some (to_detail id (restated row))

  abbrev new_row : Option OrderRow → Option OrderRow
  new_row none = t.orders.find id db.orders
  new_row (some row) = some (restated row)

  pub record IsStatusUpdate (o : Result DomainError (Option OrderDetail) × DomainDb t)
      : Type 0 where
    pub answered : o.0 ≡ ok (answer own)
    pub orders :
        (j : OrderKey)
        → t.orders.find j o.1.orders
          ≡ ite (t.orders.dec id j) (new_row own) (t.orders.find j db.orders)
    pub products : o.1.products ≡ db.products
    pub connections : o.1.connections ≡ db.connections

  from_equation :
      (a : Option OrderDetail) (after : t.orders.Db)
      → update_order_status t tenant_id id status db ≡ (ok a, record db { orders = after })
      → a ≡ answer own
      → ((j : OrderKey)
          → t.orders.find j after
            ≡ ite (t.orders.dec id j) (new_row own) (t.orders.find j db.orders))
      → IsStatusUpdate (update_order_status t tenant_id id status db)
  from_equation a after e answered orders = record {
    answered = ap (λ p. p.0) e ∙ ap ok answered;
    orders = λ j. ap (λ p. t.orders.find j p.1.orders) e ∙ orders j;
    products = ap (λ p. p.1.products) e;
    connections = ap (λ p. p.1.connections) e;
  }

  same :
      (j : OrderKey)
      → t.orders.find j db.orders
        ≡ ite (t.orders.dec id j) (t.orders.find id db.orders) (t.orders.find j db.orders)
  same j = ground arith

  absent_lem : own ≡ none → IsStatusUpdate (update_order_status t tenant_id id status db)
  absent_lem e =
      from_equation none db.orders (unfold update_order_status in rw (find_first-by_key, e)) (rw e)
        (rw e same)

  get_lem :
      (db' : DomainDb t) (row : OrderRow)
      → t.orders.find id db'.orders ≡ some row
      → is_of tenant_id id.0 ≡ true
      → get_order_by_id t tenant_id id db' ≡ (ok (some (to_detail id row)), db')
  unfolding get_order_by_id
  get_lem db' row found mine = rw (find_first-by_key, found, mine)

  present_lem :
      (row : OrderRow)
      → t.orders.find id db.orders ≡ some row
      → is_of tenant_id id.0 ≡ true
      → own ≡ some row
      → IsStatusUpdate (update_order_status t tenant_id id status db)
  present_lem row found mine e =
      let (after, update, finds) = t.orders.update-some id restated db.orders row found in
      let now =
        finds id
        ∙ if_pos (t.orders.dec id id) refl (some (restated row)) (t.orders.find id db.orders) in
      from_equation (some (to_detail id (restated row))) after
        (unfold update_order_status in
          rw (find_first-by_key, e, update)
            (get_lem (record db { orders = after }) (restated row) now mine))
        (rw e) (rw e finds)

-- A seller's change of a status: when the order is the tenant's own, its status alone is changed and
-- the order is shown as it is then; when it is not there or another tenant's, nothing is shown and
-- every order is as it was.
pub update_order_status-IsStatusUpdate :
    (t : DomainTables) (tenant_id : String) (id : OrderKey) (status : UnifiedOrderStatus)
    (db : DomainDb t)
    → IsStatusUpdate t tenant_id id status db (update_order_status t tenant_id id status db)
update_order_status-IsStatusUpdate t tenant_id id status db =
    elim (select_cases (λ _. is_of tenant_id id.0) (t.orders.find id db.orders)) [
      | inl e ↦ absent_lem t tenant_id id status db e
      | inr (row, found, mine, e) ↦ present_lem t tenant_id id status db row found mine e
    ]
