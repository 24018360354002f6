-- ===== src/Domain/Store/Upserts.antt =====
-- What pulled orders leave in the database.
use arkain.Prelude.{
  ◌≡◌, ◌≢◌, refl, sym, ap, ◌∙◌, String, Option, none, some, List, [], ◌∷◌, ok, ite, if_neg, arith,
  Option-cases, inl, inr, ℕ,
}
use arkain.Prelude.Exec.{Exec-cases}
use arkain.Marketplace.Types.{NormalizedOrder}
use arkain.Domain.Rows.{to_order_scalar_fields}
use arkain.Domain.Store.{
  OrderRow, OrderKey, DomainTables, DomainDb, order_key, order_row, upsert_each, upsert_orders,
  count_orders,
}

abbrev pub or_else {ℓ} : {A : Type ℓ} → Option A → Option A → Option A
or_else none b = b
or_else (some a) b = some a

module _ (parse_date : String → Option ℕ) (tenant_id : String) where
  -- The orders before the first one that has no date.
  abbrev pub dated : List NormalizedOrder → List NormalizedOrder
  dated [] = []
  dated (order ∷ rest) = elim (order_row parse_date order tenant_id) [
    | none ↦ []
    | some row ↦ order ∷ dated rest
  ]

  -- The row of the last order of the list that has the key.
  abbrev pub last_row : Discrete OrderKey → List NormalizedOrder → OrderKey → Option OrderRow
  last_row dec [] key = none
  last_row dec (order ∷ rest) key =
      or_else (last_row dec rest key)
        (ite (dec (order_key order tenant_id) key) (order_row parse_date order tenant_id) none)

  module _ (t : DomainTables) where
    find-upsert_each :
        (orders : List NormalizedOrder) (db : t.orders.Db) (key : OrderKey)
        → t.orders.find key (upsert_each t parse_date tenant_id orders db).1
          ≡ or_else (last_row t.orders.dec (dated orders) key) (t.orders.find key db)
    unfolding upsert_each order_row to_order_scalar_fields
    find-upsert_each [] db key = refl
    find-upsert_each (order ∷ rest) db key =
        elim (Option-cases (order_row parse_date order tenant_id)) [
          | inl undated ↦ rw undated refl
          | inr (row, made) ↦ rw made (
              ground (
                arith,
                made,
                find-upsert_each rest
                    (t.orders.upsert (order_key order tenant_id) row (λ _. row) db) key,
                t.orders.find-upsert (order_key order tenant_id) row (λ _. row) db key,
              ))
        ]

    upsert_each-ok :
        (orders : List NormalizedOrder) (db : t.orders.Db)
        → dated orders ≡ orders
        → (upsert_each t parse_date tenant_id orders db).0 ≡ ok tt
    unfolding upsert_each order_row to_order_scalar_fields
    upsert_each-ok [] db h = refl
    upsert_each-ok (order ∷ rest) db h =
        elim (Option-cases (order_row parse_date order tenant_id)) [
          | inl undated ↦ absurd (cc (rw undated at h))
          | inr (row, made) ↦ rw made (
              upsert_each-ok rest (t.orders.upsert (order_key order tenant_id) row (λ _. row) db)
                (tails order (dated rest) rest (rw made at h)))
        ]
      where
        tails : (o : NormalizedOrder) (xs ys : List NormalizedOrder) → o ∷ xs ≡ o ∷ ys → xs ≡ ys
        tails o xs ys e = cc

    upsert_orders-at :
        (orders : List NormalizedOrder) (db : DomainDb t)
        → (upsert_orders t parse_date tenant_id orders db).1
          ≡ record db { orders = (upsert_each t parse_date tenant_id orders db.orders).1 }
    unfolding upsert_orders
    upsert_orders-at orders db =
        elim (Exec-cases (upsert_each t parse_date tenant_id orders db.orders)) [
          | inl (_, after, e) ↦ rw e refl
          | inr (_, after, e) ↦ rw e refl
        ]

    upsert_orders-ok :
        (orders : List NormalizedOrder) (db : DomainDb t)
        → dated orders ≡ orders
        → (upsert_orders t parse_date tenant_id orders db).0
          ≡ ok (
              count_orders t parse_date tenant_id
                (upsert_each t parse_date tenant_id orders db.orders).1)
    unfolding upsert_orders
    upsert_orders-ok orders db h =
        elim (Exec-cases (upsert_each t parse_date tenant_id orders db.orders)) [
          | inl (_, after, e) ↦ rw e refl
          | inr (_, after, e) ↦ cc (ap (λ p. p.0) e, upsert_each-ok orders db.orders h)
        ]

    find_after :
        (orders : List NormalizedOrder) (db : DomainDb t) (key : OrderKey)
        → t.orders.find key (upsert_orders t parse_date tenant_id orders db).1.orders
          ≡ or_else (last_row t.orders.dec (dated orders) key) (t.orders.find key db.orders)
    find_after orders db key =
        ap (λ d. t.orders.find key d.orders) (upsert_orders-at orders db)
        ∙ find-upsert_each orders db.orders key

    last_row-other :
        (orders : List NormalizedOrder) (key : OrderKey)
        → key.0 ≢ tenant_id
        → last_row t.orders.dec orders key ≡ none
    last_row-other [] key n = refl
    last_row-other (order ∷ rest) key n = rw (last_row-other rest key n) (
        if_neg (t.orders.dec (order_key order tenant_id) key) (λ p. n (sym (ap (λ k. k.0) p)))
          (order_row parse_date order tenant_id) none)

or_else-twice : {A : Type 0} (a b : Option A) → or_else a (or_else a b) ≡ or_else a b
or_else-twice none b = refl
or_else-twice (some a) b = refl

-- What storing a page of orders comes to.
pub record IsStored (t : DomainTables) (parse_date : String → Option ℕ) (tenant_id : String)
    (orders : List NormalizedOrder) (db : DomainDb t) : Type 0 where
  pub stored :
      (key : OrderKey)
      → t.orders.find key (upsert_orders t parse_date tenant_id orders db).1.orders
        ≡ or_else
            (last_row parse_date tenant_id t.orders.dec (dated parse_date tenant_id orders) key)
            (t.orders.find key db.orders)
  pub counted :
      dated parse_date tenant_id orders ≡ orders
      → (upsert_orders t parse_date tenant_id orders db).0
        ≡ ok (
            count_orders t parse_date tenant_id
              (upsert_orders t parse_date tenant_id orders db).1.orders)
  pub products : (upsert_orders t parse_date tenant_id orders db).1.products ≡ db.products
  pub connections : (upsert_orders t parse_date tenant_id orders db).1.connections ≡ db.connections

-- After a page of orders is stored, each key has the row of the last order of the page with that key,
-- its items replaced and not added to, and a key that no order of the page has keeps its row. An
-- order whose date cannot be read ends the storing, with the orders before it stored; without one
-- the answer is the number of the tenant's orders after it. Products and connections stay.
pub upsert_orders-IsStored :
    (t : DomainTables) (parse_date : String → Option ℕ) (tenant_id : String)
    (orders : List NormalizedOrder) (db : DomainDb t)
    → IsStored t parse_date tenant_id orders db
upsert_orders-IsStored t parse_date tenant_id orders db =
    let at_end = upsert_orders-at parse_date tenant_id t orders db in
    record {
      stored = find_after parse_date tenant_id t orders db;
      counted = λ h.
          upsert_orders-ok parse_date tenant_id t orders db h
          ∙ ap (λ d. ok (count_orders t parse_date tenant_id d.orders)) (sym at_end);
      products = ap (λ d. d.products) at_end;
      connections = ap (λ d. d.connections) at_end;
    }

-- Storing the same page again, as after a crash, changes the row of no key.
pub upsert_orders-again :
    (t : DomainTables) (parse_date : String → Option ℕ) (tenant_id : String)
    (orders : List NormalizedOrder) (db : DomainDb t) (key : OrderKey)
    → t.orders.find key
        (upsert_orders t parse_date tenant_id orders
          (upsert_orders t parse_date tenant_id orders db).1).1.orders
      ≡ t.orders.find key (upsert_orders t parse_date tenant_id orders db).1.orders
upsert_orders-again t parse_date tenant_id orders db key =
    let first = upsert_orders t parse_date tenant_id orders db in
    let last = last_row parse_date tenant_id t.orders.dec (dated parse_date tenant_id orders) key in
    find_after parse_date tenant_id t orders first.1 key
    ∙ (ap (or_else last) (find_after parse_date tenant_id t orders db key)
        ∙ (or_else-twice last (t.orders.find key db.orders)
            ∙ sym (find_after parse_date tenant_id t orders db key)))

-- Storing orders for one tenant changes no order of another, also when the marketplace's ids are the
-- same.
pub upsert_orders-other_tenants :
    (t : DomainTables) (parse_date : String → Option ℕ) (tenant_id : String)
    (orders : List NormalizedOrder) (db : DomainDb t) (key : OrderKey)
    → key.0 ≢ tenant_id
    → t.orders.find key (upsert_orders t parse_date tenant_id orders db).1.orders
      ≡ t.orders.find key db.orders
upsert_orders-other_tenants t parse_date tenant_id orders db key n =
    find_after parse_date tenant_id t orders db key
    ∙ ap (λ o. or_else o (t.orders.find key db.orders))
        (last_row-other parse_date tenant_id t (dated parse_date tenant_id orders) key n)
