-- ===== src/App/Orders/Owner.antt =====
-- Whose orders a request can change.
use arkain.Prelude.{
  ◌≡◌, ◌≢◌, refl, sym, ◌∙◌, ap, String, Option, none, some, Result, ok, throw, if_pos, if_neg, inl,
  inr, String-discrete, true_of_holds,
}
use arkain.Prisma.{select_cases}
use arkain.Domain.Status.{UnifiedOrderStatus}
use arkain.Domain.Store.{
  DomainTables, DomainDb, DomainError, OrderKey, OrderDetail, is_of, update_order_status,
}
use arkain.Domain.Store.Edits.{update_order_status-IsStatusUpdate}
use arkain.Auth.Session.{UriError}
use arkain.App.Accounts.{AuthDeps, session_of}
use arkain.App.Orders.{patch_order, for_seller, patched, found_order, listed_as, valid_statuses}

module _ (t : DomainTables) where
  found_order-db :
      (p : Result DomainError (Option OrderDetail) × DomainDb t) → (found_order t p).1 ≡ p.1
  found_order-db (throw e, db) = refl
  found_order-db (ok none, db) = refl
  found_order-db (ok (some order), db) = refl

  -- The status that a seller gives an order leaves the orders of others as they are.
  update_lem :
      (seller_id : String) (id j : OrderKey) (status : UnifiedOrderStatus) (db : DomainDb t)
      → seller_id ≢ j.0
      → t.orders.find j (update_order_status t seller_id id status db).1.orders
        ≡ t.orders.find j db.orders
  update_lem seller_id id j status db other =
      (update_order_status-IsStatusUpdate t seller_id id status db).orders j
      ∙ elim (t.orders.dec id j) [
        | no n ↦ if_neg (t.orders.dec id j) n _ _
        | yes p ↦ elim (select_cases (λ _. is_of seller_id id.0) (t.orders.find id db.orders)) [
          | inl e ↦ rw e (
              if_pos (t.orders.dec id j) p (t.orders.find id db.orders) (t.orders.find j db.orders)
              ∙ ap (λ k. t.orders.find k db.orders) p)
          | inr (row, found, mine, e) ↦
              absurd (
                other (sym (true_of_holds (String-discrete id.0 seller_id) mine) ∙ ap (λ k. k.0) p))
        ]
      ]

  patched_lem :
      (seller_id : String) (id j : OrderKey) (status : Option UnifiedOrderStatus) (db : DomainDb t)
      → seller_id ≢ j.0
      → t.orders.find j (patched t id status seller_id db).1.orders ≡ t.orders.find j db.orders
  patched_lem seller_id id j none db other = refl
  patched_lem seller_id id j (some status) db other =
      ap (λ d. t.orders.find j d.orders)
        (found_order-db (update_order_status t seller_id id status db))
      ∙ update_lem seller_id id j status db other

  session_lem :
      (session : Result UriError (Option String)) (id j : OrderKey)
      (status : Option UnifiedOrderStatus) (db : DomainDb t)
      → session ≢ ok (some j.0)
      → t.orders.find j (for_seller t session (patched t id status) db).1.orders
        ≡ t.orders.find j db.orders
  session_lem (throw e) id j status db other = refl
  session_lem (ok none) id j status db other = refl
  session_lem (ok (some seller_id)) id j status db other =
      patched_lem seller_id id j status db (λ p. other (ap (λ s. ok (some s)) p))

-- A request to change the status of an order, whatever it names and whatever its cookies are, leaves
-- an order as it was unless its cookies hold a valid session of the seller who owns the order.
pub patch_order-other :
    (t : DomainTables) (deps : AuthDeps) (cookie : Option String) (id j : OrderKey)
    (status : Option String) (db : DomainDb t)
    → session_of deps cookie ≢ ok (some j.0)
    → t.orders.find j (patch_order t (some deps) cookie id status db).1.orders
      ≡ t.orders.find j db.orders
unfolding patch_order
patch_order-other t deps cookie id j status db other =
    session_lem t (session_of deps cookie) id j (listed_as valid_statuses status) db other
