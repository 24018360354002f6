-- ===== src/App/Wholesale/Moves.antt =====
-- What the wholesale desk answers to a move of a purchase order.
use arkain.Prelude.{
  ◌≡◌, ◌≢◌, refl, String, Option, none, some, Result, if◌then◌else◌, Bool-cases, inl, inr,
  String-discrete, holds-no,
}
use arkain.Prelude.Text.{append}
use arkain.Prisma.{select}
use arkain.B2b.Types.{PurchaseOrderStatus, PurchaseOrder}
use arkain.B2b.Status.{can_transition}
use arkain.B2b.Rows.{PurchaseOrderRow, Tables, Database, StoreError, to_purchase_order}
use arkain.B2b.Store.{of_tenant, transition}
use arkain.B2b.Store.Transition.{moved as moved_row, outcome, transition-IsTransition}
use arkain.App.Reply.{Reply, answered, refused, crashed}
use arkain.App.Wholesale.{moved, transition_handler, transition_message, status_text}

module _ (id : String) (to : PurchaseOrderStatus)
    (stamp : PurchaseOrderRow → PurchaseOrderRow) where
  -- The answer, from the row that the tenant has under the id.
  abbrev pub expected_reply : Option PurchaseOrderRow → Reply PurchaseOrder
  expected_reply none = crashed
  expected_reply (some r) =
      if can_transition r.status to
      then answered (to_purchase_order id (moved_row to stamp r))
      else refused 409 (
          append "cannot transition purchase order from "
            (append (status_text r.status) (append " to " (status_text to))))

  module _ (t : Tables) where
    -- The answer depends on the result alone.
    reply_lem :
        (o : Option PurchaseOrderRow) (before : Option PurchaseOrderRow)
        (result : Result StoreError PurchaseOrder) (db : Database t)
        → result ≡ (outcome id to stamp o before).0
        → (moved t (result, db)).0 ≡ expected_reply o
    unfolding moved transition_message
    reply_lem none before result db e = rw e refl
    reply_lem (some r) before result db e = elim (Bool-cases (can_transition r.status to)) [
      | inl can ↦ rw (e, can) refl
      | inr cannot ↦ rw (e, cannot) refl
    ]

-- A request to move a purchase order, in the name of a tenant that is not empty: when the tenant has
-- no such order the request fails, and when the table allows the move the order is answered as it is
-- written; when it does not, the answer is 409 with both statuses in its message.
pub transition_handler-replies :
    (t : Tables) (tenant_id id : String) (to : PurchaseOrderStatus)
    (stamp : PurchaseOrderRow → PurchaseOrderRow) (db : Database t)
    → tenant_id ≢ ""
    → (transition_handler t (λ tenant. transition t tenant id to stamp) (some tenant_id) db).0
      ≡ expected_reply id to stamp (select (of_tenant t tenant_id) (t.orders.find id db.orders))
unfolding transition_handler
transition_handler-replies t tenant_id id to stamp db full =
    rw (holds-no (String-discrete tenant_id "") full) (
      reply_lem id to stamp t (select (of_tenant t tenant_id) (t.orders.find id db.orders))
        (t.orders.find id db.orders) (transition t tenant_id id to stamp db).0
        (transition t tenant_id id to stamp db).1
        (transition-IsTransition t tenant_id id to stamp db).answer)
