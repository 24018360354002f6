-- ===== src/B2b/Store/Calls.antt =====
-- Any sequence of calls of the store's methods that write, failing or not.
use arkain.Prelude.{ℕ, String, subst, List, [], ◌∷◌, inl, inr, sym}
use arkain.B2b.Types.{
  PurchaseOrderStatus, submitted, approved, rejected, fulfilled, cancelled, CreateAccountInput,
  AccountPriceListEntry, CreatePurchaseOrderInput,
}
use arkain.B2b.Rows.{PurchaseOrderRow, Tables, Database}
use arkain.B2b.Store.{
  stamp_submitted, stamp_approved, stamp_rejected, stamp_none, create_account,
  upsert_price_list_entry, create_purchase_order, submit_purchase_order, approve_purchase_order,
  reject_purchase_order, fulfill_purchase_order, cancel_purchase_order,
}
use arkain.B2b.Store.Transition.{after, kept_or_moved}
use arkain.B2b.Store.WellFormed.{
  IsWellFormed, AllOrders, Keeps, Keeps-submitted, Keeps-approved, Keeps-rejected, Keeps-fulfilled,
  Keeps-cancelled,
}
use arkain.B2b.Store.Creation.{kept_or_created, new_row-IsWellFormed}

pub data Call : Type 0 where
  add_account : CreateAccountInput → Call
  set_price : String → AccountPriceListEntry → Call
  create : CreatePurchaseOrderInput → Call
  submit : ℕ → String → String → Call
  approve : ℕ → String → String → Call
  reject : ℕ → String → String → String → Call
  fulfill : String → String → Call
  cancel : String → String → Call

-- The tenant in whose name a call is made.
abbrev pub caller : Call → String
caller (add_account input) = input.tenant_id
caller (set_price tenant_id _) = tenant_id
caller (create input) = input.tenant_id
caller (submit _ tenant_id _) = tenant_id
caller (approve _ tenant_id _) = tenant_id
caller (reject _ tenant_id _ _) = tenant_id
caller (fulfill tenant_id _) = tenant_id
caller (cancel tenant_id _) = tenant_id

module _ (t : Tables) where
  -- The database after the call, whatever it answers.
  unfoldable pub perform : Call → Database t → Database t
  perform (add_account input) db = (create_account t input db).1
  perform (set_price tenant_id entry) db = (upsert_price_list_entry t tenant_id entry db).1
  perform (create input) db = (create_purchase_order t input db).1
  perform (submit now tenant_id id) db = (submit_purchase_order t now tenant_id id db).1
  perform (approve now tenant_id id) db = (approve_purchase_order t now tenant_id id db).1
  perform (reject now tenant_id id reason) db =
      (reject_purchase_order t now tenant_id id reason db).1
  perform (fulfill tenant_id id) db = (fulfill_purchase_order t tenant_id id db).1
  perform (cancel tenant_id id) db = (cancel_purchase_order t tenant_id id db).1

  unfoldable pub perform_all : List Call → Database t → Database t
  perform_all [] db = db
  perform_all (c ∷ cs) db = perform_all cs (perform c db)

  transition-AllOrders :
      (tenant_id id : String) (to : PurchaseOrderStatus)
      (stamp : PurchaseOrderRow → PurchaseOrderRow) (db : Database t)
      → Keeps to stamp
      → AllOrders IsWellFormed t db
      → AllOrders IsWellFormed t (after t tenant_id id to stamp db)
  transition-AllOrders tenant_id id to stamp db keeps h j r found =
      elim (kept_or_moved t tenant_id id to stamp db j r found) [
        | inl kept ↦ h j r kept
        | inr m ↦ subst IsWellFormed (sym m.new_row) (keeps m.old m.can (h j m.old m.held))
      ]

  creation-AllOrders :
      (input : CreatePurchaseOrderInput) (db : Database t)
      → AllOrders IsWellFormed t db
      → AllOrders IsWellFormed t (create_purchase_order t input db).1
  creation-AllOrders input db h j r found = elim (kept_or_created t input db j r found) [
    | inl kept ↦ h j r kept
    | inr c ↦ subst IsWellFormed (sym c.row) (new_row-IsWellFormed t input db c.lines c.priced_as)
  ]

  perform-AllOrders :
      (c : Call) (db : Database t)
      → AllOrders IsWellFormed t db
      → AllOrders IsWellFormed t (perform c db)
  unfolding perform create_account upsert_price_list_entry submit_purchase_order
      approve_purchase_order reject_purchase_order fulfill_purchase_order cancel_purchase_order
  perform-AllOrders (add_account input) db h = h
  perform-AllOrders (set_price tenant_id entry) db h = h
  perform-AllOrders (create input) db h = creation-AllOrders input db h
  perform-AllOrders (submit now u id) db h =
      transition-AllOrders u id submitted (stamp_submitted now) db (Keeps-submitted now) h
  perform-AllOrders (approve now u id) db h =
      transition-AllOrders u id approved (stamp_approved now) db (Keeps-approved now) h
  perform-AllOrders (reject now u id reason) db h =
      transition-AllOrders u id rejected (stamp_rejected now reason) db (Keeps-rejected now reason)
        h
  perform-AllOrders (fulfill u id) db h =
      transition-AllOrders u id fulfilled stamp_none db Keeps-fulfilled h
  perform-AllOrders (cancel u id) db h =
      transition-AllOrders u id cancelled stamp_none db Keeps-cancelled h

-- Every purchase order of a database that is reached by calls of the store, from one whose orders
-- are well formed, is well formed: its total is the sum of its line totals, each line total is
-- quantity times unit price, and the time stamps and the rejection reason that are set are exactly
-- those of its status.
pub perform_all-AllOrders :
    (t : Tables) (calls : List Call) (db : Database t)
    → AllOrders IsWellFormed t db
    → AllOrders IsWellFormed t (perform_all t calls db)
unfolding perform_all
perform_all-AllOrders t [] db h = h
perform_all-AllOrders t (c ∷ cs) db h =
    perform_all-AllOrders t cs (perform t c db) (perform-AllOrders t c db h)
