-- ===== src/App/Wholesale.antt =====
-- src/app.ts: the wholesale desk, which takes the tenant from the request. A field of a body is there
-- with the type that the source gives it, or is not there; a value of another type, which fails in the
-- database, is left out. The messages are those of the errors of src/domain/b2b.
pub mod Moves
mod Examples
use arkain.Prelude.{ℕ, String, Option, none, some, List, ◌∷◌, Result, ok, throw}
use arkain.Prelude.Text.{append}
use arkain.B2b.Types.{
  PurchaseOrderStatus, draft, submitted, approved, rejected, fulfilled, cancelled, Account,
  AccountPriceTier, PurchaseOrder, PurchaseOrderLineRequest,
}
use arkain.B2b.Status.{InvalidTransitionError, invalid_transition}
use arkain.B2b.Pricing.{MissingPriceError, missing_price}
use arkain.B2b.Rows.{
  PurchaseOrderRow, Tables, Database, StoreError, not_found, invalid, unpriced, record_missing,
}
use arkain.B2b.Store.{
  create_account, list_accounts, upsert_price_list_entry, create_purchase_order,
  list_purchase_orders, submit_purchase_order, approve_purchase_order, reject_purchase_order,
}
use arkain.App.Reply.{Reply, answered, refused, crashed, present}

unfoldable pub status_text : PurchaseOrderStatus → String
status_text draft = "DRAFT"
status_text submitted = "SUBMITTED"
status_text approved = "APPROVED"
status_text rejected = "REJECTED"
status_text fulfilled = "FULFILLED"
status_text cancelled = "CANCELLED"

unfoldable pub transition_message : InvalidTransitionError → String
unfolding status_text
transition_message (invalid_transition from to) =
    append "cannot transition purchase order from "
      (append (status_text from) (append " to " (status_text to)))

unfoldable pub price_message : MissingPriceError → String
price_message (missing_price sku) =
    append "no price list entry for sku \"" (append sku "\" on this account")

pub record AccountBody : Type 0 where
  pub tenant_id : Option String
  pub name : Option String
  pub business_registration_no : Option String
  pub price_tier : Option AccountPriceTier
  pub contact_name : Option String
  pub contact_phone : Option String
  pub memo : Option String

pub record PriceBody : Type 0 where
  pub tenant_id : Option String
  pub sku : Option String
  pub product_name : Option String
  pub unit_price_krw : Option ℕ

pub record PurchaseOrderBody : Type 0 where
  pub tenant_id : Option String
  pub account_id : Option String
  pub lines : List PurchaseOrderLineRequest
  pub memo : Option String

module _ (t : Tables) where
  abbrev pub Handler : Type 0 → Type 0
  Handler A = Database t → Reply A × Database t

  abbrev pub Ran : Type 0 → Type 0
  Ran A = Result StoreError A × Database t

  -- an error that no handler catches
  abbrev pub uncaught : {A : Type 0} → Ran A → Reply A × Database t
  uncaught (ok a, db) = (answered a, db)
  uncaught (throw e, db) = (crashed, db)

  -- `POST /api/b2b/accounts`
  unfoldable pub post_account : AccountBody → Handler Account
  post_account body = required (present body.tenant_id) (present body.name)
    where
      required : Option String → Option String → Handler Account
      required (some tenant_id) (some name) db = uncaught (
          create_account t
            (record {
              tenant_id = tenant_id;
              name = name;
              business_registration_no = body.business_registration_no;
              price_tier = body.price_tier;
              contact_name = body.contact_name;
              contact_phone = body.contact_phone;
              memo = body.memo;
            })
            db)
      required _ _ db = (refused 400 "tenantId and name are required", db)

  -- `GET /api/b2b/accounts`
  unfoldable pub get_accounts : Option String → Handler (List Account)
  get_accounts none db = (refused 400 "tenantId query param is required", db)
  get_accounts (some tenant_id) db = uncaught (list_accounts t tenant_id db)

  -- `POST /api/b2b/accounts/:accountId/prices`
  unfoldable pub post_price : String → PriceBody → Handler (Unit {0})
  post_price account_id body =
      required (present body.tenant_id) (present body.sku) (present body.product_name)
        body.unit_price_krw
    where
      required : Option String → Option String → Option String → Option ℕ → Handler (Unit {0})
      required (some tenant_id) (some sku) (some product_name) (some price) db = uncaught (
          upsert_price_list_entry t tenant_id
            (record {
              account_id = account_id;
              sku = sku;
              product_name = product_name;
              unit_price_krw = price;
            })
            db)
      required _ _ _ _ db =
          (refused 400 "tenantId, sku, productName, unitPriceKrw are required", db)

  -- the `catch` of a new order
  unfoldable pub order_made : Ran PurchaseOrder → Reply PurchaseOrder × Database t
  unfolding price_message
  order_made (ok order, db) = (answered order, db)
  order_made (throw (unpriced e), db) = (refused 422 (price_message e), db)
  order_made (throw (invalid e), db) = (crashed, db)
  order_made (throw (not_found m), db) = (crashed, db)
  order_made (throw record_missing, db) = (crashed, db)

  -- `POST /api/b2b/purchase-orders`
  unfoldable pub post_purchase_order : PurchaseOrderBody → Handler PurchaseOrder
  unfolding order_made
  post_purchase_order body = required (present body.tenant_id) (present body.account_id) body.lines
    where
      required :
          Option String → Option String → List PurchaseOrderLineRequest → Handler PurchaseOrder
      required (some tenant_id) (some account_id) (line ∷ lines) db = order_made (
          create_purchase_order t
            (record {
              tenant_id = tenant_id;
              account_id = account_id;
              lines = line ∷ lines;
              memo = body.memo;
            })
            db)
      required _ _ _ db =
          (refused 400 "tenantId, accountId, and at least one line are required", db)

  -- `GET /api/b2b/purchase-orders`, with the database's order of rows by `createdAt` and a status of
  -- the query that is one; any other text fails in the database and is left out
  unfoldable pub get_purchase_orders :
      (List (String × PurchaseOrderRow) → List (String × PurchaseOrderRow))
      → Option String
      → Option String
      → Option PurchaseOrderStatus
      → Handler (List PurchaseOrder)
  get_purchase_orders newest_first none account_id status db =
      (refused 400 "tenantId query param is required", db)
  get_purchase_orders newest_first (some tenant_id) account_id status db = uncaught (
      list_purchase_orders t newest_first
        (record { tenant_id = tenant_id; account_id = account_id; status = status }) db)

  -- the `catch` of a move
  unfoldable pub moved : Ran PurchaseOrder → Reply PurchaseOrder × Database t
  unfolding transition_message
  moved (ok order, db) = (answered order, db)
  moved (throw (invalid e), db) = (refused 409 (transition_message e), db)
  moved (throw (unpriced e), db) = (crashed, db)
  moved (throw (not_found m), db) = (crashed, db)
  moved (throw record_missing, db) = (crashed, db)

  abbrev pub moved_for :
      (String → Database t → Ran PurchaseOrder) → Option String → Handler PurchaseOrder
  moved_for run none db = (refused 400 "tenantId is required", db)
  moved_for run (some tenant_id) db = moved (run tenant_id db)

  unfoldable pub transition_handler :
      (String → Database t → Ran PurchaseOrder) → Option String → Handler PurchaseOrder
  unfolding moved
  transition_handler run tenant_id = moved_for run (present tenant_id)

  unfoldable pub submit_handler : ℕ → String → Option String → Handler PurchaseOrder
  unfolding transition_handler
  submit_handler now id = transition_handler (λ tenant_id. submit_purchase_order t now tenant_id id)

  unfoldable pub approve_handler : ℕ → String → Option String → Handler PurchaseOrder
  unfolding transition_handler
  approve_handler now id =
      transition_handler (λ tenant_id. approve_purchase_order t now tenant_id id)

  abbrev pub or_blank : Option String → String
  or_blank none = ""
  or_blank (some reason) = reason

  unfoldable pub reject_handler : ℕ → String → Option String → Option String → Handler PurchaseOrder
  unfolding transition_handler
  reject_handler now id reason =
      transition_handler (λ tenant_id. reject_purchase_order t now tenant_id id (or_blank reason))
