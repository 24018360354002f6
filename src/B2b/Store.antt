-- ===== src/B2b/Store.antt =====
-- src/domain/b2b/repository.ts: the methods of `B2BStore` over the database's three tables. A method takes the
-- database and gives it back beside its result; `now` is the value of `new Date()`.
pub mod Transition
pub mod WellFormed
pub mod Creation
pub mod Calls
pub mod History
use arkain.Prelude.{
  ℕ, String, Bool, true, false, ◌&&◌, Option, none, some, List, [], ◌∷◌, map, Result, ok, throw,
  holds, String-discrete,
}
use arkain.Prelude.Exec.{Exec, pure, raise, gets, from_result, ◌>>=◌, ◌>>◌}
use arkain.Prisma.{Table, by_key}
use arkain.B2b.Types.{
  AccountPriceTier, wholesale, PurchaseOrderStatus, draft, submitted, approved, rejected, fulfilled,
  cancelled, PurchaseOrderStatus-discrete, Account, CreateAccountInput, AccountPriceListEntry,
  PurchaseOrderItem, PurchaseOrder, CreatePurchaseOrderInput, PurchaseOrderListFilter,
}
use arkain.B2b.Rows.{
  AccountRow, PriceRow, PurchaseOrderRow, Tables, Database, StoreError, not_found, invalid,
  unpriced, record_missing, is, to_account, to_purchase_order,
}
use arkain.B2b.Status.{InvalidTransitionError, assert_transition}
use arkain.B2b.Pricing.{MissingPriceError, PricedLines, price_lines}

-- `value ?? fallback`
abbrev or_default {ℓ} : {A : Type ℓ} → Option A → A → A
or_default none d = d
or_default (some a) d = a

-- a condition of a `where` that is left out when it is undefined
abbrev matches : Option String → String → Bool
matches none v = true
matches (some w) v = is v w

abbrev matches_status : Option PurchaseOrderStatus → PurchaseOrderStatus → Bool
matches_status none v = true
matches_status (some w) v = holds (PurchaseOrderStatus-discrete v w)

-- The columns that a status change sets beside the status: its `extra`.
abbrev pub stamp_submitted : ℕ → PurchaseOrderRow → PurchaseOrderRow
stamp_submitted now r = record r { submitted_at = some now }

abbrev pub stamp_approved : ℕ → PurchaseOrderRow → PurchaseOrderRow
stamp_approved now r = record r { approved_at = some now }

abbrev pub stamp_rejected : ℕ → String → PurchaseOrderRow → PurchaseOrderRow
stamp_rejected now reason r = record r { rejected_at = some now; rejection_reason = some reason }

abbrev pub stamp_none : PurchaseOrderRow → PurchaseOrderRow
stamp_none r = r

module _ (t : Tables) where
  abbrev pub Action : Type 0 → Type 0
  Action A = Exec StoreError (Database t) A

  unfoldable pub create_account : CreateAccountInput → Action Account
  unfolding to_account
  create_account input db =
      let row : AccountRow = record {
        tenant_id = input.tenant_id;
        name = input.name;
        business_registration_no = input.business_registration_no;
        price_tier = or_default input.price_tier wholesale;
        contact_name = input.contact_name;
        contact_phone = input.contact_phone;
        memo = input.memo;
      } in
      let (id, accounts) = t.accounts.create row db.accounts in
      (ok (to_account id row), record db { accounts = accounts })

  unfoldable pub list_accounts : String → Action (List Account)
  unfolding to_account
  list_accounts tenant_id = gets λ db.
      map (λ e. to_account e.0 e.1)
        (t.accounts.find_many (λ _ r. is r.tenant_id tenant_id) db.accounts)

  unfoldable pub upsert_price_list_entry : String → AccountPriceListEntry → Action (Unit {0})
  upsert_price_list_entry tenant_id entry db =
      let created : PriceRow = record {
        tenant_id = tenant_id;
        product_name = entry.product_name;
        unit_price_krw = entry.unit_price_krw;
      } in
      (
        ok tt,
        record db {
          prices =
              t.prices.upsert (entry.account_id, entry.sku) created
                (λ old. record old {
                  product_name = entry.product_name;
                  unit_price_krw = entry.unit_price_krw;
                })
                db.prices;
        },
      )

  unfoldable pub list_price_list_entries : String → String → Database t → List AccountPriceListEntry
  list_price_list_entries tenant_id account_id db =
      map
        (λ e. record {
          account_id = e.0.0;
          sku = e.0.1;
          product_name = e.1.product_name;
          unit_price_krw = e.1.unit_price_krw;
        })
        (t.prices.find_many (λ k r. is k.0 account_id && is r.tenant_id tenant_id) db.prices)

  price_or_fail : Result MissingPriceError PricedLines → Action PricedLines
  price_or_fail (ok priced) = pure priced
  price_or_fail (throw e) = raise (unpriced e)

  insert_order : PurchaseOrderRow → Action PurchaseOrder
  unfolding to_purchase_order
  insert_order row db =
      let (id, orders) = t.orders.create row db.orders in
      (ok (to_purchase_order id row), record db { orders = orders })

  unfoldable pub create_purchase_order : CreatePurchaseOrderInput → Action PurchaseOrder
  unfolding list_price_list_entries price_or_fail insert_order
  create_purchase_order input = do
    price_list ← gets (list_price_list_entries input.tenant_id input.account_id)
    priced ← price_or_fail (price_lines input.lines price_list)
    insert_order (record {
      tenant_id = input.tenant_id;
      account_id = input.account_id;
      status = draft;
      total_amount_krw = priced.total_amount_krw;
      memo = input.memo;
      submitted_at = none;
      approved_at = none;
      rejected_at = none;
      rejection_reason = none;
      items = priced.items;
    })

  -- with the database's order of rows by `createdAt`, newest first, a column that it fills itself
  unfoldable pub list_purchase_orders :
      (List (String × PurchaseOrderRow) → List (String × PurchaseOrderRow))
      → PurchaseOrderListFilter
      → Action (List PurchaseOrder)
  unfolding to_purchase_order
  list_purchase_orders newest_first filter = gets λ db.
      map (λ e. to_purchase_order e.0 e.1)
        (newest_first (
          t.orders.find_many
            (λ _ r.
              is r.tenant_id filter.tenant_id
              && matches filter.account_id r.account_id
              && matches_status filter.status r.status)
            db.orders))

  abbrev pub of_tenant : String → PurchaseOrderRow → Bool
  of_tenant tenant_id r = is r.tenant_id tenant_id

  unfoldable pub shown : Option (String × PurchaseOrderRow) → Option PurchaseOrder
  unfolding to_purchase_order
  shown none = none
  shown (some (id, row)) = some (to_purchase_order id row)

  unfoldable pub get_purchase_order : String → String → Action (Option PurchaseOrder)
  unfolding shown
  get_purchase_order tenant_id id =
      gets λ db. shown (t.orders.find_first (by_key t.orders id (of_tenant tenant_id)) db.orders)

  current_or_fail : String → Option (String × PurchaseOrderRow) → Action PurchaseOrderRow
  current_or_fail id none = raise (not_found id)
  current_or_fail id (some (_, row)) = pure row

  allow : Result InvalidTransitionError (Unit {0}) → Action (Unit {0})
  allow (ok _) = pure tt
  allow (throw e) = raise (invalid e)

  written : String → Option (PurchaseOrderRow × t.orders.Db) → Action PurchaseOrder
  unfolding to_purchase_order
  written id none db = (throw record_missing, db)
  written id (some (row, orders)) db =
      (ok (to_purchase_order id row), record db { orders = orders })

  unfoldable pub transition :
      String
      → String
      → PurchaseOrderStatus
      → (PurchaseOrderRow → PurchaseOrderRow)
      → Action PurchaseOrder
  unfolding current_or_fail allow written
  transition tenant_id id to stamp = do
    found ← gets (λ db. t.orders.find_first (by_key t.orders id (of_tenant tenant_id)) db.orders)
    current ← current_or_fail id found
    allow (assert_transition current.status to)
    update ← gets (λ db. t.orders.update id (λ r. stamp (record r { status = to })) db.orders)
    written id update

  unfoldable pub submit_purchase_order : ℕ → String → String → Action PurchaseOrder
  unfolding transition
  submit_purchase_order now tenant_id id = transition tenant_id id submitted (stamp_submitted now)

  unfoldable pub approve_purchase_order : ℕ → String → String → Action PurchaseOrder
  unfolding transition
  approve_purchase_order now tenant_id id = transition tenant_id id approved (stamp_approved now)

  unfoldable pub reject_purchase_order : ℕ → String → String → String → Action PurchaseOrder
  unfolding transition
  reject_purchase_order now tenant_id id reason =
      transition tenant_id id rejected (stamp_rejected now reason)

  unfoldable pub fulfill_purchase_order : String → String → Action PurchaseOrder
  unfolding transition
  fulfill_purchase_order tenant_id id = transition tenant_id id fulfilled stamp_none

  unfoldable pub cancel_purchase_order : String → String → Action PurchaseOrder
  unfolding transition
  cancel_purchase_order tenant_id id = transition tenant_id id cancelled stamp_none
