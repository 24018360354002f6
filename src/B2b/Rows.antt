-- ===== src/B2b/Rows.antt =====
-- src/domain/b2b/repository.ts: the rows that `B2BStore` keeps, and what it shows of them.
use arkain.Prelude.{ℕ, String, Bool, Option, List, holds, String-discrete}
use arkain.Prisma.{Table}
use arkain.B2b.Types.{
  AccountPriceTier, PurchaseOrderStatus, Account, PurchaseOrderItem, PurchaseOrder,
}
use arkain.B2b.Status.{InvalidTransitionError}
use arkain.B2b.Pricing.{MissingPriceError}

-- A row's key, its `id` or its unique pair of columns, is the key of the table.
pub record AccountRow : Type 0 where
  pub tenant_id : String
  pub name : String
  pub business_registration_no : Option String
  pub price_tier : AccountPriceTier
  pub contact_name : Option String
  pub contact_phone : Option String
  pub memo : Option String

pub record PriceRow : Type 0 where
  pub tenant_id : String
  pub product_name : String
  pub unit_price_krw : ℕ

pub record PurchaseOrderRow : Type 0 where
  pub tenant_id : String
  pub account_id : String
  pub status : PurchaseOrderStatus
  pub total_amount_krw : ℕ
  pub memo : Option String
  pub submitted_at : Option ℕ
  pub approved_at : Option ℕ
  pub rejected_at : Option ℕ
  pub rejection_reason : Option String
  pub items : List PurchaseOrderItem

pub record Tables : Type 1 where
  pub accounts : Table String AccountRow
  -- unique on (accountId, sku)
  pub prices : Table (String × String) PriceRow
  pub orders : Table String PurchaseOrderRow

pub record Database (t : Tables) : Type 0 where
  pub accounts : t.accounts.Db
  pub prices : t.prices.Db
  pub orders : t.orders.Db

pub data StoreError : Type 0 where
  not_found : String → StoreError
  invalid : InvalidTransitionError → StoreError
  unpriced : MissingPriceError → StoreError
  -- the database has no row to update
  record_missing : StoreError

abbrev pub is : String → String → Bool
is a b = holds (String-discrete a b)

unfoldable pub to_account : String → AccountRow → Account
to_account id row = record {
  id = id;
  tenant_id = row.tenant_id;
  name = row.name;
  business_registration_no = row.business_registration_no;
  price_tier = row.price_tier;
  contact_name = row.contact_name;
  contact_phone = row.contact_phone;
  memo = row.memo;
}

unfoldable pub to_purchase_order : String → PurchaseOrderRow → PurchaseOrder
to_purchase_order id row = record {
  id = id;
  tenant_id = row.tenant_id;
  account_id = row.account_id;
  status = row.status;
  total_amount_krw = row.total_amount_krw;
  memo = row.memo;
  submitted_at = row.submitted_at;
  approved_at = row.approved_at;
  rejected_at = row.rejected_at;
  rejection_reason = row.rejection_reason;
  items = row.items;
}
