-- ===== src/B2b/Types.antt =====
-- src/domain/b2b/types.ts. Amounts are whole won. A time is its number of milliseconds since the
-- epoch, also where the source prints it as an ISO text.
use arkain.Prelude.{ℕ, String, Option, List}

pub data AccountPriceTier : Type 0 where
  wholesale consumer event : AccountPriceTier

pub data PurchaseOrderStatus : Type 0 where
  draft submitted approved rejected fulfilled cancelled : PurchaseOrderStatus

unfoldable pub PurchaseOrderStatus-discrete : Discrete PurchaseOrderStatus
PurchaseOrderStatus-discrete = hlevel

pub record Account : Type 0 where
  pub id : String
  pub tenant_id : String
  pub name : String
  pub business_registration_no : Option String
  pub price_tier : AccountPriceTier
  pub contact_name : Option String
  pub contact_phone : Option String
  pub memo : Option String

pub record CreateAccountInput : Type 0 where
  pub tenant_id : String
  pub name : String
  pub business_registration_no : Option String
  pub price_tier : Option AccountPriceTier
  pub contact_name : Option String
  pub contact_phone : Option String
  pub memo : Option String

pub record AccountPriceListEntry : Type 0 where
  pub account_id : String
  pub sku : String
  pub product_name : String
  pub unit_price_krw : ℕ

pub record PurchaseOrderLineRequest : Type 0 where
  pub sku : String
  pub quantity : ℕ

pub record PurchaseOrderItem : Type 0 where
  pub sku : String
  pub product_name : String
  pub quantity : ℕ
  pub unit_price_krw : ℕ
  pub line_total_krw : ℕ

pub record PurchaseOrder : Type 0 where
  pub id : String
  pub tenant_id : String
  pub account_id : String
  pub status : PurchaseOrderStatus
  pub total_amount_krw : ℕ
  pub memo : Option String
  pub submitted_at : Option ℕ
  pub approved_at : Option ℕ
  pub rejected_at : Option ℕ
  pub rejection_reason : Option String
  pub items : List PurchaseOrderItem

pub record CreatePurchaseOrderInput : Type 0 where
  pub tenant_id : String
  pub account_id : String
  pub lines : List PurchaseOrderLineRequest
  pub memo : Option String

pub record PurchaseOrderListFilter : Type 0 where
  pub tenant_id : String
  pub account_id : Option String
  pub status : Option PurchaseOrderStatus
