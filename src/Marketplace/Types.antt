-- ===== src/Marketplace/Types.antt =====
-- src/integrations/marketplace.ts: the marketplace-agnostic types. Amounts are whole won; the
-- untouched payload `raw`, which is kept for audit and never read, is left out.
use arkain.Prelude.{ℕ, String, Bool, Option, List}

pub data MarketplaceId : Type 0 where
  naver_smartstore coupang eleven_st esm_2_0 gsshop : MarketplaceId

unfoldable pub MarketplaceId-discrete : Discrete MarketplaceId
MarketplaceId-discrete = hlevel

-- The text of the id.
abbrev pub id_text : MarketplaceId → String
id_text naver_smartstore = "naver_smartstore"
id_text coupang = "coupang"
id_text eleven_st = "eleven_st"
id_text esm_2_0 = "esm_2_0"
id_text gsshop = "gsshop"

pub record SellerCredential : Type 0 where
  pub seller_id : String
  pub marketplace : MarketplaceId
  pub secret : List (String × String)

pub record NormalizedOrderItem : Type 0 where
  pub marketplace_product_id : String
  pub product_name : String
  pub quantity : ℕ
  pub unit_price_krw : ℕ

pub record NormalizedOrder : Type 0 where
  pub marketplace : MarketplaceId
  pub marketplace_order_id : String
  -- an ISO text, or whatever text the marketplace sent
  pub ordered_at : String
  pub status : String
  pub buyer_name : Option String
  pub total_amount_krw : ℕ
  pub items : List NormalizedOrderItem

pub record FetchOrdersParams : Type 0 where
  pub since : ℕ
  pub cursor : Option String

pub record FetchOrdersPage : Type 0 where
  pub orders : List NormalizedOrder
  pub next_cursor : Option String

pub record NormalizedProduct : Type 0 where
  pub marketplace : MarketplaceId
  pub marketplace_product_id : String
  pub origin_product_id : Option String
  pub name : String
  pub sale_price_krw : ℕ
  pub stock_quantity : ℕ
  pub status : String

-- What an adapter throws, as far as the retry policy reads it.
pub record MarketplaceError : Type 0 where
  pub message : String
  pub marketplace : MarketplaceId
  pub retryable : Bool
  pub status : Option ℕ
  pub retry_after_ms : Option ℕ
  pub code : Option String
