-- ===== src/Domain/Status.antt =====
-- src/domain/status.ts: the statuses, and the tables from each marketplace's own. A raw status is taken
-- to be no name of a member that every JavaScript object inherits.
pub mod Unknown
use arkain.Prelude.{String, Option, none, some, List, [], ◌∷◌, String-discrete}
use arkain.Prelude.Dict.{lookup}
use arkain.Marketplace.Types.{MarketplaceId, naver_smartstore, coupang, eleven_st, esm_2_0, gsshop}

pub data UnifiedOrderStatus : Type 0 where
  pending paid dispatched delivered confirmed cancelled returned exchanged mixed unknown :
      UnifiedOrderStatus

pub data UnifiedProductStatus : Type 0 where
  on_sale out_of_stock suspended unknown_product : UnifiedProductStatus

-- `NAVER_ORDER_STATUS`
abbrev pub naver_order_status : List (String × UnifiedOrderStatus)
naver_order_status =
    ("PAYMENT_WAITING", pending)
    ∷ ("PAYED", paid)
    ∷ ("DELIVERING", dispatched)
    ∷ ("DELIVERED", delivered)
    ∷ ("PURCHASE_DECIDED", confirmed)
    ∷ ("CANCELED", cancelled)
    ∷ ("CANCELED_BY_NOPAYMENT", cancelled)
    ∷ ("RETURNED", returned)
    ∷ ("EXCHANGED", exchanged)
    ∷ ("MIXED", mixed)
    ∷ []

-- `NAVER_PRODUCT_STATUS`
abbrev pub naver_product_status : List (String × UnifiedProductStatus)
naver_product_status =
    ("SALE", on_sale)
    ∷ ("OUTOFSTOCK", out_of_stock)
    ∷ ("SUSPENSION", suspended)
    ∷ ("CLOSE", suspended)
    ∷ ("UNADMISSION", suspended)
    ∷ ("REJECTION", suspended)
    ∷ ("DELETE", suspended)
    ∷ []

-- `ESM_ORDER_STATUS`
abbrev pub esm_order_status : List (String × UnifiedOrderStatus)
esm_order_status =
    ("1", pending) ∷ ("2", paid) ∷ ("3", dispatched) ∷ ("4", delivered) ∷ ("5", confirmed) ∷ []

-- `ESM_PRODUCT_STATUS`
abbrev pub esm_product_status : List (String × UnifiedProductStatus)
esm_product_status =
    ("11", on_sale) ∷ ("21", suspended) ∷ ("22", suspended) ∷ ("31", out_of_stock) ∷ []

-- `COUPANG_ORDER_STATUS`
abbrev pub coupang_order_status : List (String × UnifiedOrderStatus)
coupang_order_status =
    ("ACCEPT", paid)
    ∷ ("INSTRUCT", paid)
    ∷ ("DEPARTURE", dispatched)
    ∷ ("DELIVERING", dispatched)
    ∷ ("FINAL_DELIVERY", delivered)
    ∷ ("NONE_TRACKING", delivered)
    ∷ []

-- `COUPANG_PRODUCT_STATUS`
abbrev pub coupang_product_status : List (String × UnifiedProductStatus)
coupang_product_status =
    ("ON_SALE", on_sale)
    ∷ ("OUT_OF_STOCK", out_of_stock)
    ∷ ("SUSPENSION", suspended)
    ∷ ("DELETING", suspended)
    ∷ []

-- `GSSHOP_ORDER_STATUS`
abbrev pub gsshop_order_status : List (String × UnifiedOrderStatus)
gsshop_order_status =
    ("입금전", pending)
    ∷ ("결제완료", paid)
    ∷ ("상품준비중", paid)
    ∷ ("배송중", dispatched)
    ∷ ("배송완료", delivered)
    ∷ ("구매확정", confirmed)
    ∷ ("취소", cancelled)
    ∷ ("반품", returned)
    ∷ ("교환", exchanged)
    ∷ ("MIXED", mixed)
    ∷ []

-- `ORDER_STATUS_BY_MARKETPLACE`
unfoldable pub order_status_by_marketplace :
    MarketplaceId → Option (List (String × UnifiedOrderStatus))
order_status_by_marketplace naver_smartstore = some naver_order_status
order_status_by_marketplace coupang = some coupang_order_status
order_status_by_marketplace eleven_st = none
order_status_by_marketplace esm_2_0 = some esm_order_status
order_status_by_marketplace gsshop = some gsshop_order_status

-- `PRODUCT_STATUS_BY_MARKETPLACE`
unfoldable pub product_status_by_marketplace :
    MarketplaceId → Option (List (String × UnifiedProductStatus))
product_status_by_marketplace naver_smartstore = some naver_product_status
product_status_by_marketplace coupang = some coupang_product_status
product_status_by_marketplace eleven_st = none
product_status_by_marketplace esm_2_0 = some esm_product_status
product_status_by_marketplace gsshop = none

-- `table?.[rawStatus]`
abbrev pub listed : {S : Type 0} → Option (List (String × S)) → String → Option S
listed none raw_status = none
listed (some table) raw_status = lookup String-discrete raw_status table

-- `status ?? fallback`
abbrev pub or_fallback : {S : Type 0} → Option S → S → S
or_fallback none fallback = fallback
or_fallback (some s) fallback = s

unfoldable pub to_unified_order_status : MarketplaceId → String → UnifiedOrderStatus
unfolding order_status_by_marketplace
to_unified_order_status marketplace raw_status =
    or_fallback (listed (order_status_by_marketplace marketplace) raw_status) unknown

unfoldable pub to_unified_product_status : MarketplaceId → String → UnifiedProductStatus
unfolding product_status_by_marketplace
to_unified_product_status marketplace raw_status =
    or_fallback (listed (product_status_by_marketplace marketplace) raw_status) unknown_product
