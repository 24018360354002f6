-- ===== src/Domain/Status/Unknown.antt =====
-- Which raw statuses are unknown.
use arkain.Prelude.{
  ◌≡◌, ◌↔◌, refl, ap, sym, ◌∙◌, String, Bool, true, false, Option, none, some, List, [], ◌∷◌, All,
  arith, String-discrete, if_pos, if_neg,
}
use arkain.Prelude.Dict.{lookup}
use arkain.Marketplace.Types.{MarketplaceId, naver_smartstore, coupang, eleven_st, esm_2_0, gsshop}
use arkain.Domain.Status.{
  UnifiedOrderStatus, unknown, order_status_by_marketplace, listed, or_fallback,
  to_unified_order_status,
}

abbrev is_known : UnifiedOrderStatus → Bool
is_known unknown = false
is_known _ = true

lookup-All :
    (table : List (String × UnifiedOrderStatus)) (k : String) (s : UnifiedOrderStatus)
    → All (λ e. is_known e.1 ≡ true) table
    → lookup String-discrete k table ≡ some s
    → is_known s ≡ true
unfolding lookup
lookup-All [] k s h e = cc
lookup-All ((j, v) ∷ table) k s h e = elim (String-discrete j k) [
  | yes p ↦ let same : v ≡ s = cc (rw (if_pos _ p) at e) in ap is_known (sym same) ∙ h.0
  | no n ↦ lookup-All table k s h.1 (rw (if_neg _ n) at e)
]

listed_known :
    (m : MarketplaceId) (raw_status : String) (s : UnifiedOrderStatus)
    → listed (order_status_by_marketplace m) raw_status ≡ some s
    → is_known s ≡ true
unfolding order_status_by_marketplace
listed_known naver_smartstore raw_status s e = lookup-All _ raw_status s (ground arith) e
listed_known coupang raw_status s e = lookup-All _ raw_status s (ground arith) e
listed_known eleven_st raw_status s e = cc
listed_known esm_2_0 raw_status s e = lookup-All _ raw_status s (ground arith) e
listed_known gsshop raw_status s e = lookup-All _ raw_status s (ground arith) e

from_listed :
    (o : Option UnifiedOrderStatus)
    → ((s : UnifiedOrderStatus) → o ≡ some s → is_known s ≡ true)
    → (or_fallback o unknown ≡ unknown) ↔ (o ≡ none)
from_listed none known = (λ e. refl, λ e. refl)
from_listed (some s) known = (λ e. absurd (cc (known s refl, ap is_known e)), λ e. absurd (cc e))

-- An order's status is UNKNOWN exactly when the marketplace has no table or its table does not list the
-- raw status: no table gives UNKNOWN for a raw status that it lists.
pub to_unified_order_status_iff :
    (m : MarketplaceId) (raw_status : String)
    → (to_unified_order_status m raw_status ≡ unknown)
      ↔ (listed (order_status_by_marketplace m) raw_status ≡ none)
unfolding to_unified_order_status
to_unified_order_status_iff m raw_status =
    from_listed (listed (order_status_by_marketplace m) raw_status)
      (λ s e. listed_known m raw_status s e)
