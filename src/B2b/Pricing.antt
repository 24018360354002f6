-- ===== src/B2b/Pricing.antt =====
-- src/domain/b2b/pricing.ts: the requested lines against the account's price list.
pub mod Reference
use arkain.Prelude.{
  ℕ, ◌*◌, String, Option, none, some, List, [], ◌∷◌, Result, ok, throw, ◌>>=◌, sum_by,
  String-discrete,
}
use arkain.Prelude.Dict.{lookup, insert}
use arkain.B2b.Types.{AccountPriceListEntry, PurchaseOrderLineRequest, PurchaseOrderItem}

pub data MissingPriceError : Type 0 where
  missing_price : String → MissingPriceError

pub record PricedLines : Type 0 where
  pub items : List PurchaseOrderItem
  pub total_amount_krw : ℕ

-- `new Map(priceList.map((entry) => [entry.sku, entry]))`, from the entries that are left
unfoldable pub by_sku_from :
    List (String × AccountPriceListEntry)
    → List AccountPriceListEntry
    → List (String × AccountPriceListEntry)
by_sku_from m [] = m
by_sku_from m (entry ∷ rest) = by_sku_from (insert String-discrete entry.sku entry m) rest

unfoldable pub price_line :
    PurchaseOrderLineRequest
    → Option AccountPriceListEntry
    → Result MissingPriceError PurchaseOrderItem
price_line line none = throw (missing_price line.sku)
price_line line (some entry) = ok (record {
  sku = line.sku;
  product_name = entry.product_name;
  quantity = line.quantity;
  unit_price_krw = entry.unit_price_krw;
  line_total_krw = entry.unit_price_krw * line.quantity;
})

-- `lines.map(...)`, which the first throw ends
unfoldable pub price_each :
    List (String × AccountPriceListEntry)
    → List PurchaseOrderLineRequest
    → Result MissingPriceError (List PurchaseOrderItem)
unfolding price_line
price_each by_sku [] = ok []
price_each by_sku (line ∷ lines) = do
  let rest = price_each by_sku lines
  item ← price_line line (lookup String-discrete line.sku by_sku)
  items ← rest
  ok (item ∷ items)

unfoldable pub price_lines :
    List PurchaseOrderLineRequest
    → List AccountPriceListEntry
    → Result MissingPriceError PricedLines
unfolding by_sku_from price_each
price_lines lines price_list = do
  items ← price_each (by_sku_from [] price_list) lines
  ok (record { items = items; total_amount_krw = sum_by (λ i. i.line_total_krw) items })
