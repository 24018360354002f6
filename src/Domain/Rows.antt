-- ===== src/Domain/Rows.antt =====
-- src/domain/mappers.ts: what an adapter produced, as the rows to store. `parse_date` is
-- `new Date(text)`, `none` for a text that is no date. The row of an order is named by its unique
-- columns, where the source also gives it an id.
use arkain.Prelude.{ℕ, String, Option, List, map}
use arkain.Marketplace.Types.{
  MarketplaceId, NormalizedOrderItem, NormalizedOrder, NormalizedProduct,
}
use arkain.Domain.Status.{
  UnifiedOrderStatus, UnifiedProductStatus, to_unified_order_status, to_unified_product_status,
}

pub record OrderItemRow : Type 0 where
  pub marketplace_product_id : String
  pub product_name : String
  pub quantity : ℕ
  pub unit_price_krw : ℕ

pub record OrderScalarFields : Type 0 where
  pub tenant_id : String
  pub marketplace : MarketplaceId
  pub marketplace_order_id : String
  pub status : UnifiedOrderStatus
  pub raw_status : String
  -- `none` for an invalid date
  pub ordered_at : Option ℕ
  pub buyer_name : Option String
  pub total_amount_krw : ℕ

unfoldable pub to_order_scalar_fields :
    (String → Option ℕ) → NormalizedOrder → String → OrderScalarFields
to_order_scalar_fields parse_date order tenant_id = record {
  tenant_id = tenant_id;
  marketplace = order.marketplace;
  marketplace_order_id = order.marketplace_order_id;
  status = to_unified_order_status order.marketplace order.status;
  raw_status = order.status;
  ordered_at = parse_date order.ordered_at;
  buyer_name = order.buyer_name;
  total_amount_krw = order.total_amount_krw;
}

abbrev to_item : NormalizedOrderItem → OrderItemRow
to_item item = record {
  marketplace_product_id = item.marketplace_product_id;
  product_name = item.product_name;
  quantity = item.quantity;
  unit_price_krw = item.unit_price_krw;
}

unfoldable pub to_order_items_create : NormalizedOrder → List OrderItemRow
to_order_items_create order = map to_item order.items

pub record ProductRow : Type 0 where
  pub origin_product_id : Option String
  pub name : String
  pub sale_price_krw : ℕ
  pub stock_quantity : ℕ
  pub status : UnifiedProductStatus
  pub raw_status : String
  pub created_at : ℕ

-- `created_at` is the database's own, kept when the row is there
unfoldable pub to_product_upsert_input : NormalizedProduct → ℕ → ProductRow
to_product_upsert_input product created_at = record {
  origin_product_id = product.origin_product_id;
  name = product.name;
  sale_price_krw = product.sale_price_krw;
  stock_quantity = product.stock_quantity;
  status = to_unified_product_status product.marketplace product.status;
  raw_status = product.status;
  created_at = created_at;
}
