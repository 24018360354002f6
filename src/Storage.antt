-- ===== src/Storage.antt =====
-- src/storage/localStore.ts: the store of JSON files, a file for the orders, one for the products and
-- one for the runs. A file has a text, or is not there. `parse` and `stringify` are those of JSON;
-- `parse` is `none` where the text is no JSON or no array. A write does not fail here.
pub mod Merging
pub mod Refinement
mod Examples
use arkain.Prelude.{
  ℕ, String, Option, none, some, List, [], ◌∷◌, ◌++◌, map, length, ◌≡◌, String-discrete,
}
use arkain.Prelude.Dict.{insert}
use arkain.Prelude.Text.{append}
use arkain.Marketplace.Types.{NormalizedOrder, NormalizedProduct, id_text}

pub data RunStatus : Type 0 where
  success failed : RunStatus

pub record SyncRunSummary : Type 0 where
  pub marketplace : String
  pub started_at : String
  pub finished_at : String
  pub orders_pulled : ℕ
  pub products_pulled : ℕ
  pub status : RunStatus
  pub error : Option String

pub record Json (A : Type 0) : Type 1 where
  pub Text : Type 0
  pub parse : Text → Option (List A)
  pub stringify : List A → Text
  pub parse-stringify : (items : List A) → parse (stringify items) ≡ some items

abbrev pub or_none_read {ℓ} : {A : Type ℓ} → Option (List A) → List A
or_none_read none = []
or_none_read (some items) = items

-- `new Map(...)` and the `set` of each item, onto the entries that are there
unfoldable pub merge : {A : Type 0} → (A → String) → List A → List (String × A) → List (String × A)
merge key_of [] m = m
merge key_of (a ∷ rest) m = merge key_of rest (insert String-discrete (key_of a) a m)

abbrev pub values : {A : Type 0} → List (String × A) → List A
values m = map (λ e. e.1) m

module _ {A : Type 0} (json : Json A) where
  -- a file that is not there, is no JSON or is no array reads as no items
  unfoldable pub read_json_array : Option json.Text → List A
  read_json_array none = []
  read_json_array (some text) = or_none_read (json.parse text)

  -- the items that are written
  unfoldable pub upserted_items : (A → String) → List A → Option json.Text → List A
  unfolding read_json_array merge
  upserted_items key_of items file =
      values (merge key_of items (merge key_of (read_json_array file) []))

abbrev pub order_key : NormalizedOrder → String
order_key o = append (id_text o.marketplace) (append ":" o.marketplace_order_id)

abbrev pub product_key : NormalizedProduct → String
product_key p = append (id_text p.marketplace) (append ":" p.marketplace_product_id)

pub record Codecs : Type 1 where
  pub orders : Json NormalizedOrder
  pub products : Json NormalizedProduct
  pub sync_runs : Json SyncRunSummary

pub record Files (json : Codecs) : Type 0 where
  pub orders : Option json.orders.Text
  pub products : Option json.products.Text
  pub sync_runs : Option json.sync_runs.Text

module _ (json : Codecs) where
  unfoldable pub upsert_orders : List NormalizedOrder → Files json → ℕ × Files json
  unfolding upserted_items
  upsert_orders orders files =
      let out = upserted_items json.orders order_key orders files.orders in
      (length out, record files { orders = some (json.orders.stringify out) })

  unfoldable pub upsert_products : List NormalizedProduct → Files json → ℕ × Files json
  unfolding upserted_items
  upsert_products products files =
      let out = upserted_items json.products product_key products files.products in
      (length out, record files { products = some (json.products.stringify out) })

  unfoldable pub append_sync_run : SyncRunSummary → Files json → Files json
  unfolding read_json_array
  append_sync_run summary files = record files {
    sync_runs = some (
        json.sync_runs.stringify
          (read_json_array json.sync_runs files.sync_runs ++ (summary ∷ [])));
  }
