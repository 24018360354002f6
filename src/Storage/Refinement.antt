-- ===== src/Storage/Refinement.antt =====
-- What the files stand for: two maps from keys to items, and a list of runs.
use arkain.Prelude.{◌≡◌, refl, ap, ◌∙◌, String, Option, some, List, [], ◌∷◌, ◌++◌, String-discrete}
use arkain.Prelude.Dict.{lookup}
use arkain.Marketplace.Types.{NormalizedOrder, NormalizedProduct}
use arkain.Storage.{
  Json, Codecs, Files, SyncRunSummary, merge, values, read_json_array, upserted_items, order_key,
  product_key, upsert_orders, upsert_products, append_sync_run, or_none_read,
}
use arkain.Storage.Merging.{replaced, lookup-merge, merge-values, merge-Keyed, merge-DistinctKeys}

module _ {A : Type 0} (json : Json A) (key_of : A → String) where
  -- The map that a file stands for.
  abbrev pub map_of : Option json.Text → String → Option A
  map_of file k = lookup String-discrete k (merge key_of (read_json_array json file) [])

  map_of-upserted :
      (items : List A) (file : Option json.Text)
      → map_of (some (json.stringify (upserted_items json key_of items file)))
        ≡ replaced key_of items (map_of file)
  unfolding upserted_items
  map_of-upserted items file =
      let before : List (String × A) = merge key_of (read_json_array json file) [] in
      let after : List (String × A) = merge key_of items before in
      let distinct =
        merge-DistinctKeys key_of items before
          (merge-DistinctKeys key_of (read_json_array json file) [] tt) in
      let keyed =
        merge-Keyed key_of items before (merge-Keyed key_of (read_json_array json file) [] tt) in
      let read : read_json_array json (some (json.stringify (values after))) ≡ values after =
        unfold read_json_array in ap or_none_read (json.parse-stringify (values after)) in
      ap (λ xs. (λ k. lookup String-discrete k (merge key_of xs []))) read
      ∙ ap (λ m. (λ k. lookup String-discrete k m)) (merge-values key_of after keyed distinct)
      ∙ lookup-merge key_of items before

-- The store as its client sees it.
pub record View : Type 0 where
  pub orders : String → Option NormalizedOrder
  pub products : String → Option NormalizedProduct
  pub sync_runs : List SyncRunSummary

pub data Call : Type 0 where
  put_orders : List NormalizedOrder → Call
  put_products : List NormalizedProduct → Call
  log_run : SyncRunSummary → Call

-- What a call promises: items replace those with their keys, and a run goes last.
unfoldable pub promised : Call → View → View
promised (put_orders orders) v = record v { orders = replaced order_key orders v.orders }
promised (put_products products) v = record v {
  products = replaced product_key products v.products;
}
promised (log_run summary) v = record v { sync_runs = v.sync_runs ++ (summary ∷ []) }

unfoldable pub promised_all : List Call → View → View
unfolding promised
promised_all [] v = v
promised_all (call ∷ calls) v = promised_all calls (promised call v)

module _ (json : Codecs) where
  abbrev pub view : Files json → View
  view files = record {
    orders = map_of json.orders order_key files.orders;
    products = map_of json.products product_key files.products;
    sync_runs = read_json_array json.sync_runs files.sync_runs;
  }

  unfoldable pub perform : Call → Files json → Files json
  perform (put_orders orders) files = (upsert_orders json orders files).1
  perform (put_products products) files = (upsert_products json products files).1
  perform (log_run summary) files = append_sync_run json summary files

  unfoldable pub perform_all : List Call → Files json → Files json
  unfolding perform
  perform_all [] files = files
  perform_all (call ∷ calls) files = perform_all calls (perform call files)

  view-perform :
      (call : Call) (files : Files json) → view (perform call files) ≡ promised call (view files)
  unfolding perform promised upsert_orders upsert_products append_sync_run
  view-perform (put_orders orders) files =
      ap (λ m. record (view files) { orders = m })
        (map_of-upserted json.orders order_key orders files.orders)
  view-perform (put_products products) files =
      ap (λ m. record (view files) { products = m })
        (map_of-upserted json.products product_key products files.products)
  view-perform (log_run summary) files =
      ap (λ runs. record (view files) { sync_runs = runs })
        (unfold read_json_array in
          ap or_none_read (
            json.sync_runs.parse-stringify
              (read_json_array json.sync_runs files.sync_runs ++ (summary ∷ []))))

  -- Whatever was in the files, readable or not, and whatever calls are made: what the files stand
  -- for afterwards is what the calls promise of what they stood for before. Orders and products
  -- replace those with their keys and leave the others, and runs are appended, none being lost.
  pub view-perform_all :
      (calls : List Call) (files : Files json)
      → view (perform_all calls files) ≡ promised_all calls (view files)
  unfolding perform_all promised_all
  view-perform_all [] files = refl
  view-perform_all (call ∷ calls) files =
      view-perform_all calls (perform call files)
      ∙ ap (promised_all calls) (view-perform call files)
