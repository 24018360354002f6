-- ===== src/Storage/Examples.antt =====
-- The theorem at a few calls, with files that hold the items themselves.
use arkain.Prelude.{◌≡◌, refl, ℕ, none, some, List, [], ◌∷◌, String-discrete}
use arkain.Prelude.Dict.{insert, alter}
use arkain.Marketplace.Types.{NormalizedOrder, coupang}
use arkain.Storage.{Json, Codecs, Files, SyncRunSummary, success, upsert_orders}
use arkain.Storage.Refinement.{
  put_orders, log_run, view, perform_all, promised_all, view-perform_all,
}

abbrev plain : {A : Type 0} → Json A
plain {A} = record {
  Text = List A;
  parse = λ items. some items;
  stringify = λ items. items;
  parse-stringify = λ items. refl;
}

abbrev codecs : Codecs
codecs = record { orders = plain; products = plain; sync_runs = plain }

abbrev no_files : Files codecs
no_files = record { orders = none; products = none; sync_runs = none }

abbrev order : ℕ → NormalizedOrder
order total = record {
  marketplace = coupang;
  marketplace_order_id = "77";
  ordered_at = "2026-07-01T00:00:00.000Z";
  status = "ACCEPT";
  buyer_name = none;
  total_amount_krw = total;
  items = [];
}

abbrev summary : SyncRunSummary
summary = record {
  marketplace = "coupang";
  started_at = "2026-07-01T00:00:00.000Z";
  finished_at = "2026-07-01T00:01:00.000Z";
  orders_pulled = 1;
  products_pulled = 0;
  status = success;
  error = none;
}

-- The same order pulled twice is one order.
counts_once :
    upsert_orders codecs (order 100 ∷ order 200 ∷ []) no_files
    ≡ (1, record no_files { orders = some (order 200 ∷ []) })
unfolding upsert_orders insert alter String-discrete
counts_once = refl

view-perform_all_example :
    view codecs (perform_all codecs (put_orders (order 100 ∷ []) ∷ log_run summary ∷ []) no_files)
    ≡ promised_all (put_orders (order 100 ∷ []) ∷ log_run summary ∷ []) (view codecs no_files)
view-perform_all_example =
    view-perform_all codecs (put_orders (order 100 ∷ []) ∷ log_run summary ∷ []) no_files
