-- ===== src/B2b/Store/History.antt =====
-- What no call changes: an order's lines, its owner, and every order of another tenant.
use arkain.Prelude.{
  String, ◌≡◌, ◌≢◌, refl, sym, ◌∙◌, subst, some, List, [], ◌∷◌, ite, arith, All, Bool-cases, inl,
  inr, if_pos, if_neg, String-discrete, ok, throw, Result, ap,
}
use arkain.Prisma.{select}
use arkain.B2b.Types.{
  PurchaseOrderStatus, CreatePurchaseOrderInput, submitted, approved, rejected, fulfilled,
  cancelled,
}
use arkain.B2b.Status.{can_transition}
use arkain.B2b.Pricing.{MissingPriceError, PricedLines}
use arkain.B2b.Rows.{PurchaseOrderRow, Tables, Database}
use arkain.B2b.Store.{
  create_account, upsert_price_list_entry, create_purchase_order, submit_purchase_order,
  approve_purchase_order, reject_purchase_order, fulfill_purchase_order, cancel_purchase_order,
  of_tenant, stamp_submitted, stamp_approved, stamp_rejected, stamp_none,
}
use arkain.B2b.Store.Transition.{moved, outcome, after, transition-IsTransition}
use arkain.B2b.Store.Creation.{priced, new_row, creation}
use arkain.B2b.Store.Calls.{
  Call, add_account, set_price, create, submit, approve, reject, fulfill, cancel, caller, perform,
  perform_all,
}

-- The same order, possibly at a later status.
pub record Continues (old new : PurchaseOrderRow) : Type 0 where
  pub tenant_id : new.tenant_id ≡ old.tenant_id
  pub account_id : new.account_id ≡ old.account_id
  pub items : new.items ≡ old.items
  pub total : new.total_amount_krw ≡ old.total_amount_krw
  pub memo : new.memo ≡ old.memo

Continues-refl : (r : PurchaseOrderRow) → Continues r r
Continues-refl r = ground arith

Continues-trans : {a b c : PurchaseOrderRow} → Continues a b → Continues b c → Continues a c
Continues-trans h k = record {
  tenant_id = k.tenant_id ∙ h.tenant_id;
  account_id = k.account_id ∙ h.account_id;
  items = k.items ∙ h.items;
  total = k.total ∙ h.total;
  memo = k.memo ∙ h.memo;
}

-- The order under the key `j` after a call by `tenant_id`.
abbrev Persists : (t : Tables) → String → Database t → String → PurchaseOrderRow → Type 0
Persists t tenant_id db j r =
    (new : PurchaseOrderRow) × (t.orders.find j db.orders ≡ some new)
    × Continues r new
    × (r.tenant_id ≢ tenant_id → new ≡ r)

module _ (t : Tables) (tenant_id id : String) (to : PurchaseOrderStatus)
    (stamp : PurchaseOrderRow → PurchaseOrderRow) (db : Database t)
    (neutral : (r : PurchaseOrderRow) → Continues r (moved to stamp r)) where
  advanced :
      (r : PurchaseOrderRow)
      → (new : PurchaseOrderRow) × ((outcome id to stamp
            (select (of_tenant t tenant_id) (some r))
            (some r)).1
          ≡ some new)
        × Continues r new
        × (r.tenant_id ≢ tenant_id → new ≡ r)
  advanced r = elim (String-discrete r.tenant_id tenant_id) [
    | no other ↦ (r, ground arith, Continues-refl r, λ _. refl)
    | yes own ↦ elim (Bool-cases (can_transition r.status to)) [
      | inr cannot ↦ (r, ground arith, Continues-refl r, λ _. refl)
      | inl can ↦ (moved to stamp r, ground arith, neutral r, λ other. absurd (other own))
    ]
  ]

  transition-Persists :
      (j : String) (r : PurchaseOrderRow)
      → t.orders.find j db.orders ≡ some r
      → Persists t tenant_id (after t tenant_id id to stamp db) j r
  transition-Persists j r found =
      let e = (transition-IsTransition t tenant_id id to stamp db).orders j in
      let (new, is_new, continues, own) = advanced r in
      elim (t.orders.dec id j) [
        | no other ↦ (r, (rw (if_neg _ other) at e) ∙ found, Continues-refl r, λ _. refl)
        | yes same ↦
            let here = subst (λ k. t.orders.find k db.orders ≡ some r) (sym same) found in
            (new, (rw (if_pos _ same, here) at e) ∙ is_new, continues, own)
      ]

-- A new order has a key that was free, so no order is overwritten.
creation-keeps :
    (t : Tables) (input : CreatePurchaseOrderInput) (db : Database t)
    (p : Result MissingPriceError PricedLines)
    → priced t input db ≡ p
    → (j : String) (r : PurchaseOrderRow) → t.orders.find j db.orders ≡ some r
    → t.orders.find j (create_purchase_order t input db).1.orders ≡ some r
creation-keeps t input db (throw x) h j r found =
    ap (λ x. t.orders.find j x.1.orders) (creation t input db (throw x) h) ∙ found
creation-keeps t input db (ok p) h j r found =
    let row = new_row input p in
    ap (λ x. t.orders.find j x.1.orders) (creation t input db (ok p) h)
    ∙ (t.orders.find-create row db.orders j ∙ kept)
  where
    kept :
        ite
          (t.orders.dec (t.orders.create (new_row input p) db.orders).0 j)
          (some (new_row input p))
          (t.orders.find j db.orders)
        ≡ some r
    kept = elim (t.orders.dec (t.orders.create (new_row input p) db.orders).0 j) [
      | no other ↦ rw (if_neg _ other) found
      | yes same ↦ absurd (cc (t.orders.create_fresh (new_row input p) db.orders, same, found))
    ]

perform-Persists :
    (t : Tables) (c : Call) (db : Database t) (j : String) (r : PurchaseOrderRow)
    → t.orders.find j db.orders ≡ some r
    → Persists t (caller c) (perform t c db) j r
unfolding perform create_account upsert_price_list_entry submit_purchase_order
    approve_purchase_order reject_purchase_order fulfill_purchase_order cancel_purchase_order
perform-Persists t (add_account input) db j r h = (r, h, Continues-refl r, λ _. refl)
perform-Persists t (set_price u entry) db j r h = (r, h, Continues-refl r, λ _. refl)
perform-Persists t (create input) db j r h =
    (r, creation-keeps t input db (priced t input db) refl j r h, Continues-refl r, λ _. refl)
perform-Persists t (submit now u id) db j r h =
    transition-Persists t u id submitted (stamp_submitted now) db (λ x. ground arith) j r h
perform-Persists t (approve now u id) db j r h =
    transition-Persists t u id approved (stamp_approved now) db (λ x. ground arith) j r h
perform-Persists t (reject now u id reason) db j r h =
    transition-Persists t u id rejected (stamp_rejected now reason) db (λ x. ground arith) j r h
perform-Persists t (fulfill u id) db j r h =
    transition-Persists t u id fulfilled stamp_none db (λ x. ground arith) j r h
perform-Persists t (cancel u id) db j r h =
    transition-Persists t u id cancelled stamp_none db (λ x. ground arith) j r h

-- Whatever calls are made, failing or not, an order that is there stays there under its key, with
-- the same tenant, account, items, total and memo.
pub perform_all-Continues :
    (t : Tables) (calls : List Call) (db : Database t) (j : String) (r : PurchaseOrderRow)
    → t.orders.find j db.orders ≡ some r
    → (new : PurchaseOrderRow) × (t.orders.find j (perform_all t calls db).orders ≡ some new)
      × Continues r new
unfolding perform_all
perform_all-Continues t [] db j r h = (r, h, Continues-refl r)
perform_all-Continues t (c ∷ cs) db j r h =
    let (mid, there, first, own) = perform-Persists t c db j r h in
    let (new, found, rest) = perform_all-Continues t cs (perform t c db) j mid there in
    (new, found, Continues-trans first rest)

-- Calls made in the names of other tenants leave an order exactly as it was.
pub perform_all-other_tenants :
    (t : Tables) (calls : List Call) (db : Database t) (j : String) (r : PurchaseOrderRow)
    → All (λ c. r.tenant_id ≢ caller c) calls
    → t.orders.find j db.orders ≡ some r
    → t.orders.find j (perform_all t calls db).orders ≡ some r
unfolding perform_all
perform_all-other_tenants t [] db j r others h = h
perform_all-other_tenants t (c ∷ cs) db j r others h =
    let (new, there, _, own) = perform-Persists t c db j r h in
    perform_all-other_tenants t cs (perform t c db) j r others.1 (there ∙ ap some (own others.0))
