-- ===== src/Adapters/Transport.antt =====
-- What the adapters ask of their clients: requests, and a transport that signs and sends them, with the
-- retry policy. `Json` is a parsed body.
use arkain.Prelude.{
  ℕ, zero, suc, [], ◌∷◌, String, Bool, true, false, Option, none, some, List, Result, ok, throw,
  if◌then◌else◌, holds, String-discrete,
}
use arkain.Prelude.Dict.{lookup}
use arkain.Prelude.Exec.{Exec}
use arkain.Marketplace.Types.{MarketplaceId, SellerCredential, NormalizedProduct}
use arkain.Retry.{RaisedError, marketplace_error}

pub data Method : Type 0 where
  get post : Method

-- The bodies that the adapters send.
pub data Body : Type 0 where
  no_body : Body
  -- `{ productOrderIds }`
  product_order_ids : List String → Body
  -- a page of a search, and its size
  search_page : ℕ → ℕ → Body
  -- siteType, orderStatus, requestDateFrom, requestDateTo, pageIndex and pageSize
  request_orders : ℕ → ℕ → String → String → ℕ → ℕ → Body

pub record RequestSpec : Type 0 where
  pub method : Method
  pub path : String
  pub query : List (String × Option String)
  pub body : Body

abbrev pub Call : Type 0 → Type 0 → Type 0
Call W A = Exec RaisedError W A

-- an error that is not worth a retry, with no answer behind it
abbrev pub permanent : MarketplaceId → String → RaisedError
permanent marketplace message = marketplace_error (record {
  message = message;
  marketplace = marketplace;
  retryable = false;
  status = none;
  retry_after_ms = none;
  code = none;
})

-- a field of a secret
abbrev pub field : String → SellerCredential → Option String
field name cred = lookup String-discrete name cred.secret

abbrev pub is_empty : String → Bool
is_empty s = holds (String-discrete s "")

abbrev pub or_else {ℓ} : {A : Type ℓ} → Option A → Option A → Option A
or_else none b = b
or_else (some a) b = some a

-- a text that is there and not empty
abbrev pub filled : Option String → Option String
filled none = none
filled (some s) = if is_empty s then none else some s

abbrev pub has_some : Option String → Bool
has_some none = false
has_some (some s) = true

-- `list[i]`
abbrev pub item_at {ℓ} : {A : Type ℓ} → List A → ℕ → Option A
item_at [] i = none
item_at (a ∷ rest) zero = some a
item_at (a ∷ rest) (suc i) = item_at rest i

-- `verifyCredential`: a marketplace's error that is not worth a retry is a verdict, any other error
-- is thrown on
abbrev pub verdict {ℓ} : {A : Type ℓ} → Result RaisedError A → Result RaisedError Bool
verdict (ok _) = ok true
verdict (throw (marketplace_error e)) =
    if e.retryable then throw (marketplace_error e) else ok false
verdict (throw e) = throw e

abbrev pub verdict_of {ℓ} : {A W : Type ℓ} → Result RaisedError A × W → Result RaisedError Bool × W
verdict_of (r, w) = (verdict r, w)

pub record FetchProductsParams : Type 0 where
  pub cursor : Option String
  pub page : Option ℕ
  pub page_size : Option ℕ

pub record FetchProductsPage : Type 0 where
  pub products : List NormalizedProduct
  pub next_cursor : Option String
