-- ===== src/Adapters/Naver/Client.antt =====
-- src/integrations/naver/naver.http.ts: the client of Naver, with its cache of tokens. A client's state
-- is the cache and the world of the outside, `fetch` a request that may fail with no answer. `hash` is
-- the bcrypt hash of a text with a salt, `form_text` and `url_text` the coding of parameters.
pub mod Tokens
mod Examples
use arkain.Prelude.{
  ℕ, ◌+◌, ◌*◌, String, Bool, true, false, ◌||◌, Option, none, some, List, [], ◌∷◌, ◌++◌, Result, ok,
  throw, leb, ltb, if◌then◌else◌, ◌==◌, String-discrete, holds,
}
use arkain.Prelude.Dict.{lookup, insert}
use arkain.Prelude.Text.{append}
use arkain.Prelude.Exec.{Exec, ◌>>=◌, pure}
use arkain.Marketplace.Types.{naver_smartstore, MarketplaceError}
use arkain.Retry.{RaisedError, marketplace_error, RetryOptions, Outcome, with_retry}
use arkain.Adapters.Transport.{Body, no_body, RequestSpec, filled, has_some}
use arkain.Adapters.Http.{
  HttpResponse, HttpRequest, Scalar, null_value, text_value, other_value, JsonReader, method_text,
  decimal, coalesce, text_or, includes, slice_first, is_success, defined_query, code_part, code_of,
  parse_json, retry_after_ms, failed_text, Number, whole, other_number, number_or_zero,
}
use arkain.Adapters.Naver.{NaverHttpConfig}

pub record CachedToken : Type 0 where
  pub access_token : String
  pub expires_at_ms : ℕ

pub record Client (W : Type 0) : Type 0 where
  pub cache : List (String × CachedToken)
  pub world : W

abbrev pub token_skew_ms : ℕ
token_skew_ms = 60000

-- `this.cache.delete(key)`
unfoldable pub without : String → List (String × CachedToken) → List (String × CachedToken)
without key [] = []
without key ((k, token) ∷ rest) =
    let others = without key rest in
    if holds (String-discrete k key) then others else (k, token) ∷ others

-- the rate limit of the gateway, by its code
abbrev pub is_limit_code : Option Scalar → Bool
is_limit_code (some (text_value s)) = includes "RATELIMIT" s
is_limit_code _ = false

abbrev pub or_self : Option String → String
or_self none = "SELF"
or_self (some account) = account

abbrev pub missing_fields : HttpResponse → RaisedError
missing_fields res = marketplace_error (record {
  message = "Naver token response missing fields";
  marketplace = naver_smartstore;
  retryable = false;
  status = some res.status;
  retry_after_ms = none;
  code = none;
})

module _ (json : JsonReader) where
  unfoldable pub map_http_error : HttpResponse → String → MarketplaceError
  unfolding decimal parse_json slice_first includes retry_after_ms
  map_http_error res context =
      let body = parse_json json res.text in
      let code = coalesce (json.member "code" body) (json.member "errorCode" body) in
      record {
        message = failed_text "Naver" context (append (decimal res.status) (code_part code)) (
            text_or (coalesce (json.member "message" body) (json.member "error_description" body))
              (slice_first 200 res.text));
        marketplace = naver_smartstore;
        retryable = (res.status == 429 || is_limit_code code) || leb 500 res.status;
        status = some res.status;
        code = code_of code;
        retry_after_ms = retry_after_ms json res;
      }

-- the seconds of a token, which the server gives as a whole number; another number is taken as NaN
abbrev pub seconds_of : Number → ℕ
seconds_of (whole n) = n
seconds_of (other_number text) = 0

-- The outside of a client: its `deps`, the hash, and the coding of what it sends.
pub record Outside (W : Type 0) : Type 1 where
  pub json : JsonReader
  pub fetch : HttpRequest → W → Result RaisedError HttpResponse × W
  pub now : W → ℕ × W
  pub retry : RetryOptions (Client W)
  pub hash : String → String → String
  pub base64 : String → String
  pub form_text : List (String × String) → String
  pub url_text : String → String → List (String × String) → String
  pub body_text : Body → String

module _ {W : Type 0} (o : Outside W) (config : NaverHttpConfig) where
  abbrev pub Action : Type 0 → Type 0
  Action A = Exec RaisedError (Client W) A

  abbrev pub with_world : Client W → W → Client W
  with_world s w = record s { world = w }

  -- a reading of the clock
  abbrev pub read_now : Action ℕ
  read_now s = (ok (o.now s.world).0, with_world s (o.now s.world).1)

  abbrev pub send : HttpRequest → Action HttpResponse
  send request s = ((o.fetch request s.world).0, with_world s (o.fetch request s.world).1)

  -- `withRetry(...)`, as what it gives and leaves
  abbrev pub retried : {A : Type 0} → Action A → Action A
  retried action s =
      ((with_retry o.retry (λ _. action) s).result, (with_retry o.retry (λ _. action) s).world)

  unfoldable pub sign : ℕ → String
  unfolding decimal
  sign timestamp_ms =
      o.base64
        (o.hash (append config.client_id (append "_" (decimal timestamp_ms))) config.client_secret)

  unfoldable pub cache_key : String
  cache_key = or_self config.account_id

  -- `form.set("account_id", ...)`, of an account that is named
  abbrev pub account_form : Option String → List (String × String)
  account_form none = []
  account_form (some account) = ("account_id", account) ∷ []

  abbrev pub token_request : ℕ → HttpRequest
  token_request timestamp = record {
    method = "POST";
    url = append config.base_url "/external/v1/oauth2/token";
    headers = ("content-type", "application/x-www-form-urlencoded") ∷ [];
    body = some (
        o.form_text (
          ("client_id", config.client_id)
          ∷ ("timestamp", decimal timestamp)
          ∷ ("grant_type", "client_credentials")
          ∷ ("client_secret_sign", sign timestamp)
          ∷ ("type", if has_some (filled config.account_id) then "SELLER" else "SELF")
          ∷ account_form (filled config.account_id)));
  }

  -- what a token is kept as, with the time after the answer
  unfoldable pub keep_token : String → ℕ → Action String
  unfolding cache_key
  keep_token access_token expires_in s = (
    ok access_token,
    record {
      cache =
          insert String-discrete cache_key
            (record {
              access_token = access_token;
              expires_at_ms = (o.now s.world).0 + expires_in * 1000;
            })
            s.cache;
      world = (o.now s.world).1;
    },
  )

  -- an answer with status 2xx
  unfoldable pub accept_token : HttpResponse → Option Scalar → ℕ → Action String
  unfolding keep_token
  accept_token res (some (text_value access_token)) expires_in s =
      if expires_in == 0
      then (throw (missing_fields res), s)
      else keep_token access_token expires_in s
  accept_token res _ expires_in s = (throw (missing_fields res), s)

  unfoldable pub read_token : HttpResponse → Action String
  unfolding accept_token parse_json map_http_error
  read_token res s =
      if is_success res
      then accept_token res (o.json.member "access_token" (parse_json o.json res.text))
          (seconds_of
            (number_or_zero o.json (o.json.member "expires_in" (parse_json o.json res.text))))
          s
      else (throw (marketplace_error (map_http_error o.json res "token")), s)

  unfoldable pub issue_token : Action String
  unfolding sign read_token decimal with_retry
  issue_token = do timestamp ← read_now; retried (send (token_request timestamp) >>= read_token)

  -- a token that is there, at the time that is read
  abbrev pub use_cached : CachedToken → ℕ → Action String
  use_cached cached now_ms =
      if ltb (now_ms + token_skew_ms) cached.expires_at_ms
      then pure cached.access_token
      else issue_token

  abbrev pub from_cache : Option CachedToken → Action String
  from_cache none = issue_token
  from_cache (some cached) = read_now >>= use_cached cached

  unfoldable pub get_token : Action String
  unfolding issue_token cache_key
  get_token s = from_cache (lookup String-discrete cache_key s.cache) s

  abbrev pub body_of : Body → Option String
  body_of no_body = none
  body_of body = some (o.body_text body)

  abbrev pub content_type : Body → List (String × String)
  content_type no_body = []
  content_type body = ("content-type", "application/json") ∷ []

  abbrev pub json_request : RequestSpec → String → HttpRequest
  json_request spec token = record {
    method = method_text spec.method;
    url = o.url_text config.base_url spec.path (defined_query spec.query);
    headers =
        (("authorization", append "Bearer " token) ∷ ("accept", "application/json") ∷ [])
        ++ content_type spec.body;
    body = body_of spec.body;
  }

  -- an answer to a request: on status 401 the token is dropped
  unfoldable pub read_answer : RequestSpec → HttpResponse → Action o.json.Json
  unfolding parse_json map_http_error cache_key without
  read_answer spec res s = if is_success res then (ok (parse_json o.json res.text), s) else (
    throw (marketplace_error (map_http_error o.json res spec.path)),
    if res.status == 401 then record s { cache = without cache_key s.cache } else s,
  )

  unfoldable pub request : RequestSpec → Action o.json.Json
  unfolding get_token read_answer with_retry
  request spec =
      retried (do token ← get_token; res ← send (json_request spec token); read_answer spec res)
