-- ===== src/Adapters/Coupang/Client.antt =====
-- src/integrations/coupang/coupang.http.ts: the client of Coupang, which signs each request. `utc` reads
-- the parts of a time in UTC, `hmac` is HMAC-SHA256 in hexadecimal of a text under a key, `form_text`
-- the coding of parameters, and the world is that of the clock and of `fetch`.
use Prim.Native.String.{compare}
use Prim.Native.Nat.{Ordering}
use arkain.Prelude.{
  ℕ, ◌+◌, String, Bool, true, false, ◌||◌, Option, none, some, List, [], ◌∷◌, ◌++◌, Result, ok,
  throw, leb, if◌then◌else◌, ◌==◌,
}
use arkain.Prelude.Sort.{sort}
use arkain.Prelude.Text.{append}
use arkain.Prelude.Exec.{Exec, ◌>>=◌}
use arkain.Marketplace.Types.{coupang, MarketplaceError}
use arkain.Retry.{RaisedError, marketplace_error, RetryOptions, Outcome, with_retry}
use arkain.Adapters.Transport.{Body, no_body, RequestSpec, is_empty}
use arkain.Adapters.Http.{
  HttpResponse, HttpRequest, Utc, pad, Scalar, JsonReader, method_text, decimal, text_or,
  slice_first, is_success, defined_query, parse_json, retry_after_ms, failed_text, scalar_text,
}
use arkain.Adapters.Coupang.{CoupangCredential}

-- `s.slice(2)`
abbrev pub slice_from_two : String → String
slice_from_two (String.◌∷◌ a (String.◌∷◌ b s)) = s
slice_from_two _ = ""

unfoldable pub format_signed_date : (ℕ → Utc) → ℕ → String
unfolding pad decimal
format_signed_date utc now_ms =
    let d = utc now_ms in
    append (slice_from_two (decimal d.full_year)) (
      append (pad (d.month + 1)) (
        append (pad d.date) (
          append "T" (append (pad d.hours) (append (pad d.minutes) (append (pad d.seconds) "Z"))))))

-- the order of the keys
abbrev pub key_precedes : String × String → String × String → Bool
key_precedes (a, _) (b, _) = elim (compare a b) [ Ordering.gt ↦ false | _ ↦ true ]

-- the parameters that are there, by their keys
unfoldable pub build_signed_query :
    (List (String × String) → String) → List (String × Option String) → String
unfolding sort
build_signed_query form_text query = form_text (sort key_precedes (defined_query query))

-- `String(body.code)` where it is not undefined
abbrev pub code_text : Option Scalar → Option String
code_text none = none
code_text (some value) = some (scalar_text value)

abbrev pub code_after : Option String → String
code_after none = ""
code_after (some s) = if is_empty s then "" else append " " s

unfoldable pub map_http_error : JsonReader → HttpResponse → String → MarketplaceError
unfolding decimal parse_json slice_first retry_after_ms
map_http_error json res context =
    let body = parse_json json res.text in
    let code = code_text (json.member "code" body) in
    record {
      message =
          failed_text "Coupang" context (append (decimal res.status) (code_after code))
            (text_or (json.member "message" body) (slice_first 200 res.text));
      marketplace = coupang;
      retryable = res.status == 429 || leb 500 res.status;
      status = some res.status;
      code = code;
      retry_after_ms = retry_after_ms json res;
    }

pub record Outside (W : Type 0) : Type 1 where
  pub json : JsonReader
  pub fetch : HttpRequest → W → Result RaisedError HttpResponse × W
  pub now : W → ℕ × W
  pub retry : RetryOptions W
  pub utc : ℕ → Utc
  pub hmac : String → String → String
  pub form_text : List (String × String) → String
  -- `new URL(path, base)`, with its search where that is not empty
  pub url_text : String → String → Option String → String
  pub body_text : Body → String

module _ {W : Type 0} (o : Outside W) (base_url : String) (cred : CoupangCredential) where
  abbrev pub Action : Type 0 → Type 0
  Action A = Exec RaisedError W A

  -- the header, at the time that is read
  unfoldable pub sign : String → String → String → ℕ → String
  unfolding format_signed_date
  sign method path query now_ms =
      let signed_date = format_signed_date o.utc now_ms in
      append "CEA algorithm=HmacSHA256, access-key=" (
        append cred.access_key (
          append ", signed-date=" (
            append signed_date (
              append ", signature=" (
                o.hmac cred.secret_key (append signed_date (append method (append path query))))))))

  abbrev pub body_of : Body → Option String
  body_of no_body = none
  body_of body = some (o.body_text body)

  abbrev pub content_type : Body → List (String × String)
  content_type no_body = []
  content_type body = ("content-type", "application/json;charset=UTF-8") ∷ []

  abbrev pub http_request : RequestSpec → String → ℕ → HttpRequest
  http_request spec query now_ms = record {
    method = method_text spec.method;
    url = o.url_text base_url spec.path (if is_empty query then none else some query);
    headers =
        (("authorization", sign (method_text spec.method) spec.path query now_ms)
          ∷ ("accept", "application/json")
          ∷ [])
        ++ content_type spec.body;
    body = body_of spec.body;
  }

  unfoldable pub read_answer : RequestSpec → HttpResponse → Result RaisedError o.json.Json
  unfolding parse_json map_http_error
  read_answer spec res =
      if is_success res
      then ok (parse_json o.json res.text)
      else throw (marketplace_error (map_http_error o.json res spec.path))

  -- one attempt
  unfoldable pub attempt : RequestSpec → Action o.json.Json
  unfolding sign build_signed_query read_answer
  attempt spec = (λ w. (ok (o.now w).0, (o.now w).1)) >>= λ now_ms.
      o.fetch (http_request spec (build_signed_query o.form_text spec.query) now_ms) >>= λ res w.
      (read_answer spec res, w)

  unfoldable pub request : RequestSpec → W → Outcome o.json.Json W
  unfolding attempt with_retry
  request spec = with_retry o.retry (λ _. attempt spec)
