-- ===== src/Adapters/Esm/Client.antt =====
-- src/integrations/esm/esm.http.ts: the client of ESM PLUS, which answers with status 200 and puts its
-- errors into the body. Hashes, base64 and JSON are parameters; the world is that of `fetch`.
pub mod Refusals
mod Examples
use Prim.Native.Char.{Char, code}
use arkain.Prelude.{
  ℕ, String, Bool, true, false, ◌||◌, Option, none, some, List, [], ◌∷◌, ◌++◌, Result, ok, throw,
  leb, if◌then◌else◌, ◌==◌,
}
use arkain.Prelude.Text.{append}
use arkain.Prelude.Exec.{Exec, ◌>>=◌, from_result}
use arkain.Marketplace.Types.{esm_2_0, MarketplaceError}
use arkain.Retry.{RaisedError, marketplace_error, RetryOptions, Outcome, with_retry}
use arkain.Adapters.Transport.{Body, no_body, RequestSpec, filled, permanent}
use arkain.Adapters.Http.{
  HttpResponse, HttpRequest, Scalar, null_value, text_value, JsonReader, Number, whole,
  other_number, number_or_zero, number_text, method_text, decimal, text_or, slice_first, includes,
  is_success, parse_json, retry_after_ms, failed_text, scalar_text,
}
use arkain.Adapters.Esm.{EsmCredential, EsmSite, auction, gmarket}

-- `replace` of each such character
unfoldable pub replace_all : Char → Char → String → String
replace_all from to String.[] = String.[]
replace_all from to (String.◌∷◌ c s) =
    String.◌∷◌ (if code c == code from then to else c) (replace_all from to s)

abbrev pub pad_front : Char → String → String
pad_front c String.[] = if code c == code "=" then String.[] else String.◌∷◌ c String.[]
pad_front c (String.◌∷◌ d s) = String.◌∷◌ c (String.◌∷◌ d s)

-- `replace(/=+$/, "")`
unfoldable pub drop_padding : String → String
drop_padding String.[] = String.[]
drop_padding (String.◌∷◌ c s) = pad_front c (drop_padding s)

-- base64 in its form for URLs
unfoldable pub url_safe : String → String
unfolding replace_all drop_padding
url_safe text = drop_padding (replace_all "/" "_" (replace_all "+" "-" text))

unfoldable pub map_http_error : JsonReader → HttpResponse → String → MarketplaceError
unfolding decimal parse_json slice_first retry_after_ms
map_http_error json res context = record {
  message =
      failed_text "ESM 2.0" context (append "HTTP " (decimal res.status))
        (text_or (json.member "Message" (parse_json json res.text)) (slice_first 200 res.text));
  marketplace = esm_2_0;
  retryable = res.status == 429 || leb 500 res.status;
  status = some res.status;
  code = none;
  retry_after_ms = retry_after_ms json res;
}

-- the test of the message
unfoldable pub is_rate_limited : String → Bool
unfolding includes
is_rate_limited message =
    (includes "초당" message || includes "잠시 후 다시" message) || includes "다시 시도" message

unfoldable pub map_result_error : Number → String → String → MarketplaceError
unfolding decimal is_rate_limited
map_result_error result_code message context = record {
  message = failed_text "ESM 2.0" context (append "ResultCode " (number_text result_code)) message;
  marketplace = esm_2_0;
  retryable = is_rate_limited message;
  status = none;
  code = some (number_text result_code);
  retry_after_ms = if is_rate_limited message then some 5000 else none;
}

abbrev pub is_zero : Number → Bool
is_zero (whole n) = n == 0
is_zero (other_number text) = false

pub record Outside (W : Type 0) : Type 1 where
  pub json : JsonReader
  pub fetch : HttpRequest → W → Result RaisedError HttpResponse × W
  pub retry : RetryOptions W
  -- the JSON of an object of texts, base64 of a text, and HMAC-SHA256 in base64 under a key
  pub json_text : List (String × String) → String
  pub base64 : String → String
  pub hmac_base64 : String → String → String
  pub url_text : String → String → String
  pub body_text : Body → String

abbrev pub site_letter : EsmSite → String
site_letter auction = "A"
site_letter gmarket = "G"

abbrev pub missing_name : EsmSite → String
missing_name auction = "auctionSellerId"
missing_name gmarket = "gmarketSellerId"

abbrev pub seller_id_at : EsmCredential → EsmSite → Option String
seller_id_at cred auction = cred.auction_seller_id
seller_id_at cred gmarket = cred.gmarket_seller_id

module _ {W : Type 0} (o : Outside W) (base_url : String) (cred : EsmCredential) where
  abbrev pub Action : Type 0 → Type 0
  Action A = Exec RaisedError W A

  abbrev pub header : String
  header =
      url_safe
        (o.base64 (o.json_text (("alg", "HS256") ∷ ("typ", "JWT") ∷ ("kid", cred.master_id) ∷ [])))

  abbrev pub payload : EsmSite → String → String
  payload site seller_id = url_safe (
      o.base64 (
        o.json_text (
          ("iss", cred.client_domain)
          ∷ ("sub", "sell")
          ∷ ("aud", "sa.esmplus.com")
          ∷ ("ssi", append (site_letter site) (append ":" seller_id))
          ∷ [])))

  abbrev pub token_of : String → String → String
  token_of head load = append head (
      append "." (
        append load
          (append "." (url_safe (o.hmac_base64 cred.secret_key (append head (append "." load)))))))

  abbrev pub signed : EsmSite → Option String → Result RaisedError String
  signed site none =
      throw (
        permanent esm_2_0
          (append "Missing " (append (missing_name site) " for ESM 2.0 credential")))
  signed site (some seller_id) = ok (token_of header (payload site seller_id))

  unfoldable pub sign : EsmSite → Result RaisedError String
  unfolding url_safe
  sign site = signed site (filled (seller_id_at cred site))

  abbrev pub body_of : Body → Option String
  body_of no_body = none
  body_of body = some (o.body_text body)

  abbrev pub content_type : Body → List (String × String)
  content_type no_body = []
  content_type body = ("content-type", "application/json") ∷ []

  abbrev pub http_request : RequestSpec → String → HttpRequest
  http_request spec token = record {
    method = method_text spec.method;
    url = o.url_text base_url spec.path;
    headers =
        (("authorization", append "Bearer " token) ∷ ("accept", "application/json") ∷ [])
        ++ content_type spec.body;
    body = body_of spec.body;
  }

  abbrev pub result_code : o.json.Json → Number
  result_code json = number_or_zero o.json (o.json.member "ResultCode" json)

  abbrev pub checked_body : RequestSpec → o.json.Json → Result RaisedError o.json.Json
  checked_body spec json =
      if is_zero (result_code json)
      then ok json
      else throw (
          marketplace_error (
            map_result_error (result_code json) (text_or (o.json.member "Message" json) "")
              spec.path))

  unfoldable pub read_answer : RequestSpec → HttpResponse → Result RaisedError o.json.Json
  unfolding parse_json map_http_error map_result_error
  read_answer spec res =
      if is_success res
      then checked_body spec (parse_json o.json res.text)
      else throw (marketplace_error (map_http_error o.json res spec.path))

  -- one attempt
  unfoldable pub attempt : EsmSite → RequestSpec → Action o.json.Json
  unfolding sign read_answer
  attempt site spec = from_result (sign site) >>= λ token.
      o.fetch (http_request spec token) >>= λ res w. (read_answer spec res, w)

  unfoldable pub request : EsmSite → RequestSpec → W → Outcome o.json.Json W
  unfolding attempt with_retry
  request site spec = with_retry o.retry (λ _. attempt site spec)
