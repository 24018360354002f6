-- ===== src/Adapters/Naver/Client/Examples.antt =====
-- The client at work, on an outside whose world is the clock.
use arkain.Prelude.{
  ◌≡◌, refl, ℕ, ◌+◌, String, Option, none, some, [], ◌∷◌, ok, arith, String-discrete, holds,
  if◌then◌else◌,
}
use arkain.Prelude.Dict.{lookup, insert}
use arkain.Retry.{RetryOptions, with_retry}
use arkain.Adapters.Transport.{RequestSpec, get, no_body}
use arkain.Adapters.Http.{HttpResponse, Scalar, text_value, other_value, JsonReader, whole}
use arkain.Adapters.Naver.{NaverHttpConfig}
use arkain.Adapters.Naver.Client.{
  CachedToken, Client, Outside, get_token, issue_token, read_answer, cache_key, with_world,
}
use arkain.Adapters.Naver.Client.Tokens.{get_token_again}

-- Every body is an object with a token that is good for an hour.
members : String → String → Option Scalar
unfolding String-discrete
members name body =
    if holds (String-discrete name "access_token")
    then some (text_value body)
    else if holds (String-discrete name "expires_in")
    then some (other_value "3600")
    else none

abbrev reader : JsonReader
reader = record {
  Json = String;
  parse = λ text. some text;
  empty = "";
  member = members;
  number = λ value. whole 3600;
  header_number = λ text. none;
}

abbrev once : RetryOptions (Client ℕ)
once = record {
  max_attempts = 1;
  base_delay_ms = 500;
  max_delay_ms = 20000;
  sleep = λ d s. s;
  resolution = 1;
  random = λ s. (0, s);
}

abbrev outside : Outside ℕ
outside = record {
  json = reader;
  fetch =
      λ request clock. (ok (record { status = 200; retry_after = none; text = "abc" }), clock + 1);
  now = λ clock. (clock, clock + 1);
  retry = once;
  hash = λ text salt. text;
  base64 = λ text. text;
  form_text = λ fields. "";
  url_text = λ base path query. path;
  body_text = λ body. "";
}

abbrev config : NaverHttpConfig
config = record {
  base_url = "https://api";
  client_id = "id";
  client_secret = "salt";
  account_id = some "shop";
}

abbrev at_start : Client ℕ
at_start = record { cache = []; world = 5 }

abbrev token : CachedToken
token = record { access_token = "abc"; expires_at_ms = 3600007 }

abbrev after : Client ℕ
after = record { cache = ("shop", token) ∷ []; world = 8 }

token_issued : get_token outside config at_start ≡ (ok "abc", after)
unfolding get_token lookup insert String-discrete members with_retry
token_issued = refl

token_kept : lookup String-discrete (cache_key outside config) after.cache ≡ some token
unfolding lookup cache_key String-discrete
token_kept = refl

abbrev orders : RequestSpec
orders = record { method = get; path = "/orders"; query = []; body = no_body }

abbrev unauthorized : HttpResponse
unauthorized = record { status = 401; retry_after = none; text = "" }

get_token_again_example :
    (get_token outside config after ≡ (ok "abc", with_world outside config after 9))
    × (get_token outside config (read_answer outside config orders unauthorized after).1
        ≡ issue_token outside config (read_answer outside config orders unauthorized after).1)
get_token_again_example =
    get_token_again outside config at_start after "abc" token orders unauthorized token_issued
      token_kept (omega arith) refl
