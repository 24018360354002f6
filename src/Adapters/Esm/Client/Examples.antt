-- ===== src/Adapters/Esm/Client/Examples.antt =====
-- The client at work, on an outside that answers each request with a body whose result code is 0.
use arkain.Prelude.{◌≡◌, refl, ℕ, ◌+◌, String, String-discrete, some, none, [], ok}
use arkain.Retry.{RetryOptions, with_retry}
use arkain.Adapters.Transport.{RequestSpec, post, search_page}
use arkain.Adapters.Http.{JsonReader, whole}
use arkain.Adapters.Esm.{EsmCredential, auction}
use arkain.Adapters.Esm.Client.{Outside, request}
use arkain.Adapters.Esm.Client.Refusals.{IsAnswer, request-IsAnswer}

abbrev reader : JsonReader
reader = record {
  Json = String;
  parse = λ text. some text;
  empty = "";
  member = λ name body. none;
  number = λ value. whole 0;
  header_number = λ text. none;
}

abbrev twice : RetryOptions ℕ
twice = record {
  max_attempts = 2;
  base_delay_ms = 500;
  max_delay_ms = 20000;
  sleep = λ d calls. calls;
  resolution = 1;
  random = λ calls. (0, calls);
}

-- The world counts the calls.
abbrev outside : Outside ℕ
outside = record {
  json = reader;
  fetch = λ request calls.
      (ok (record { status = 200; retry_after = none; text = "goods" }), calls + 1);
  retry = twice;
  json_text = λ fields. "fields";
  base64 = λ text. "YQ==";
  hmac_base64 = λ key text. "c2ln+";
  url_text = λ base path. path;
  body_text = λ body. "";
}

abbrev credential : EsmCredential
credential = record {
  master_id = "master";
  secret_key = "key";
  client_domain = "shop.kr";
  auction_seller_id = some "seller";
  gmarket_seller_id = none;
}

abbrev search : RequestSpec
search = record {
  method = post;
  path = "/item/v1/goods/search";
  query = [];
  body = search_page 1 200;
}

answered : (request outside "https://sa2" credential auction search 0).result ≡ ok "goods"
unfolding request with_retry String-discrete
answered = refl

request-IsAnswer_example :
    IsAnswer outside "https://sa2" credential auction search "goods"
      (request outside "https://sa2" credential auction search 0).world
request-IsAnswer_example =
    request-IsAnswer outside "https://sa2" credential auction search 0 "goods" answered
