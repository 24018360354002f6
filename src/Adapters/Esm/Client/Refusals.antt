-- ===== src/Adapters/Esm/Client/Refusals.antt =====
-- What the client of ESM PLUS refuses.
use arkain.Prelude.{◌≡◌, refl, String, true, Result, ok, throw, Bool-cases, inl, inr, subst}
use arkain.Prelude.Exec.{continue}
use arkain.Retry.{RaisedError}
use arkain.Retry.Results.{with_retry-Holds}
use arkain.Adapters.Transport.{RequestSpec}
use arkain.Adapters.Http.{HttpResponse, parse_json, is_success}
use arkain.Adapters.Esm.{EsmCredential, EsmSite}
use arkain.Adapters.Esm.Client.{
  Outside, sign, attempt, request, read_answer, is_zero, result_code, http_request,
}

module _ {W : Type 0} (o : Outside W) (base_url : String) (cred : EsmCredential) where
  -- A body was the answer to a signed request of the storefront that was sent in some world and left
  -- this one: its status was 2xx and its result code 0.
  pub record IsAnswer (site : EsmSite) (spec : RequestSpec) (json : o.json.Json) (after : W)
      : Type 0 where
    pub token : String
    pub before : W
    pub res : HttpResponse
    pub signed_as : sign o base_url cred site ≡ ok token
    pub sent : o.fetch (http_request o base_url cred spec token) before ≡ (ok res, after)
    pub success : is_success res ≡ true
    pub body : json ≡ parse_json o.json res.text
    pub code_zero : is_zero (result_code o base_url cred json) ≡ true

  abbrev AnswerAfter : EsmSite → RequestSpec → Result RaisedError o.json.Json × W → Type 0
  AnswerAfter site spec (ok json, after) = IsAnswer site spec json after
  AnswerAfter site spec (throw e, after) = Unit

  read_lem :
      (site : EsmSite) (spec : RequestSpec) (token : String) (before : W)
      (r : Result RaisedError HttpResponse) (after : W)
      → sign o base_url cred site ≡ ok token
      → o.fetch (http_request o base_url cred spec token) before ≡ (r, after)
      → AnswerAfter site spec
          (continue r (λ res w. (read_answer o base_url cred spec res, w)) after)
  unfolding read_answer
  read_lem site spec token before (throw e) after made sent = tt
  read_lem site spec token before (ok res) after made sent = elim (Bool-cases (is_success res)) [
    | inr bad ↦ rw bad tt
    | inl good ↦
        elim (Bool-cases (is_zero (result_code o base_url cred (parse_json o.json res.text)))) [
          | inr other ↦ rw (good, other) tt
          | inl zero_code ↦
              rw (good, zero_code)
                (record {
                  token = token;
                  before = before;
                  res = res;
                  signed_as = made;
                  sent = sent;
                  success = good;
                  body = refl;
                  code_zero = zero_code;
                })
        ]
  ]

  attempt_lem :
      (site : EsmSite) (spec : RequestSpec) (before : W) (t : Result RaisedError String)
      → sign o base_url cred site ≡ t
      → AnswerAfter site spec (
          continue t
            (λ token w.
              continue
                (o.fetch (http_request o base_url cred spec token) w).0
                (λ res w. (read_answer o base_url cred spec res, w))
                (o.fetch (http_request o base_url cred spec token) w).1)
            before)
  attempt_lem site spec before (throw e) made = tt
  attempt_lem site spec before (ok token) made =
      read_lem site spec token before (o.fetch (http_request o base_url cred spec token) before).0
        (o.fetch (http_request o base_url cred spec token) before).1 made refl

-- Where a request gives a body, the last call sent a request with a token of the credential for the
-- storefront, its answer had a status of 2xx, the body is the JSON of its text, and the result code
-- in it is 0: an error in the body of an answer with status 200 never passes as a result.
pub request-IsAnswer :
    {W : Type 0} (o : Outside W) (base_url : String) (cred : EsmCredential) (site : EsmSite)
    (spec : RequestSpec) (w : W) (json : o.json.Json)
    → (request o base_url cred site spec w).result ≡ ok json
    → IsAnswer o base_url cred site spec json (request o base_url cred site spec w).world
unfolding request attempt
request-IsAnswer o base_url cred site spec w json =
    with_retry-Holds o.retry (λ _. attempt o base_url cred site spec)
      (IsAnswer o base_url cred site spec)
      (λ _ before after a e.
        subst (AnswerAfter o base_url cred site spec) e
          (attempt_lem o base_url cred site spec before (sign o base_url cred site) refl))
      w json
