-- ===== src/App/Accounts/Recovery.antt =====
-- What the request for a reset tells.
use arkain.Prelude.{
  ◌≡◌, refl, sym, ap, ◌∙◌, ℕ, ◌+◌, String, Bool, true, false, Option, none, some, Result, ok, throw,
  inl, inr, Option-cases, Bool-cases, holds, String-discrete,
}
use arkain.Prisma.{Table}
use arkain.Throttle.Limiter.{Hits}
use arkain.Auth.Store.{
  SellerRow, find_seller_by_email, set_password_reset_token, found, to_record, is_text,
  with_reset_token, password_reset_token_ttl_ms,
}
use arkain.Prelude.Text.{append}
use arkain.App.Reply.{Reply, answered, refused, crashed, TypeError}
use arkain.App.Accounts.{
  AuthDeps, AccountsState, ForgotBody, forgot_password_request, issue_token, request_limited,
  request_required, request_parsed, company_code_of, email_of, consume_both,
}

-- The reply and the hits after it, which a caller can tell.
abbrev pub shown :
    {t : Table String SellerRow} → Reply (Unit {0}) × AccountsState t → Reply (Unit {0}) × Hits
shown (reply, s) = (reply, s.forgot_password_request_hits)

module _ (deps : AuthDeps) (t : Table String SellerRow) (code email token : String) (now_ms : ℕ)
    (s : AccountsState t) where
  abbrev SameAnswer : Option (String × SellerRow) → Type 0
  SameAnswer o =
      shown (issue_token deps t code email token now_ms (found o) s)
      ≡ (answered tt, s.forgot_password_request_hits)

  set_lem :
      (id : String) (row : SellerRow)
      → t.find id s.sellers ≡ some row
      → (after : t.Db) × (set_password_reset_token t id
            (deps.hash_password_reset_token token)
            (now_ms + password_reset_token_ttl_ms)
            s.sellers
          ≡ (ok tt, after))
  unfolding set_password_reset_token
  set_lem id row e =
      let (after, written, _) =
        t.update-some id
          (with_reset_token t (deps.hash_password_reset_token token)
            (now_ms + password_reset_token_ttl_ms))
          s.sellers row e in
      (after, rw written refl)

  found_lem :
      (id : String) (row : SellerRow) → t.find id s.sellers ≡ some row → SameAnswer (some (id, row))
  unfolding issue_token to_record
  found_lem id row e = elim (Bool-cases (holds (String-discrete row.company_code code))) [
    | inl matches ↦ rw matches (rw (set_lem id row e).1 refl)
    | inr differs ↦ rw differs refl
  ]

  issue_token_lem :
      shown (issue_token deps t code email token now_ms (find_seller_by_email t email s.sellers) s)
      ≡ (answered tt, s.forgot_password_request_hits)
  unfolding find_seller_by_email
  issue_token_lem = elim (Option-cases (t.find_first (λ _ r. is_text email r.email) s.sellers)) [
    | inl e ↦ rw e (unfold issue_token in refl)
    | inr ((id, row), e) ↦
        rw e
          (found_lem id row (t.find_first-some (λ _ r. is_text email r.email) s.sellers id row e).0)
  ]

module _ (deps : AuthDeps) (t : Table String SellerRow) where
  abbrev told : Bool × Hits → Reply (Unit {0}) × Hits
  told (false, hits) = (refused 429 "잠시 후 다시 시도해주세요", hits)
  told (true, hits) = (answered tt, hits)

  limited_lem :
      (code email token : String) (now_ms : ℕ) (s : AccountsState t) (p : Bool × Hits)
      → shown (request_limited deps t code email token now_ms s p) ≡ told p
  limited_lem code email token now_ms s (false, hits) = refl
  limited_lem code email token now_ms s (true, hits) =
      issue_token_lem deps t code email token now_ms
        (record s { forgot_password_request_hits = hits })

  required_lem :
      (code email : Option String) (ip token : String) (clock : ℕ → ℕ) (s s' : AccountsState t)
      → s.forgot_password_request_hits ≡ s'.forgot_password_request_hits
      → shown (request_required deps t code email ip token clock s)
        ≡ shown (request_required deps t code email ip token clock s')
  required_lem none email ip token clock s s' h =
      ap (λ hits. (refused 400 "companyCode and email are required", hits)) h
  required_lem (some code) none ip token clock s s' h =
      ap (λ hits. (refused 400 "companyCode and email are required", hits)) h
  required_lem (some code) (some email) ip token clock s s' h =
      let both : Hits → Bool × Hits =
        consume_both 5 (append "ip:" ip) (append "pair:" (append code (append ":" email))) clock in
      limited_lem code email token (clock 4) s (both s.forgot_password_request_hits)
      ∙ ap (λ hits. told (both hits)) h
      ∙ sym (limited_lem code email token (clock 4) s' (both s'.forgot_password_request_hits))

  parsed_lem :
      (code email : Result TypeError (Option String)) (ip token : String) (clock : ℕ → ℕ)
      (s s' : AccountsState t)
      → s.forgot_password_request_hits ≡ s'.forgot_password_request_hits
      → shown (request_parsed deps t code email ip token clock s)
        ≡ shown (request_parsed deps t code email ip token clock s')
  parsed_lem (ok code) (ok email) ip token clock s s' h =
      required_lem code email ip token clock s s' h
  parsed_lem (ok code) (throw e) ip token clock s s' h = ap (λ hits. (crashed, hits)) h
  parsed_lem (throw e) (ok email) ip token clock s s' h = ap (λ hits. (crashed, hits)) h
  parsed_lem (throw e) (throw e') ip token clock s s' h = ap (λ hits. (crashed, hits)) h

  -- The request for a reset tells nothing of the sellers: of two states with the same hits of its
  -- limiter, and whatever sellers each holds, it gives the same reply and leaves the same hits.
  pub forgot_password_request_same :
      (body : ForgotBody) (ip token : String) (clock : ℕ → ℕ) (s s' : AccountsState t)
      → s.forgot_password_request_hits ≡ s'.forgot_password_request_hits
      → shown (forgot_password_request deps t body ip token clock s)
        ≡ shown (forgot_password_request deps t body ip token clock s')
  unfolding forgot_password_request
  forgot_password_request_same body ip token clock s s' h =
      parsed_lem (company_code_of deps body.company_code) (email_of deps body.email) ip token clock
        s s' h
