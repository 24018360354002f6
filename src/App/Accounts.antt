-- ===== src/App/Accounts.antt =====
-- src/app.ts: sign-up, login and the recovery of an account. A field of a body is any JSON value.
-- `clock n` is what the n-th reading of the clock in a request gives.
pub mod Recovery
pub mod Consumption
pub mod Reset
use arkain.Prelude.{
  ℕ, ◌+◌, ◌*◌, String, Bool, true, false, ◌&&◌, Option, none, some, List, [], ◌∷◌, ◌++◌, Result, ok,
  throw, holds, String-discrete, if◌then◌else◌, ltb,
}
use arkain.Prelude.Text.{append}
use arkain.Prisma.{Table}
use arkain.Throttle.Limiter.{Hits, Consume, consume}
use arkain.Auth.Session.{
  get_session_seller_id, session_set_cookie_header, session_clear_cookie_header, UriError,
}
use arkain.Auth.Store.{
  SellerRow, SellerAuthRecord, AuthError, create_seller, find_seller_by_email, find_seller_by_id,
  set_password_reset_token, find_seller_by_reset_token_hash, reset_password,
  password_reset_token_ttl_ms,
}
use arkain.App.Reply.{
  Reply, answered, refused, crashed, Value, Given, given_text, given_other, TypeError, trimmed,
  given, is_shorter,
}

-- `AuthDeps`, and the functions of the libraries: bcrypt with the salt that it draws for this
-- request, SHA-256, the cases of letters, and those of the session
pub record AuthDeps : Type 0 where
  pub session_secret : String
  pub cookie_secure : Bool
  pub hash_password : String → String
  pub verify_password : String → String → Bool
  pub hash_password_reset_token : String → String
  pub to_lower_case : String → String
  pub to_upper_case : String → String
  pub hmac : String → String → String
  pub encode : String → String
  pub decode : String → Option String

-- the context of an alert that a reset is asked for
pub record ResetAlert : Type 0 where
  pub seller_id : String
  pub email : String
  pub company_code : String
  pub reset_token : String

-- The sellers, the hits of the three limiters and the alerts that were sent, the last one first.
pub record AccountsState (t : Table String SellerRow) : Type 0 where
  pub sellers : t.Db
  pub find_company_code_hits : Hits
  pub forgot_password_request_hits : Hits
  pub forgot_password_reset_hits : Hits
  pub alerts : List ResetAlert

abbrev pub recovery_window_ms : ℕ
recovery_window_ms = 15 * 60 * 1000

pub record SignedIn : Type 0 where
  pub set_cookie : String
  pub seller_id : String
  pub display_name : String
  pub company_code : String

pub record SignupBody : Type 0 where
  pub workspace_name : Value
  pub email : Value
  pub password : Value

pub record LoginBody : Type 0 where
  pub company_code : Value
  pub email : Value
  pub password : Value

pub record ForgotBody : Type 0 where
  pub company_code : Value
  pub email : Value

pub record ResetBody : Type 0 where
  pub token : Value
  pub password : Value

abbrev pub at_times : String → ℕ → ℕ → Consume
at_times key asked_at pushed_at = record { key = key; asked_at = asked_at; pushed_at = pushed_at }

-- two keys under one limiter; the second is asked about only when the first is let through
abbrev pub consume_second : ℕ → String → (ℕ → ℕ) → Bool × Hits → Bool × Hits
consume_second max key clock (false, hits) = (false, hits)
consume_second max key clock (true, hits) =
    consume max recovery_window_ms hits (at_times key (clock 2) (clock 3))

unfoldable pub consume_both : ℕ → String → String → (ℕ → ℕ) → Hits → Bool × Hits
consume_both max first second clock hits =
    consume_second max second clock
      (consume max recovery_window_ms hits (at_times first (clock 0) (clock 1)))

module _ (deps : AuthDeps) where
  abbrev pub email_of : Value → Result TypeError (Option String)
  email_of email = trimmed deps.to_lower_case email

  abbrev pub company_code_of : Value → Result TypeError (Option String)
  company_code_of code = trimmed deps.to_upper_case code

  abbrev pub signed_in : SellerAuthRecord → SignedIn
  signed_in seller = record {
    set_cookie =
        session_set_cookie_header deps.hmac deps.encode seller.id deps.session_secret
          deps.cookie_secure;
    seller_id = seller.id;
    display_name = seller.display_name;
    company_code = seller.company_code;
  }

  -- the session of a request, by its cookie header
  abbrev pub session_of : Option String → Result UriError (Option String)
  session_of cookie = get_session_seller_id deps.hmac deps.decode cookie deps.session_secret

  abbrev pub logout : String
  logout = session_clear_cookie_header deps.cookie_secure

  module _ (t : Table String SellerRow) where
    abbrev pub Handler : Type 0 → Type 0
    Handler A = AccountsState t → Reply A × AccountsState t

    abbrev pub store_sellers : AccountsState t → t.Db → AccountsState t
    store_sellers s sellers = record s { sellers = sellers }

    abbrev created :
        AccountsState t
        → Result AuthError SellerAuthRecord × t.Db
        → Reply SignedIn × AccountsState t
    created s (ok seller, sellers) = (answered (signed_in seller), store_sellers s sellers)
    created s (throw e, sellers) = (crashed, store_sellers s sellers)

    -- with the numbers that the company codes are drawn by
    unfoldable pub signup : SignupBody → (ℕ → ℕ → ℕ) → Handler SignedIn
    signup body draws s = parsed (trimmed (λ text. text) body.workspace_name) (email_of body.email)
      where
        free : String → String → Given → Option SellerAuthRecord → Reply SignedIn × AccountsState t
        free name email password (some _) = (refused 409 "이미 사용중인 이메일입니다", s)
        free name email (given_other length) none = (crashed, s)
        free name email (given_text password) none = created s (
            create_seller t
              (record {
                email = email;
                password_hash = deps.hash_password password;
                display_name = name;
              })
              draws s.sellers)

        required : Option String → Option String → Option Given → Reply SignedIn × AccountsState t
        required (some name) (some email) (some password) =
            if is_shorter 8 password
            then (refused 400 "비밀번호는 8자 이상이어야 합니다", s)
            else free name email password (find_seller_by_email t email s.sellers)
        required _ _ _ = (refused 400 "workspaceName, email, password are required", s)

        parsed :
            Result TypeError (Option String)
            → Result TypeError (Option String)
            → Reply SignedIn × AccountsState t
        parsed (ok name) (ok email) = required name email (given body.password)
        parsed _ _ = (crashed, s)

    -- the check of the password and of the company code
    unfoldable pub check_login : String → Given → Option SellerAuthRecord → Reply SignedIn
    check_login code password none = refused 401 "회사코드, 이메일 또는 비밀번호가 올바르지 않습니다"
    check_login code (given_other length) (some seller) = crashed
    check_login code (given_text password) (some seller) =
        if deps.verify_password password seller.password_hash
          && holds (String-discrete seller.company_code code)
        then answered (signed_in seller)
        else refused 401 "회사코드, 이메일 또는 비밀번호가 올바르지 않습니다"

    unfoldable pub login : LoginBody → t.Db → Reply SignedIn
    unfolding check_login
    login body sellers = parsed (company_code_of body.company_code) (email_of body.email)
      where
        required : Option String → Option String → Option Given → Reply SignedIn
        required (some code) (some email) (some password) =
            check_login code password (find_seller_by_email t email sellers)
        required _ _ _ = refused 400 "companyCode, email and password are required"

        parsed :
            Result TypeError (Option String) → Result TypeError (Option String) → Reply SignedIn
        parsed (ok code) (ok email) = required code email (given body.password)
        parsed _ _ = crashed

    -- the seller of the session, if there is one and the seller is there
    unfoldable pub me : Option String → t.Db → Reply (Option SellerAuthRecord)
    me cookie sellers = known (session_of cookie)
      where
        known : Result UriError (Option String) → Reply (Option SellerAuthRecord)
        known (throw e) = crashed
        known (ok none) = answered none
        known (ok (some seller_id)) = answered (find_seller_by_id t seller_id sellers)

    unfoldable pub find_company_code : Value → String → (ℕ → ℕ) → Handler String
    unfolding consume_both
    find_company_code email ip clock s = parsed (email_of email)
      where
        shown : Option SellerAuthRecord → Reply String
        shown none = refused 404 "등록되지 않은 이메일입니다"
        shown (some seller) = answered seller.company_code

        limited : String → Bool × Hits → Reply String × AccountsState t
        limited email (false, hits) =
            (refused 429 "잠시 후 다시 시도해주세요", record s { find_company_code_hits = hits })
        limited email (true, hits) = (
          shown (find_seller_by_email t email s.sellers),
          record s { find_company_code_hits = hits },
        )

        required : Option String → Reply String × AccountsState t
        required none = (refused 400 "email is required", s)
        required (some email) = limited email (
            consume_both 5 (append "ip:" ip) (append "email:" email) clock s.find_company_code_hits)

        parsed : Result TypeError (Option String) → Reply String × AccountsState t
        parsed (ok email) = required email
        parsed (throw e) = (crashed, s)

    -- the token's hash is stored, and the alert with the token is sent
    abbrev pub issued :
        ResetAlert
        → AccountsState t
        → Result AuthError (Unit {0}) × t.Db
        → Reply (Unit {0}) × AccountsState t
    issued alert s (ok _, sellers) =
        (answered tt, record s { sellers = sellers; alerts = alert ∷ s.alerts })
    issued alert s (throw e, sellers) = (crashed, store_sellers s sellers)

    -- what follows the limits; `token` is the made token, and `now_ms` the time
    unfoldable pub issue_token :
        String → String → String → ℕ → Option SellerAuthRecord → Handler (Unit {0})
    issue_token code email token now_ms none s = (answered tt, s)
    issue_token code email token now_ms (some seller) s =
        if holds (String-discrete seller.company_code code)
        then issued
            (record {
              seller_id = seller.id;
              email = email;
              company_code = code;
              reset_token = token;
            })
            s
            (set_password_reset_token t seller.id (deps.hash_password_reset_token token)
              (now_ms + password_reset_token_ttl_ms) s.sellers)
        else (answered tt, s)

    abbrev pub request_limited :
        String
        → String
        → String
        → ℕ
        → AccountsState t
        → Bool × Hits
        → Reply (Unit {0}) × AccountsState t
    request_limited code email token now_ms s (false, hits) =
        (refused 429 "잠시 후 다시 시도해주세요", record s { forgot_password_request_hits = hits })
    request_limited code email token now_ms s (true, hits) =
        issue_token code email token now_ms (find_seller_by_email t email s.sellers)
          (record s { forgot_password_request_hits = hits })

    abbrev pub request_required :
        Option String → Option String → String → String → (ℕ → ℕ) → Handler (Unit {0})
    request_required (some code) (some email) ip token clock s =
        request_limited code email token (clock 4) s (
          consume_both 5 (append "ip:" ip) (append "pair:" (append code (append ":" email))) clock
            s.forgot_password_request_hits)
    request_required _ _ ip token clock s = (refused 400 "companyCode and email are required", s)

    abbrev pub request_parsed :
        Result TypeError (Option String)
        → Result TypeError (Option String)
        → String
        → String
        → (ℕ → ℕ)
        → Handler (Unit {0})
    request_parsed (ok code) (ok email) = request_required code email
    request_parsed _ _ = λ ip token clock s. (crashed, s)

    unfoldable pub forgot_password_request :
        ForgotBody → String → String → (ℕ → ℕ) → Handler (Unit {0})
    unfolding issue_token consume_both
    forgot_password_request body ip token clock =
        request_parsed (company_code_of body.company_code) (email_of body.email) ip token clock

    abbrev pub reset_done :
        AccountsState t → Result AuthError (Unit {0}) × t.Db → Reply (Unit {0}) × AccountsState t
    reset_done s (ok _, sellers) = (answered tt, store_sellers s sellers)
    reset_done s (throw e, sellers) = (crashed, store_sellers s sellers)

    -- whether the reset is still open
    abbrev pub is_open : ℕ → Option ℕ → Bool
    is_open now_ms none = false
    is_open now_ms (some expires_at) = if ltb expires_at now_ms then false else true

    -- the hash of a password that is no text throws
    abbrev pub reset_with : String → Given → Handler (Unit {0})
    reset_with id (given_text password) s =
        reset_done s (reset_password t id (deps.hash_password password) s.sellers)
    reset_with id (given_other length) s = (crashed, s)

    -- what follows the limit
    unfoldable pub consume_token : Given → ℕ → Option SellerAuthRecord → Handler (Unit {0})
    consume_token password now_ms none s = (refused 401 "재설정 코드가 올바르지 않거나 만료되었습니다", s)
    consume_token password now_ms (some seller) s =
        if is_open now_ms seller.password_reset_expires_at
        then reset_with seller.id password s
        else (refused 401 "재설정 코드가 올바르지 않거나 만료되었습니다", s)

    abbrev pub reset_limited :
        String → Given → ℕ → AccountsState t → Bool × Hits → Reply (Unit {0}) × AccountsState t
    reset_limited token password now_ms s (false, hits) =
        (refused 429 "잠시 후 다시 시도해주세요", record s { forgot_password_reset_hits = hits })
    reset_limited token password now_ms s (true, hits) =
        consume_token password now_ms
          (find_seller_by_reset_token_hash t (deps.hash_password_reset_token token) s.sellers)
          (record s { forgot_password_reset_hits = hits })

    abbrev pub reset_required : Option String → Option Given → String → (ℕ → ℕ) → Handler (Unit {0})
    reset_required (some token) (some password) ip clock s =
        if is_shorter 8 password
        then (refused 400 "비밀번호는 8자 이상이어야 합니다", s)
        else reset_limited token password (clock 2) s (
            consume 20 recovery_window_ms s.forgot_password_reset_hits
              (at_times (append "ip:" ip) (clock 0) (clock 1)))
    reset_required _ _ ip clock s = (refused 400 "token and password are required", s)

    abbrev pub reset_parsed :
        Result TypeError (Option String) → Value → String → (ℕ → ℕ) → Handler (Unit {0})
    reset_parsed (ok token) password = reset_required token (given password)
    reset_parsed (throw e) password = λ ip clock s. (crashed, s)

    unfoldable pub forgot_password_reset : ResetBody → String → (ℕ → ℕ) → Handler (Unit {0})
    unfolding consume_token
    forgot_password_reset body ip clock =
        reset_parsed (trimmed (λ text. text) body.token) body.password ip clock
