-- ===== src/App/Accounts/Reset.antt =====
-- What the use of a reset token does, and that a token serves once.
use arkain.Prelude.{
  ◌≡◌, refl, sym, ap, ◌∙◌, ℕ, ◌≤◌, String, Bool, true, false, Option, none, some, Result, ok, throw,
  ◌⊎◌, arith, inl, inr, Bool-cases, String-discrete, holds, if◌then◌else◌, if_pos, if_neg, subst,
}
use arkain.Prelude.Text.{append, utf16_length}
use arkain.Prisma.{Table}
use arkain.Throttle.Limiter.{Hits, consume}
use arkain.Auth.Store.{SellerRow, is_text, with_password}
use arkain.App.Reply.{
  Reply, answered, refused, crashed, Value, missing, text_value, falsy_value, truthy_value, Given,
  given_text, given_other, TypeError, trimmed, given, text_given, is_shorter,
}
use arkain.App.Accounts.{
  AuthDeps, AccountsState, ResetBody, forgot_password_reset, reset_limited, reset_required,
  reset_parsed, recovery_window_ms, at_times,
}
use arkain.App.Accounts.Consumption.{IsUsed, IsClosed, Limited, limited_lem}

module _ (deps : AuthDeps) (t : Table String SellerRow) where
  -- A field that is there and no text.
  abbrev pub IsNoText : Value → Type 0
  IsNoText missing = ⊥
  IsNoText (text_value s) = ⊥
  IsNoText falsy_value = Unit
  IsNoText (truthy_value length) = Unit

  -- Why a request is refused: a field is missing, or the password is short; or the address has asked
  -- too often; or the token is of no use.
  pub data IsRefusal (body : ResetBody) (now_ms : ℕ) (let_through : Bool) (before : t.Db)
      : ℕ → Type 0 where
    token_missing :
        trimmed (λ text. text) body.token ≡ ok none → IsRefusal body now_ms let_through before 400
    password_missing : given body.password ≡ none → IsRefusal body now_ms let_through before 400
    too_short :
        {password : Given}
        → given body.password ≡ some password
        → is_shorter 8 password ≡ true
        → IsRefusal body now_ms let_through before 400
    too_often : let_through ≡ false → IsRefusal body now_ms let_through before 429
    of_no_use :
        {token : String}
        → trimmed (λ text. text) body.token ≡ ok (some token)
        → IsClosed deps t token now_ms before
        → IsRefusal body now_ms let_through before 401

  -- The same, for the fields of a body.
  abbrev pub IsReset : ResetBody → ℕ → Bool → t.Db → Reply (Unit {0}) × AccountsState t → Type 0
  IsReset body now_ms let_through before (answered _, s) =
      (token : String) × (password : String) × (trimmed (λ text. text) body.token ≡ ok (some token))
      × (body.password ≡ text_value password)
      × (8 ≤ utf16_length password)
      × IsUsed deps t token password now_ms before s.sellers
  IsReset body now_ms let_through before (refused code _, s) =
      (s.sellers ≡ before) × IsRefusal body now_ms let_through before code
  IsReset body now_ms let_through before (crashed, s) =
      (s.sellers ≡ before) × (IsNoText body.token ⊎ IsNoText body.password)

  given_lem :
      (password : Value) (text : String)
      → given password ≡ some (given_text text)
      → password ≡ text_value text
  given_lem missing text h = absurd (cc)
  given_lem falsy_value text h = absurd (cc)
  given_lem (truthy_value length) text h = absurd (cc)
  given_lem (text_value s) text h = elim (Bool-cases (holds (String-discrete s ""))) [
    | inl empty ↦
        let nothing : ◌≡◌ {A = Option Given} none (some (given_text text)) =
          sym (ap (λ b. text_given (if b then none else some s)) empty) ∙ h in
        absurd (cc)
    | inr filled ↦
        let held : some (given_text s) ≡ some (given_text text) =
          sym (ap (λ b. text_given (if b then none else some s)) filled) ∙ h in
        cc
  ]

  other_lem :
      (password : Value) (length : Option ℕ)
      → given password ≡ some (given_other length)
      → IsNoText password
  other_lem missing length h = absurd (cc)
  other_lem falsy_value length h = tt
  other_lem (truthy_value l) length h = tt
  other_lem (text_value s) length h = elim (Bool-cases (holds (String-discrete s ""))) [
    | inl empty ↦
        let nothing : ◌≡◌ {A = Option Given} none (some (given_other length)) =
          sym (ap (λ b. text_given (if b then none else some s)) empty) ∙ h in
        absurd (cc)
    | inr filled ↦
        let other : some (given_text s) ≡ some (given_other length) =
          sym (ap (λ b. text_given (if b then none else some s)) filled) ∙ h in
        absurd (cc)
  ]

  outcome_lem :
      (body : ResetBody) (token : String) (password : Given) (now_ms : ℕ) (let_through : Bool)
      (before : t.Db)
      → trimmed (λ text. text) body.token ≡ ok (some token)
      → given body.password ≡ some password
      → is_shorter 8 password ≡ false
      → (p : Reply (Unit {0}) × AccountsState t)
      → Limited deps t let_through token password now_ms before p
      → IsReset body now_ms let_through before p
  outcome_lem body token password now_ms false before is_token is_password long (refused code _, s)
        (same, is_429) =
      (same, subst (IsRefusal body now_ms false before) (sym is_429) (too_often refl))
  outcome_lem body token password now_ms false before is_token is_password long (answered _, s) h =
      absurd h
  outcome_lem body token password now_ms false before is_token is_password long (crashed, s) h =
      absurd h
  outcome_lem body token (given_text password) now_ms true before is_token is_password long
        (answered _, s) used =
      (token, password, is_token, given_lem body.password password is_password, ground arith, used)
  outcome_lem body token (given_other length) now_ms true before is_token is_password long
        (answered _, s) used =
      absurd used
  outcome_lem body token password now_ms true before is_token is_password long (refused code _, s)
        (same, is_401, closed) =
      (same, subst (IsRefusal body now_ms true before) (sym is_401) (of_no_use is_token closed))
  outcome_lem body token (given_text password) now_ms true before is_token is_password long
        (crashed, s) h =
      absurd h.1
  outcome_lem body token (given_other length) now_ms true before is_token is_password long
        (crashed, s) h =
      (h.0, inr (other_lem body.password length is_password))

  -- Whether the limiter lets the request of an address through.
  abbrev pub asked : String → (ℕ → ℕ) → AccountsState t → Bool × Hits
  asked ip clock s =
      consume 20 recovery_window_ms s.forgot_password_reset_hits
        (at_times (append "ip:" ip) (clock 0) (clock 1))

  required_lem :
      (body : ResetBody) (o : Option String) (q : Option Given) (ip : String) (clock : ℕ → ℕ)
      (s : AccountsState t)
      → trimmed (λ text. text) body.token ≡ ok o
      → given body.password ≡ q
      → IsReset body (clock 2) (asked ip clock s).0 s.sellers (reset_required deps t o q ip clock s)
  required_lem body none q ip clock s is_token is_password = (refl, token_missing is_token)
  required_lem body (some token) none ip clock s is_token is_password =
      (refl, password_missing is_password)
  required_lem body (some token) (some password) ip clock s is_token is_password =
      elim (Bool-cases (is_shorter 8 password)) [
        | inl short ↦ rw short (refl, too_short is_password short)
        | inr long ↦ rw long (
            outcome_lem body token password (clock 2) (asked ip clock s).0 s.sellers is_token
              is_password long (reset_limited deps t token password (clock 2) s (asked ip clock s))
              (limited_lem deps t token password (clock 2) s (asked ip clock s)))
      ]

  throws_lem :
      (token : Value) (e : TypeError) → trimmed (λ text. text) token ≡ throw e → IsNoText token
  throws_lem missing e h = absurd (cc)
  throws_lem (text_value s) e h = absurd (cc)
  throws_lem falsy_value e h = tt
  throws_lem (truthy_value length) e h = tt

  parsed_lem :
      (body : ResetBody) (r : Result TypeError (Option String)) (ip : String) (clock : ℕ → ℕ)
      (s : AccountsState t)
      → trimmed (λ text. text) body.token ≡ r
      → IsReset body
          (clock 2)
          (asked ip clock s).0
          s.sellers
          (reset_parsed deps t r body.password ip clock s)
  parsed_lem body (throw e) ip clock s is_token = (refl, inl (throws_lem body.token e is_token))
  parsed_lem body (ok o) ip clock s is_token =
      required_lem body o (given body.password) ip clock s is_token refl

  -- The reply to the use of a token is 200 exactly where it has an effect: then the body has a token,
  -- without the spaces around it, and a password that is a text of at least eight units, a seller
  -- holds the token's hash, and the time of that reset is not over; that seller gets the hash of the
  -- new password and has no token hash and no time of a reset any more, and no other seller is
  -- changed. Any other reply leaves all sellers as they are. It is 400 only where the body has no
  -- token or no password or a short one, 429 only where the limiter refuses the address, and 401
  -- only where no seller holds the hash, or one does whose reset is over or has no time; and the
  -- handler ends in a throw only where the token or the password of the body is a value that is no
  -- text. There is no further reply.
  pub forgot_password_reset-IsReset :
      (body : ResetBody) (ip : String) (clock : ℕ → ℕ) (s : AccountsState t)
      → IsReset body
          (clock 2)
          (asked ip clock s).0
          s.sellers
          (forgot_password_reset deps t body ip clock s)
  unfolding forgot_password_reset
  forgot_password_reset-IsReset body ip clock s =
      parsed_lem body (trimmed (λ text. text) body.token) ip clock s refl

  abbrev token_of : Option SellerRow → Option String
  token_of none = none
  token_of (some row) = row.password_reset_token_hash

  module _ (token : String) where
    abbrev pub Holds : SellerRow → Type 0
    Holds row = row.password_reset_token_hash ≡ some (deps.hash_password_reset_token token)

    -- The hash of the token stands with one seller at most.
    abbrev pub HeldOnce : t.Db → Type 0
    HeldOnce sellers =
        (i j : String) (r q : SellerRow)
        → t.find i sellers ≡ some r
        → t.find j sellers ≡ some q
        → Holds r
        → Holds q
        → i ≡ j

    used_up :
        (password : String) (now_ms : ℕ) (before after : t.Db) (j : String) (q : SellerRow)
        → HeldOnce before
        → IsUsed deps t token password now_ms before after
        → t.find j after ≡ some q
        → ¬ (Holds q)
    used_up password now_ms before after j q once used looks holding = elim (t.dec used.id j) [
      | yes same ↦
          let new_row : ◌≡◌ {A = Option SellerRow}
              (some (with_password t (deps.hash_password password) used.row)) (some q) =
            sym (
              if_pos (t.dec used.id j) same
                (some (with_password t (deps.hash_password password) used.row)) (t.find j before))
            ∙ sym (used.changed j)
            ∙ looks in
          cc (ap token_of new_row, holding)
      | no other ↦
          let old_row : t.find j before ≡ some q =
            sym (
              if_neg (t.dec used.id j) other
                (some (with_password t (deps.hash_password password) used.row)) (t.find j before))
            ∙ sym (used.changed j)
            ∙ looks in
          other (once used.id j used.row q used.held old_row used.hashed holding)
    ]

    answered_lem :
        (body : ResetBody) (now_ms : ℕ) (let_through : Bool) (before : t.Db) (s : AccountsState t)
        (p : Reply (Unit {0}) × AccountsState t)
        → trimmed (λ text. text) body.token ≡ ok (some token)
        → IsReset body now_ms let_through before p
        → p ≡ (answered tt, s)
        → (password : String) × IsUsed deps t token password now_ms before s.sellers
    answered_lem body now_ms let_through before s p has_token reset e =
        let (text, password, is_text, _, _, used) =
          subst (IsReset body now_ms let_through before) e reset in
        let same : text ≡ token = cc in
        (password, subst (λ x. IsUsed deps t x password now_ms before s.sellers) same used)

    -- A token that stands with one seller at most serves once: when its use is answered with 200,
    -- its use in the state after that is not, from whatever address and at whatever time.
    pub forgot_password_reset_once :
        (body body' : ResetBody) (ip ip' : String) (clock clock' : ℕ → ℕ)
        (s after last : AccountsState t)
        → trimmed (λ text. text) body.token ≡ ok (some token)
        → trimmed (λ text. text) body'.token ≡ ok (some token)
        → HeldOnce s.sellers
        → forgot_password_reset deps t body ip clock s ≡ (answered tt, after)
        → ¬ (forgot_password_reset deps t body' ip' clock' after ≡ (answered tt, last))
    forgot_password_reset_once body body' ip ip' clock clock' s after last e e' once first second =
        let (password, used) =
          answered_lem body (clock 2) (asked ip clock s).0 s.sellers after
            (forgot_password_reset deps t body ip clock s) e
            (forgot_password_reset-IsReset body ip clock s) first in
        let (_, again) =
          answered_lem body' (clock' 2) (asked ip' clock' after).0 after.sellers last
            (forgot_password_reset deps t body' ip' clock' after) e'
            (forgot_password_reset-IsReset body' ip' clock' after) second in
        used_up password (clock 2) s.sellers after.sellers again.id again.row once used again.held
          again.hashed
