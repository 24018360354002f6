-- ===== src/App/Accounts/Consumption.antt =====
-- What follows when a request with a token and a password that is long enough reaches the limit.
use arkain.Prelude.{
  ◌≡◌, refl, ap, ℕ, ◌≤◌, String, Bool, true, false, Option, none, some, ◌⊎◌, arith, inl, inr,
  Option-cases, Bool-cases, String-discrete, holds-yes, ◌<◌, ite, true_of_holds,
}
use arkain.Prisma.{Table}
use arkain.Throttle.Limiter.{Hits}
use arkain.Auth.Store.{
  SellerRow, find_seller_by_reset_token_hash, reset_password, found, to_record, is_some_text,
  with_password,
}
use arkain.App.Reply.{Reply, answered, refused, crashed, Given, given_text, given_other}
use arkain.App.Accounts.{AuthDeps, AccountsState, consume_token, reset_limited, reset_with, is_open}

module _ (deps : AuthDeps) (t : Table String SellerRow) where
  -- A token is used: a seller holds its hash, and the time of the reset is not over. That seller gets
  -- the new password and holds no token any more, and no other seller is changed.
  pub record IsUsed (token password : String) (now_ms : ℕ) (before after : t.Db) : Type 0 where
    pub id : String
    pub row : SellerRow
    pub expires_at : ℕ
    pub held : t.find id before ≡ some row
    pub hashed : row.password_reset_token_hash ≡ some (deps.hash_password_reset_token token)
    pub expires : row.password_reset_expires_at ≡ some expires_at
    pub in_time : now_ms ≤ expires_at
    pub changed :
        (j : String)
        → t.find j after
          ≡ ite
              (t.dec id j)
              (some (record row {
                password_hash = deps.hash_password password;
                password_reset_token_hash = none;
                password_reset_expires_at = none;
              }))
              (t.find j before)

  -- The reply is 200 when the token is used, any other leaves the sellers as they are, and it is 500
  -- only where the password is no text.
  abbrev pub Used : String → Given → ℕ → t.Db → t.Db → Type 0
  Used token (given_text password) now_ms before after = IsUsed token password now_ms before after
  Used token (given_other length) now_ms before after = ⊥

  abbrev pub IsOther : Given → Type 0
  IsOther (given_text password) = ⊥
  IsOther (given_other length) = Unit

  -- No seller holds the token's hash, or one does whose reset is over or has no time.
  abbrev pub IsClosed : String → ℕ → t.Db → Type 0
  IsClosed token now_ms sellers =
      ((id : String) (row : SellerRow)
        → t.find id sellers ≡ some row
        → ¬ (row.password_reset_token_hash ≡ some (deps.hash_password_reset_token token)))
      ⊎ (id : String) × (row : SellerRow) × (t.find id sellers ≡ some row)
        × (row.password_reset_token_hash ≡ some (deps.hash_password_reset_token token))
        × ((e : ℕ) → row.password_reset_expires_at ≡ some e → e < now_ms)

  abbrev pub Outcome : String → Given → ℕ → t.Db → Reply (Unit {0}) × AccountsState t → Type 0
  Outcome token password now_ms before (answered _, s) = Used token password now_ms before s.sellers
  Outcome token password now_ms before (refused code _, s) =
      (s.sellers ≡ before) × (code ≡ 401) × IsClosed token now_ms before
  Outcome token password now_ms before (crashed, s) = (s.sellers ≡ before) × IsOther password

  with_lem :
      (token : String) (password : Given) (now_ms : ℕ) (s : AccountsState t) (id : String)
      (row : SellerRow)
      → t.find id s.sellers ≡ some row
      → row.password_reset_token_hash ≡ some (deps.hash_password_reset_token token)
      → (e : ℕ) × (row.password_reset_expires_at ≡ some e) × (now_ms ≤ e)
      → Outcome token password now_ms s.sellers (reset_with deps t id password s)
  unfolding reset_password
  with_lem token (given_other length) now_ms s id row held hashed open_until = (refl, tt)
  with_lem token (given_text password) now_ms s id row held hashed (e, expires, in_time) =
      let (after, written, looks) =
        t.update-some id (with_password t (deps.hash_password password)) s.sellers row held in
      rw written (record {
        id = id;
        row = row;
        expires_at = e;
        held = held;
        hashed = hashed;
        expires = expires;
        in_time = in_time;
        changed = looks;
      })

  module _ (token : String) (password : Given) (now_ms : ℕ) (s : AccountsState t) where
    open_lem :
        (expires : Option ℕ)
        → is_open deps t now_ms expires ≡ true
        → (e : ℕ) × (expires ≡ some e) × (now_ms ≤ e)
    open_lem none h = absurd (cc)
    open_lem (some e) h = (e, refl, ground arith)

    closed_lem :
        (expires : Option ℕ)
        → is_open deps t now_ms expires ≡ false
        → (e : ℕ) → expires ≡ some e
        → e < now_ms
    closed_lem none h e is_time = absurd (cc)
    closed_lem (some time) h e is_time = let same : time ≡ e = cc in ground (arith, h, same)

    text_true : (text : String) (o : Option String) → o ≡ some text → is_some_text text o ≡ true
    text_true text none h = absurd (cc)
    text_true text (some other) h = holds-yes (String-discrete other text) (cc)

    text_lem : (text : String) (o : Option String) → is_some_text text o ≡ true → o ≡ some text
    text_lem text none h = absurd (cc)
    text_lem text (some other) h = ap some (true_of_holds (String-discrete other text) h)

    reset_lem :
        (id : String) (row : SellerRow)
        → t.find id s.sellers ≡ some row
        → row.password_reset_token_hash ≡ some (deps.hash_password_reset_token token)
        → (e : ℕ) × (row.password_reset_expires_at ≡ some e) × (now_ms ≤ e)
        → Outcome token password now_ms s.sellers (reset_with deps t id password s)
    reset_lem id row held hashed open_until =
        with_lem token password now_ms s id row held hashed open_until

    used_lem :
        (id : String) (row : SellerRow)
        → t.find id s.sellers ≡ some row
        → is_some_text (deps.hash_password_reset_token token) row.password_reset_token_hash ≡ true
        → Outcome token password now_ms s.sellers
            (consume_token deps t password now_ms (found (some (id, row))) s)
    unfolding consume_token to_record
    used_lem id row e same =
        elim (Bool-cases (is_open deps t now_ms row.password_reset_expires_at)) [
          | inl opened ↦ rw opened (
              reset_lem id row e
                (text_lem (deps.hash_password_reset_token token) row.password_reset_token_hash same)
                (open_lem row.password_reset_expires_at opened))
          | inr closed ↦ rw closed (
            refl,
            refl,
            inr (
              id,
              row,
              e,
              text_lem (deps.hash_password_reset_token token) row.password_reset_token_hash same,
              closed_lem row.password_reset_expires_at closed,
            ),
          )
        ]

    consume_token_lem : Outcome token password now_ms s.sellers (
        consume_token deps t password now_ms
          (find_seller_by_reset_token_hash t (deps.hash_password_reset_token token) s.sellers)
          s)
    unfolding find_seller_by_reset_token_hash
    consume_token_lem =
        let holder : String → SellerRow → Bool = (λ _ r.
          is_some_text (deps.hash_password_reset_token token) r.password_reset_token_hash) in
        elim (Option-cases (t.find_first holder s.sellers)) [
          | inl e ↦ rw e (
              unfold consume_token in
              (
                refl,
                refl,
                inl (λ id row held hashed.
                    let misses = t.find_first-none holder s.sellers id row e held in
                    let hits =
                      text_true (deps.hash_password_reset_token token) row.password_reset_token_hash
                        hashed in
                    absurd (cc)),
              ))
          | inr ((id, row), e) ↦
              let (held, same) = t.find_first-some holder s.sellers id row e in
              rw e (used_lem id row held same)
        ]

  -- The same behind the limit, which lets the address through or not.
  abbrev pub Limited :
      Bool → String → Given → ℕ → t.Db → Reply (Unit {0}) × AccountsState t → Type 0
  Limited true token password now_ms before p = Outcome token password now_ms before p
  Limited false token password now_ms before (refused code _, s) =
      (s.sellers ≡ before) × (code ≡ 429)
  Limited false token password now_ms before (_, s) = ⊥

  pub limited_lem :
      (token : String) (password : Given) (now_ms : ℕ) (s : AccountsState t) (p : Bool × Hits)
      → Limited p.0 token password now_ms s.sellers (reset_limited deps t token password now_ms s p)
  limited_lem token password now_ms s (false, hits) = (refl, refl)
  limited_lem token password now_ms s (true, hits) =
      consume_token_lem token password now_ms (record s { forgot_password_reset_hits = hits })
