-- ===== src/Auth/Store.antt =====
-- src/auth/authStore.ts, src/auth/password.ts and src/auth/resetToken.ts. Times are milliseconds. The
-- table of the sellers is that of Prisma, with its unique columns.
pub mod Creation
use Prim.Native.Char.{Char}
use Prim.Native.String.{char_at}
use arkain.Prelude.{
  ℕ, zero, suc, ◌+◌, ◌*◌, String, Bool, true, false, Option, none, some, List, [], ◌∷◌, Result, ok,
  throw, holds, String-discrete, if◌then◌else◌,
}
use arkain.Prelude.Exec.{Exec}
use arkain.Prisma.{Table}

pub record SellerRow : Type 0 where
  pub email : String
  pub password_hash : String
  pub display_name : String
  pub company_code : String
  pub password_reset_token_hash : Option String
  pub password_reset_expires_at : Option ℕ

pub record SellerAuthRecord : Type 0 where
  pub id : String
  pub email : String
  pub password_hash : String
  pub display_name : String
  pub company_code : String
  pub password_reset_token_hash : Option String
  pub password_reset_expires_at : Option ℕ

pub record CreateSellerInput : Type 0 where
  pub email : String
  pub password_hash : String
  pub display_name : String

-- what the database refuses: a value of a unique column that is there, or an update of no row
pub data AuthError : Type 0 where
  email_taken company_code_taken seller_missing : AuthError

abbrev pub password_reset_token_ttl_ms : ℕ
password_reset_token_ttl_ms = 15 * 60 * 1000

abbrev company_code_alphabet : String
company_code_alphabet = "ABCDEFGHJKLMNPQRSTUVWXYZ23456789"

-- the loop, with the numbers below 32 that `randomInt` draws, one for a character
unfoldable pub generate_company_code : ℕ → (ℕ → ℕ) → String
generate_company_code zero draw = ""
generate_company_code (suc left) draw =
    String.◌∷◌ (char_at company_code_alphabet (draw left)) (generate_company_code left draw)

abbrev pub company_code_length : ℕ
company_code_length = 6

unfoldable pub is_company_code_collision : AuthError → Bool
is_company_code_collision email_taken = false
is_company_code_collision company_code_taken = true
is_company_code_collision seller_missing = false

unfoldable pub to_record : String → SellerRow → SellerAuthRecord
to_record id row = record {
  id = id;
  email = row.email;
  password_hash = row.password_hash;
  display_name = row.display_name;
  company_code = row.company_code;
  password_reset_token_hash = row.password_reset_token_hash;
  password_reset_expires_at = row.password_reset_expires_at;
}

abbrev pub seller_row : CreateSellerInput → String → SellerRow
seller_row input code = record {
  email = input.email;
  password_hash = input.password_hash;
  display_name = input.display_name;
  company_code = code;
  password_reset_token_hash = none;
  password_reset_expires_at = none;
}

abbrev pub is_text : String → String → Bool
is_text s t = holds (String-discrete t s)

-- a condition on a column that may be null
abbrev pub is_some_text : String → Option String → Bool
is_some_text s none = false
is_some_text s (some t) = is_text s t

abbrev pub found : Option (String × SellerRow) → Option SellerAuthRecord
found none = none
found (some (id, row)) = some (to_record id row)

module _ (t : Table String SellerRow) where
  abbrev pub Action : Type 0 → Type 0
  Action A = Exec AuthError t.Db A

  -- the call of `seller.create`, where the database checks its unique columns
  unfoldable pub insert_seller : SellerRow → Action SellerAuthRecord
  unfolding to_record
  insert_seller row db = emails (t.find_first (λ _ r. is_text row.email r.email) db)
    where
      codes : Option (String × SellerRow) → Result AuthError SellerAuthRecord × t.Db
      codes (some _) = (throw company_code_taken, db)
      codes none = (ok (to_record (t.create row db).0 row), (t.create row db).1)

      emails : Option (String × SellerRow) → Result AuthError SellerAuthRecord × t.Db
      emails (some _) = (throw email_taken, db)
      emails none = codes (t.find_first (λ _ r. is_text row.company_code r.company_code) db)

  -- the end of an attempt; `again` is the next iteration, if there is one
  unfoldable pub after_attempt :
      Option (Action SellerAuthRecord)
      → Result AuthError SellerAuthRecord × t.Db
      → Result AuthError SellerAuthRecord × t.Db
  unfolding is_company_code_collision
  after_attempt again (ok seller, db) = (ok seller, db)
  after_attempt none (throw e, db) = (throw e, db)
  after_attempt (some again) (throw e, db) =
      if is_company_code_collision e then again db else (throw e, db)

  -- the loop, with the attempts that may follow the next one; `codes` gives the code of an attempt
  unfoldable pub create_attempts :
      CreateSellerInput → (ℕ → String) → ℕ → ℕ → Action SellerAuthRecord
  unfolding insert_seller after_attempt
  create_attempts input codes attempt zero db =
      after_attempt none (insert_seller (seller_row input (codes attempt)) db)
  create_attempts input codes attempt (suc left) db =
      after_attempt (some (create_attempts input codes (suc attempt) left))
        (insert_seller (seller_row input (codes attempt)) db)

  unfoldable pub create_seller : CreateSellerInput → (ℕ → ℕ → ℕ) → Action SellerAuthRecord
  unfolding create_attempts generate_company_code
  create_seller input draws =
      create_attempts input (λ attempt. generate_company_code company_code_length (draws attempt)) 0
        4

  unfoldable pub find_seller_by_email : String → t.Db → Option SellerAuthRecord
  find_seller_by_email email db = found (t.find_first (λ _ r. is_text email r.email) db)

  unfoldable pub find_seller_by_id : String → t.Db → Option SellerAuthRecord
  find_seller_by_id id db = elim (t.find id db) [ none ↦ none | some row ↦ some (to_record id row) ]

  abbrev pub with_reset_token : String → ℕ → SellerRow → SellerRow
  with_reset_token token_hash expires_at row = record row {
    password_reset_token_hash = some token_hash;
    password_reset_expires_at = some expires_at;
  }

  abbrev pub written : t.Db → Option (SellerRow × t.Db) → Result AuthError (Unit {0}) × t.Db
  written db none = (throw seller_missing, db)
  written db (some (_, after)) = (ok tt, after)

  unfoldable pub set_password_reset_token : String → String → ℕ → Action (Unit {0})
  set_password_reset_token seller_id token_hash expires_at db =
      written db (t.update seller_id (with_reset_token token_hash expires_at) db)

  unfoldable pub find_seller_by_reset_token_hash : String → t.Db → Option SellerAuthRecord
  find_seller_by_reset_token_hash token_hash db =
      found (t.find_first (λ _ r. is_some_text token_hash r.password_reset_token_hash) db)

  abbrev pub with_password : String → SellerRow → SellerRow
  with_password password_hash row = record row {
    password_hash = password_hash;
    password_reset_token_hash = none;
    password_reset_expires_at = none;
  }

  unfoldable pub reset_password : String → String → Action (Unit {0})
  reset_password seller_id password_hash db =
      written db (t.update seller_id (with_password password_hash) db)
