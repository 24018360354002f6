-- ===== src/Auth/Examples.antt =====
-- Tests, and the theorems at concrete inputs.
use arkain.Prelude.{
  ◌≡◌, refl, String, true, Option, some, none, ◌≢◌, false_of_holds, ok, String-discrete, ℕ, [], ◌∷◌,
}
use arkain.Prelude.Text.{is_space}
use arkain.Prelude.Dict.{lookup}
use arkain.Prisma.{Table}
use arkain.Prisma.Memory.{text_table, made_table}
use arkain.Auth.Store.{
  SellerRow, CreateSellerInput, seller_row, create_seller, generate_company_code,
  company_code_length,
}
use arkain.Auth.Store.Creation.{IsCreated, create_seller-IsCreated}
use arkain.Auth.Session.{
  sign_session_value, session_set_cookie_header, session_clear_cookie_header, verify_session_value,
}
use arkain.Auth.Session.Signed.{verify_session_value_iff}
use arkain.Auth.Session.Cookie.{asked_with, get_session_seller_id-set_cookie}

-- A stand-in for the signature.
abbrev toy_hmac : String → String → String
toy_hmac key text = "5e"

abbrev toy_decode : String → Option String
toy_decode s = some s

abbrev toy_encode : String → String
toy_encode s = s

s1_not_empty : ◌≢◌ {A = String} "s1" ""
s1_not_empty p = false_of_holds (String-discrete "s1" "") (unfold String-discrete in refl) p

verify_session_value_iff_example : verify_session_value toy_hmac (some "s1.5e") "key" ≡ some "s1"
unfolding sign_session_value
verify_session_value_iff_example =
    (verify_session_value_iff toy_hmac "key" (λ s. refl) "s1.5e" "s1").1 (s1_not_empty, refl)

get_session_seller_id-set_cookie_example :
    (asked_with toy_encode toy_decode toy_hmac "key" true
        (session_set_cookie_header toy_hmac toy_encode "s1" "key" true)
      ≡ ok (some "s1"))
    × (asked_with toy_encode toy_decode toy_hmac "key" true (session_clear_cookie_header true)
        ≡ ok none)
unfolding sign_session_value is_space
get_session_seller_id-set_cookie_example =
    get_session_seller_id-set_cookie toy_encode toy_decode toy_hmac "key" true "s1" (λ s. refl)
      s1_not_empty refl refl refl refl

abbrev input : CreateSellerInput
input = record { email = "lee@shop.kr"; password_hash = "hash"; display_name = "Lee" }

sellers : Table String SellerRow
unfolding text_table
sellers = text_table SellerRow

-- A table where another seller has the code of the first draws.
one_seller : sellers.Db
unfolding sellers made_table lookup
one_seller = (
  (
    "s1",
    seller_row (record { email = "kim@shop.kr"; password_hash = "hash"; display_name = "Kim" })
        "AAAAAA",
  )
      ∷ [],
  (refl, tt),
)

abbrev draws : ℕ → ℕ → ℕ
draws attempt _ = attempt

create_seller-IsCreated_example :
    IsCreated sellers input
      (λ k. generate_company_code company_code_length (draws k))
      one_seller
      0
      4
      (create_seller sellers input draws one_seller)
create_seller-IsCreated_example = create_seller-IsCreated sellers input draws one_seller
