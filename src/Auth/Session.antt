-- ===== src/Auth/Session.antt =====
-- src/auth/session.ts. Parameters stand for the libraries: `hmac` is HMAC-SHA256 in hexadecimal, of a
-- key and a text, `encode` is encodeURIComponent, and `decode` is decodeURIComponent, which throws
-- on some texts.
pub mod Signed
pub mod Cookie
use arkain.Prelude.{
  String, Bool, Option, none, some, List, [], ◌∷◌, ◌++◌, Result, ok, throw, holds, String-discrete,
  if◌then◌else◌, ◌>>=◌,
}
use arkain.Prelude.Dict.{lookup, insert}
use arkain.Prelude.Text.{append, split_first, split_last, split, trim}

abbrev pub session_cookie_name : String
session_cookie_name = "arkain_sid"

abbrev pub is_empty : String → Bool
is_empty s = holds (String-discrete s "")

-- `parts.join("; ")`
unfoldable pub join : List String → String
join [] = ""
join (part ∷ []) = part
join (part ∷ (next ∷ rest)) = append part (append "; " (join (next ∷ rest)))

-- the errors of the library that leave `parseCookies`
pub data UriError : Type 0 where
  malformed_uri : UriError

abbrev pub Cookies : Type 0
Cookies = List (String × String)

abbrev pub store_value : String → Option String → Cookies → Result UriError Cookies
store_value name none out = throw malformed_uri
store_value name (some value) out = ok (insert String-discrete (trim name) value out)

module _ (decode : String → Option String) where
  -- the rest of the loop's body, on the two sides of the sign
  unfoldable pub read_pair : Option (String × String) → Cookies → Result UriError Cookies
  read_pair none out = ok out
  read_pair (some (name, value)) out = store_value name (decode (trim value)) out

  unfoldable pub read_parts : List String → Cookies → Result UriError Cookies
  unfolding read_pair
  read_parts [] out = ok out
  read_parts (part ∷ parts) out = read_pair (split_first "=" part) out >>= read_parts parts

  unfoldable pub parse_cookies : Option String → Result UriError Cookies
  unfolding read_parts
  parse_cookies none = ok []
  parse_cookies (some header) = if is_empty header then ok [] else read_parts (split ";" header) []

abbrev pub attributes : Bool → List String
attributes secure = if secure then "Secure" ∷ [] else []

unfoldable pub session_clear_cookie_header : Bool → String
unfolding join
session_clear_cookie_header secure = join (
    append session_cookie_name "="
    ∷ "Path=/"
    ∷ "HttpOnly"
    ∷ "SameSite=Lax"
    ∷ "Max-Age=0"
    ∷ attributes secure)

module _ (hmac : String → String → String) where
  unfoldable pub sign : String → String → String
  sign seller_id secret = hmac secret seller_id

  unfoldable pub sign_session_value : String → String → String
  unfolding sign
  sign_session_value seller_id secret = append seller_id (append "." (sign seller_id secret))

  -- the checks on the text before and the text after the last dot; two texts have the same bytes
  -- when they are the same
  unfoldable pub check_parts : String → Option (String × String) → Option String
  unfolding sign
  check_parts secret none = none
  check_parts secret (some (seller_id, provided_sig)) =
      if is_empty seller_id
      then none
      else if holds (String-discrete provided_sig (sign seller_id secret))
      then some seller_id
      else none

  unfoldable pub verify_session_value : Option String → String → Option String
  unfolding check_parts
  verify_session_value none secret = none
  verify_session_value (some value) secret =
      if is_empty value then none else check_parts secret (split_last "." value)

  -- the cookie header of the request, if it has one
  unfoldable pub get_session_seller_id :
      (String → Option String) → Option String → String → Result UriError (Option String)
  unfolding verify_session_value parse_cookies
  get_session_seller_id decode header secret = parse_cookies decode header >>= λ cookies.
      ok (verify_session_value (lookup String-discrete session_cookie_name cookies) secret)

  unfoldable pub session_set_cookie_header : (String → String) → String → String → Bool → String
  unfolding sign_session_value join
  session_set_cookie_header encode seller_id secret secure = join (
      append session_cookie_name (append "=" (encode (sign_session_value seller_id secret)))
      ∷ "Path=/"
      ∷ "HttpOnly"
      ∷ "SameSite=Lax"
      ∷ "Max-Age=2592000"
      ∷ attributes secure)
