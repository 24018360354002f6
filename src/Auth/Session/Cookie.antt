-- ===== src/Auth/Session/Cookie.antt =====
-- A session cookie, from the answer that sets it to the request that brings it back.
use text.Mathlib.TextLemmas.{cons-append, append-ne-nil_of_right_ne-nil, cons-ne-nil}
use arkain.Prelude.{
  ◌≡◌, ◌≢◌, ◌∙◌, sym, ap, refl, String, Bool, true, false, Option, some, none, ok, [], ◌∷◌, Result,
  String-discrete, holds-no, if_pos,
}
use arkain.Prelude.Dict.{insert, lookup-insert}
use arkain.Prelude.Text.{
  append, has, split_first, split_first-append, split-lacks, trim-solid, is_solid, one-append,
  has-append, trim, is_space,
}
use arkain.Auth.Session.{
  session_cookie_name, sign_session_value, verify_session_value, get_session_seller_id,
  session_set_cookie_header, session_clear_cookie_header, join, parse_cookies, read_parts,
  read_pair, UriError, attributes,
}
use arkain.Auth.Session.Signed.{verify_session_value_iff}

abbrev front : String → Option (String × String) → String
front header none = header
front header (some (pair, _)) = pair

-- What a browser keeps of a `set-cookie` header, and sends: the text before the first semicolon.
unfoldable pub kept : String → String
kept header = front header (split_first ";" header)

abbrev pair : String → String
pair raw = append session_cookie_name (append "=" raw)

pair_full : (raw : String) → pair raw ≢ ""
pair_full raw =
    append-ne-nil_of_right_ne-nil session_cookie_name
      (λ p. cons-ne-nil "=" raw (sym (one-append "=" raw) ∙ p))

pair_lacks : (raw : String) → has ";" raw ≡ false → has ";" (pair raw) ≡ false
pair_lacks raw lacks =
    rw (has-append ";" session_cookie_name (append "=" raw), has-append ";" "=" raw, lacks) refl

kept_lem :
    (raw rest : String)
    → has ";" raw ≡ false
    → kept (append (pair raw) (append "; " rest)) ≡ pair raw
unfolding kept
kept_lem raw rest lacks =
    rw
      (
        cons-append ";" " " rest,
        split_first-append ";" (pair raw) (append " " rest) (pair_lacks raw lacks),
      )
      refl

-- A cookie header with one cookie, whose text is decoded to `value`.
module _ (decode : String → Option String) (raw value : String) (solid : is_solid raw ≡ true)
    (lacks : has ";" raw ≡ false) (decoded : decode raw ≡ some value) where
  read_lem :
      parse_cookies decode (some (pair raw))
      ≡ ok (insert String-discrete session_cookie_name value [])
  unfolding parse_cookies
  read_lem =
      rw
        (
          holds-no (String-discrete (pair raw) "") (pair_full raw),
          split-lacks ";" (pair raw) (pair_lacks raw lacks),
        )
        (unfold read_parts in
          rw (one-append "=" raw, split_first-append "=" session_cookie_name raw refl)
            (unfold read_pair in
              rw (trim-solid raw solid, decoded) (unfold trim in unfold is_space in refl)))

  answer :
      (hmac : String → String → String) (secret : String) (o : Option String)
      → verify_session_value hmac (some value) secret ≡ o
      → get_session_seller_id hmac decode (some (pair raw)) secret ≡ ok o
  unfolding get_session_seller_id
  answer hmac secret o e =
      rw
        (
          read_lem,
          lookup-insert String-discrete session_cookie_name session_cookie_name value [],
          if_pos (String-discrete session_cookie_name session_cookie_name) refl,
        )
        (ap ok e)

module _ (encode : String → String) (decode : String → Option String)
    (hmac : String → String → String) (secret : String) (secure : Bool) where
  -- whom a request with the cookie that a browser keeps of a header comes from
  abbrev pub asked_with : String → Result UriError (Option String)
  asked_with header = get_session_seller_id hmac decode (some (kept header)) secret

  -- the attributes
  abbrev rest : String → String
  rest age = join ("Path=/" ∷ "HttpOnly" ∷ "SameSite=Lax" ∷ age ∷ attributes secure)

  clear_lem : decode "" ≡ some "" → asked_with (session_clear_cookie_header secure) ≡ ok none
  unfolding session_clear_cookie_header String-discrete
  clear_lem decoded =
      rw (kept_lem "" (rest "Max-Age=0") refl) (
        answer decode "" "" refl refl decoded hmac secret none
          (unfold verify_session_value in refl))

  module _ (seller_id : String) where
    abbrev pub signed_value : String
    signed_value = sign_session_value hmac seller_id secret

    -- What a browser keeps of the header of a login is read back, at the next request, as the
    -- seller who logged in, and what it keeps of the header of a logout as no seller. This holds
    -- for a seller id that is not empty, with signatures that have no dot, and an encoding that
    -- leaves no white space and no semicolon in the session value and is undone by the decoding.
    pub get_session_seller_id-set_cookie :
        ((s : String) → has "." (hmac secret s) ≡ false)
        → seller_id ≢ ""
        → is_solid (encode signed_value) ≡ true
        → has ";" (encode signed_value) ≡ false
        → decode (encode signed_value) ≡ some signed_value
        → decode "" ≡ some ""
        → (asked_with (session_set_cookie_header hmac encode seller_id secret secure)
            ≡ ok (some seller_id))
          × (asked_with (session_clear_cookie_header secure) ≡ ok none)
    unfolding session_set_cookie_header
    get_session_seller_id-set_cookie hex full solid lacks decoded decoded_empty = (
      rw (kept_lem (encode signed_value) (rest "Max-Age=2592000") lacks) (
          answer decode (encode signed_value) signed_value solid lacks decoded hmac secret
            (some seller_id)
            ((verify_session_value_iff hmac secret hex signed_value seller_id).1 (full, refl))),
      clear_lem decoded_empty,
    )
