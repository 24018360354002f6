-- ===== src/Connect/Examples.antt =====
-- The theorems at work, with a platform that stands in for the libraries.
use arkain.Prelude.{
  ◌≡◌, ◌≢◌, refl, sym, ap, ◌⊎◌, inl, inr, String, Bool, true, false, Option, none, some, [], ◌∷◌,
  Result, ok, throw, holds, String-discrete, if◌then◌else◌, holds-no, Pair-discrete, subst,
}
use arkain.Prelude.Text.{has}
use arkain.Prisma.Memory.{made_table}
use arkain.Marketplace.Types.{naver_smartstore, coupang, SellerCredential, MarketplaceId-discrete}
use arkain.Retry.{RaisedError}
use arkain.Domain.Store.{DomainTables, DomainDb}
use arkain.Connect.Sealing.{Secret, Platform, IsSound, put, get, authentication_failed, tenant_aad}
use arkain.Connect.Sealing.Bound.{get-put, moved}
use arkain.Connect.Sellers.{
  CoupangCredentialInput, naver_secret, coupang_secret, connect_naver_seller,
  connect_coupang_seller,
}
use arkain.Connect.Sellers.Verified.{Connects, connect_seller-Connects}

data Toy : Type 0 where
  text : String → Toy
  fields : Secret → Toy

abbrev keys : CoupangCredentialInput
keys = record { vendor_id = "v"; access_key = "a"; secret_key = "s" }

to_base64 : Toy → String
to_base64 (text s) = s
to_base64 (fields (f ∷ [])) = "one"
to_base64 (fields _) = "more"

from_base64 : String → Toy
from_base64 s =
    if holds (String-discrete s "one")
    then fields (naver_secret "shop")
    else if holds (String-discrete s "more")
    then fields (coupang_secret keys)
    else text s

parse : Toy → Option Secret
parse (text s) = none
parse (fields s) = some s

fits : Toy → Toy → Toy → Option Toy
fits (text a) (text b) ct = if holds (String-discrete a b) then some ct else none
fits _ _ ct = none

toy : Platform
unfolding to_base64 from_base64 parse fits
toy = record {
  Bytes = Toy;
  byte_length = λ b. 32;
  to_base64 = to_base64;
  from_base64 = from_base64;
  utf8 = text;
  json = fields;
  parse_json = parse;
  encrypt = λ key iv aad t. (aad, t);
  decrypt = λ key iv other tag ct. fits other tag ct;
}

content : Toy → String
content (text s) = s
content (fields f) = ""

other_lem : (a : String) (other ct : Toy) → text a ≢ other → fits other (text a) ct ≡ none
unfolding fits
other_lem a (text b) ct n = rw (holds-no (String-discrete b a) (λ e. n (ap text (sym e)))) refl
other_lem a (fields f) ct n = refl

key : toy.Bytes
unfolding toy
key = text "key"

iv : toy.Bytes
unfolding toy
iv = text "iv"

-- What the coding needs at the three values.
abbrev Codes : Toy → Type 0
Codes b = (from_base64 (to_base64 b) ≡ b) × (has "." (to_base64 b) ≡ false)

at_three :
    (P : Toy → Type 0) (a b c d : Toy) → P a → P b → P c → (d ≡ a) ⊎ ((d ≡ b) ⊎ (d ≡ c)) → P d
at_three P a b c d pa pb pc (inl e) = subst P (sym e) pa
at_three P a b c d pa pb pc (inr (inl e)) = subst P (sym e) pb
at_three P a b c d pa pb pc (inr (inr e)) = subst P (sym e) pc

naver_sound : IsSound toy key iv "s1" naver_smartstore (naver_secret "shop")
unfolding toy content tenant_aad String-discrete key iv
naver_sound = record {
  utf8_injective = λ s t e. ap content e;
  parse_json-json = refl;
  tag = text "s1:naver_smartstore";
  ct = fields (naver_secret "shop");
  encrypts = refl;
  coded = λ b.
      at_three Codes (text "iv") (text "s1:naver_smartstore") (fields (naver_secret "shop")) b
        (refl, refl) (refl, refl) (refl, refl);
  decrypts = refl;
  decrypts_other = λ other. other_lem "s1:naver_smartstore" other (fields (naver_secret "shop"));
}

coupang_sound : IsSound toy key iv "s1" coupang (coupang_secret keys)
unfolding toy content tenant_aad String-discrete key iv
coupang_sound = record {
  utf8_injective = λ s t e. ap content e;
  parse_json-json = refl;
  tag = text "s1:coupang";
  ct = fields (coupang_secret keys);
  encrypts = refl;
  coded = λ b.
      at_three Codes (text "iv") (text "s1:coupang") (fields (coupang_secret keys)) b (refl, refl)
        (refl, refl) (refl, refl);
  decrypts = refl;
  decrypts_other = λ other. other_lem "s1:coupang" other (fields (coupang_secret keys));
}

get-put_example :
    (get toy key (put toy key iv "s1" naver_smartstore (naver_secret "shop"))
      ≡ ok (naver_secret "shop"))
    × (get toy key
          (moved toy key iv "s1" naver_smartstore (naver_secret "shop") naver_sound "s1" coupang)
        ≡ throw authentication_failed)
get-put_example =
    get-put toy key iv "s1" naver_smartstore (naver_secret "shop") naver_sound "s1" coupang
      (λ same. cc (same.1))

tables : DomainTables
tables = record {
  orders =
      made_table
        (Pair-discrete String-discrete (Pair-discrete MarketplaceId-discrete String-discrete))
        (λ p. p.0) (λ s. (s, (naver_smartstore, s))) (λ s. refl) _;
  products =
      made_table (Pair-discrete String-discrete (Pair-discrete String-discrete String-discrete))
        (λ p. p.0) (λ s. (s, (s, s))) (λ s. refl) _;
  connections =
      made_table (Pair-discrete String-discrete MarketplaceId-discrete) (λ p. p.0)
        (λ s. (s, naver_smartstore)) (λ s. refl) _;
}

empty : DomainDb tables
unfolding tables made_table
empty = record { orders = ([], tt); products = ([], tt); connections = ([], tt) }

abbrev accept : SellerCredential → Result RaisedError Bool
accept credential = ok true

connect_seller-Connects_example :
    Connects tables toy key iv "s1" empty naver_smartstore
      (naver_secret "shop")
      (ok true)
      (connect_naver_seller tables toy key iv accept "s1" "shop" empty)
    × Connects tables toy key iv "s1" empty coupang
        (coupang_secret keys)
        (ok true)
        (connect_coupang_seller tables toy key iv accept "s1" keys empty)
connect_seller-Connects_example =
    connect_seller-Connects tables toy key iv "s1" empty accept "shop" keys naver_sound
      coupang_sound
