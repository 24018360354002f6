-- ===== src/App/Examples.antt =====
-- The theorems at concrete requests, over tables in memory.
use arkain.Prelude.{
  ◌≡◌, refl, sym, ◌∙◌, String, true, Option, some, none, [], ◌∷◌, String-discrete, holds, if_neg,
}
use arkain.Prelude.Dict.{lookup}
use arkain.Prisma.{Table}
use arkain.Prisma.Memory.{text_table, made_table}
use arkain.Auth.Store.{SellerRow}
use arkain.Prelude.{◌≢◌, ap, Pair-discrete, ok, false_of_holds, Result}
use arkain.Prelude.Dict.{insert}
use arkain.Prelude.Text.{split, split_first, split_last}
use arkain.Marketplace.Types.{MarketplaceId-discrete, naver_smartstore}
use arkain.Domain.Status.{paid}
use arkain.Domain.Store.{DomainTables, DomainDb, OrderKey, OrderRow}
use arkain.Auth.Session.{UriError, get_session_seller_id, parse_cookies, verify_session_value, sign}
use arkain.App.Accounts.{session_of}
use arkain.App.Orders.{patch_order}
use arkain.App.Orders.Owner.{patch_order-other}
use arkain.Prelude.Text.{trim, trim_start, trim_end, is_space, utf16_length}
use arkain.Throttle.Limiter.{consume, recent}
use arkain.Auth.Store.{find_seller_by_reset_token_hash, reset_password, to_record}
use arkain.App.Accounts.{consume_token}
use arkain.App.Reply.{trimmed, answered, text_value}
use arkain.App.Accounts.{
  AuthDeps, AccountsState, ForgotBody, ResetBody, forgot_password_request, forgot_password_reset,
}
use arkain.App.Accounts.Recovery.{shown, forgot_password_request_same}
use arkain.App.Accounts.Reset.{
  asked, IsReset, forgot_password_reset-IsReset, forgot_password_reset_once,
}

abbrev deps : AuthDeps
deps = record {
  session_secret = "key";
  cookie_secure = true;
  hash_password = λ s. s;
  verify_password = λ s h. holds (String-discrete s h);
  hash_password_reset_token = λ s. s;
  to_lower_case = λ s. s;
  to_upper_case = λ s. s;
  hmac = λ k s. "5e";
  encode = λ s. s;
  decode = λ s. some s;
}

sellers : Table String SellerRow
unfolding text_table
sellers = text_table SellerRow

abbrev row : SellerRow
row = record {
  email = "kim@shop.kr";
  password_hash = "old secret";
  display_name = "Kim";
  company_code = "ABCDEF";
  password_reset_token_hash = some "code";
  password_reset_expires_at = some 1000;
}

-- The row is the only one.
one_seller : sellers.Db
unfolding sellers made_table lookup
one_seller = (("s1", row) ∷ [], (refl, tt))

no_seller : sellers.Db
unfolding sellers made_table
no_seller = ([], tt)

abbrev state_of : sellers.Db → AccountsState sellers
state_of db = record {
  sellers = db;
  find_company_code_hits = [];
  forgot_password_request_hits = [];
  forgot_password_reset_hits = [];
  alerts = [];
}

abbrev shop : AccountsState sellers
shop = state_of one_seller

abbrev forgot : ForgotBody
forgot = record { company_code = text_value "ABCDEF"; email = text_value "kim@shop.kr" }

abbrev reset : ResetBody
reset = record { token = text_value "code"; password = text_value "new secret" }

forgot_password_request_same_example :
    shown (forgot_password_request deps sellers forgot "::1" "code" (λ n. n) shop)
    ≡ shown (forgot_password_request deps sellers forgot "::1" "code" (λ n. n) (state_of no_seller))
forgot_password_request_same_example =
    forgot_password_request_same deps sellers forgot "::1" "code" (λ n. n) shop (state_of no_seller)
      refl

forgot_password_reset-IsReset_example :
    IsReset deps sellers reset 2
      (asked deps sellers "::1" (λ n. n) shop).0
      shop.sellers
      (forgot_password_reset deps sellers reset "::1" (λ n. n) shop)
forgot_password_reset-IsReset_example =
    forgot_password_reset-IsReset deps sellers reset "::1" (λ n. n) shop

abbrev after : AccountsState sellers
after = (forgot_password_reset deps sellers reset "::1" (λ n. n) shop).1

reset_runs : forgot_password_reset deps sellers reset "::1" (λ n. n) shop ≡ (answered tt, after)
unfolding forgot_password_reset sellers made_table one_seller lookup String-discrete consume_token
    find_seller_by_reset_token_hash reset_password trim trim_start trim_end is_space utf16_length
    consume recent to_record
reset_runs = refl

only_seller : (i : String) (r : SellerRow) → sellers.find i one_seller ≡ some r → i ≡ "s1"
unfolding sellers made_table one_seller lookup
only_seller i r h = elim (String-discrete "s1" i) [
  | yes p ↦ sym p
  | no n ↦
      let nothing : ◌≡◌ {A = Option SellerRow} none (some r) =
        sym (if_neg (String-discrete "s1" i) n (some row) none) ∙ h in
      absurd (cc)
]

token_is : trimmed (λ text. text) (text_value "code") ≡ ok (some "code")
unfolding trim is_space String-discrete
token_is = refl

forgot_password_reset_once_example :
    ¬ (forgot_password_reset deps sellers reset "::1" (λ n. n) after ≡ (answered tt, after))
forgot_password_reset_once_example =
    forgot_password_reset_once deps sellers "code" reset reset "::1" "::1" (λ n. n) (λ n. n) shop
      after after token_is token_is
      (λ i j r q hi hj _ _. only_seller i r hi ∙ sym (only_seller j q hj)) reset_runs

domain : DomainTables
domain = record {
  orders =
      made_table
        (Pair-discrete String-discrete (Pair-discrete MarketplaceId-discrete String-discrete))
        (λ p. p.0) (λ s. (s, (naver_smartstore, s))) (λ s. refl) _;
  products =
      made_table (Pair-discrete String-discrete (Pair-discrete String-discrete String-discrete))
        (λ p. p.0) (λ s. (s, (s, s))) (λ s. refl) _;
  connections =
      made_table (Pair-discrete String-discrete MarketplaceId-discrete) (λ p. p.0)
        (λ s. (s, naver_smartstore)) (λ s. refl) _;
}

abbrev order_of : String → OrderKey
order_of seller_id = (seller_id, (naver_smartstore, "2024-1"))

abbrev order : OrderRow
order = record {
  status = paid;
  raw_status = "PAYED";
  ordered_at = 7;
  buyer_name = none;
  total_amount_krw = 11000;
  items = [];
}

-- The order of the seller s1.
one_order : DomainDb domain
unfolding domain made_table lookup
one_order = record {
  orders = ((order_of "s1", order) ∷ [], (refl, tt));
  products = ([], tt);
  connections = ([], tt);
}

abbrev cookie : Option String
cookie = some "arkain_sid=s2.5e"

-- The cookie holds a session of another seller.
session_is : session_of deps cookie ≡ ok (some "s2")
unfolding get_session_seller_id parse_cookies verify_session_value sign lookup String-discrete trim
    is_space split insert split_first split_last
session_is = refl

not_owner : session_of deps cookie ≢ ok (some "s1")
not_owner p =
    false_of_holds (String-discrete "s2" "s1") (unfold String-discrete in refl)
      (same_seller (sym session_is ∙ p))
  where
    seller_of : Result UriError (Option String) → String
    seller_of (ok (some s)) = s
    seller_of _ = ""

    same_seller :
        ◌≡◌ {A = Result UriError (Option String)} (ok (some "s2")) (ok (some "s1"))
        → ◌≡◌ {A = String} "s2" "s1"
    same_seller q = ap seller_of q

patch_order-other_example :
    domain.orders.find
      (order_of "s1")
      (patch_order domain (some deps) cookie (order_of "s1") (some "CANCELLED") one_order).1.orders
    ≡ domain.orders.find (order_of "s1") one_order.orders
patch_order-other_example =
    patch_order-other domain deps cookie (order_of "s1") (order_of "s1") (some "CANCELLED")
      one_order not_owner
