-- ===== src/Adapters/Http.antt =====
-- What the three HTTP clients share (src/integrations/naver/naver.http.ts, coupang.http.ts and
-- esm.http.ts): the parts of a request and of an answer, and the error of an answer. The parser of JSON
-- and the platform's URLs and hashes are parameters.
mod Decimal
use Prim.Native.String.{char_at}
use Prim.Native.Char.{Char, code}
use arkain.Prelude.{
  ℕ, zero, suc, ◌+◌, ◌*◌, ◌/◌, ◌%◌, String, Bool, true, false, ◌&&◌, ◌||◌, Option, none, some, List,
  [], ◌∷◌, holds, String-discrete, leb, ltb, if◌then◌else◌, ◌==◌,
}
use arkain.Prelude.Text.{append}
use arkain.Marketplace.Types.{MarketplaceId, MarketplaceError}
use arkain.Adapters.Transport.{filled, is_empty, Method, get, post}

pub record HttpResponse : Type 0 where
  pub status : ℕ
  -- the header `retry-after`
  pub retry_after : Option String
  pub text : String

pub record HttpRequest : Type 0 where
  pub method : String
  pub url : String
  pub headers : List (String × String)
  pub body : Option String

-- A member of a JSON object that is there: null, a text, or another value with its text.
pub data Scalar : Type 0 where
  null_value : Scalar
  text_value other_value : String → Scalar

-- A number: a whole one that is not negative, or another, or NaN, with its text.
pub data Number : Type 0 where
  whole : ℕ → Number
  other_number : String → Number

pub record JsonReader : Type 1 where
  pub Json : Type 0
  pub parse : String → Option Json
  -- `{}`
  pub empty : Json
  -- `json?.[name]`, nothing where it is undefined
  pub member : String → Json → Option Scalar
  -- `Number(value)`
  pub number : Scalar → Number
  -- `Number(text)` of a header, if it is finite; the servers give whole seconds
  pub header_number : String → Option ℕ

-- `String(n)`, with a digit in each round
unfoldable pub decimal_rounds : ℕ → ℕ → String → String
decimal_rounds zero n rest = rest
decimal_rounds (suc left) n rest = elim (ltb n 10) [
  | true ↦ String.◌∷◌ (char_at "0123456789" n) rest
  | false ↦ decimal_rounds left (n / 10) (String.◌∷◌ (char_at "0123456789" (n % 10)) rest)
]

unfoldable pub decimal : ℕ → String
unfolding decimal_rounds
decimal n = decimal_rounds (suc n) n ""

-- `String(n)` of any number
abbrev pub number_text : Number → String
number_text (whole n) = decimal n
number_text (other_number text) = text

-- `String(value)`
abbrev pub scalar_text : Scalar → String
scalar_text null_value = "null"
scalar_text (text_value s) = s
scalar_text (other_value s) = s

-- `a ?? b`
abbrev pub coalesce : Option Scalar → Option Scalar → Option Scalar
coalesce none b = b
coalesce (some null_value) b = b
coalesce (some a) b = some a

-- `a ?? text`, in a template
abbrev pub text_or : Option Scalar → String → String
text_or none text = text
text_or (some null_value) text = text
text_or (some a) text = scalar_text a

-- `s.startsWith(t)` and `s.includes(t)`
unfoldable pub starts_with : String → String → Bool
starts_with String.[] s = true
starts_with (String.◌∷◌ d t) String.[] = false
starts_with (String.◌∷◌ d t) (String.◌∷◌ c s) = (code c == code d) && starts_with t s

unfoldable pub includes : String → String → Bool
unfolding starts_with
includes t String.[] = is_empty t
includes t (String.◌∷◌ c s) = starts_with t (String.◌∷◌ c s) || includes t s

-- `s.slice(0, n)`, in units of UTF-16; a character that would be cut in two is left out
unfoldable pub slice_first : ℕ → String → String
slice_first n String.[] = ""
slice_first zero (String.◌∷◌ c s) = ""
slice_first (suc zero) (String.◌∷◌ c s) = if leb 65536 (code c) then "" else String.◌∷◌ c String.[]
slice_first (suc (suc n)) (String.◌∷◌ c s) = elim (leb 65536 (code c)) [
  | true ↦ String.◌∷◌ c (slice_first n s)
  | false ↦ String.◌∷◌ c (slice_first (suc n) s)
]

abbrev pub method_text : Method → String
method_text get = "GET"
method_text post = "POST"

-- `res.status >= 200 && res.status < 300`
abbrev pub is_success : HttpResponse → Bool
is_success res = leb 200 res.status && ltb res.status 300

-- the parameters of a query that are not undefined
abbrev pub defined_query : List (String × Option String) → List (String × String)
defined_query [] = []
defined_query ((name, none) ∷ rest) = defined_query rest
defined_query ((name, some value) ∷ rest) = (name, value) ∷ defined_query rest

-- the texts of the values that are false in a test
abbrev pub is_falsy : String → Bool
is_falsy s = holds (String-discrete s "0") || holds (String-discrete s "false")

-- the code of an error, in its message
abbrev pub code_part : Option Scalar → String
code_part none = ""
code_part (some null_value) = ""
code_part (some (text_value s)) = if is_empty s then "" else append " " s
code_part (some (other_value s)) = if is_falsy s then "" else append " " s

module _ (json : JsonReader) where
  abbrev pub or_empty_object : Option json.Json → json.Json
  or_empty_object none = json.empty
  or_empty_object (some value) = value

  unfoldable pub parse_json : String → json.Json
  parse_json text = if is_empty text then json.empty else or_empty_object (json.parse text)

  -- `Number(value ?? 0)`
  abbrev pub number_or_zero : Option Scalar → Number
  number_or_zero none = whole 0
  number_or_zero (some null_value) = whole 0
  number_or_zero (some value) = json.number value

  abbrev pub seconds_ms : Option ℕ → Option ℕ
  seconds_ms none = none
  seconds_ms (some seconds) = some (seconds * 1000)

  abbrev pub header_ms : Option String → Option ℕ
  header_ms none = none
  header_ms (some text) = seconds_ms (json.header_number text)

  -- `retryAfterMs`, of a header that is not empty
  unfoldable pub retry_after_ms : HttpResponse → Option ℕ
  retry_after_ms res = header_ms (filled res.retry_after)

-- `code` as it is passed on, where it is there
abbrev pub code_of : Option Scalar → Option String
code_of none = none
code_of (some null_value) = none
code_of (some a) = some (scalar_text a)

-- `<who> <context> failed (<what>): <message>`
abbrev pub failed_text : String → String → String → String → String
failed_text who context what message =
    append who
      (append " " (append context (append " failed (" (append what (append "): " message)))))

-- the parts of a time, with months from 0
pub record Utc : Type 0 where
  pub full_year : ℕ
  pub month : ℕ
  pub date : ℕ
  pub hours : ℕ
  pub minutes : ℕ
  pub seconds : ℕ

-- `padStart(2, "0")`, of a number
unfoldable pub pad : ℕ → String
unfolding decimal
pad n = if ltb n 10 then append "0" (decimal n) else decimal n
