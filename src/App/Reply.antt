-- ===== src/App/Reply.antt =====
-- What a handler sends.
use arkain.Prelude.{
  ℕ, String, Bool, false, Option, none, some, Result, ok, throw, holds, String-discrete,
  if◌then◌else◌, ltb,
}
use arkain.Prelude.Text.{trim, utf16_length}

pub data Reply {ℓ} (A : Type ℓ) : Type ℓ where
  -- with status 200
  answered : A → Reply A
  -- with `reply.code(status)` and the text of the error
  refused : ℕ → String → Reply A
  -- a throw that leaves the handler: the server answers with status 500
  crashed : Reply A

-- A text that is there and not empty.
abbrev pub present : Option String → Option String
present none = none
present (some s) = if holds (String-discrete s "") then none else some s

-- A field of a JSON body: not there, or null; a text; another value that is false in a test, as 0 is;
-- or another that is true in one, with its `length` where that is a number, as of an array.
pub data Value : Type 0 where
  missing : Value
  text_value : String → Value
  falsy_value : Value
  truthy_value : Option ℕ → Value

-- A value that is no text has no `trim`, and the call of it throws.
pub data TypeError : Type 0 where
  not_a_function : TypeError

-- `x?.trim()` and a change of its case, if what is left is not empty
abbrev pub trimmed : (String → String) → Value → Result TypeError (Option String)
trimmed change missing = ok none
trimmed change (text_value s) = ok (present (some (change (trim s))))
trimmed change falsy_value = throw not_a_function
trimmed change (truthy_value length) = throw not_a_function

-- A value that passes the test `!x`.
pub data Given : Type 0 where
  given_text : String → Given
  given_other : Option ℕ → Given

abbrev pub text_given : Option String → Option Given
text_given none = none
text_given (some s) = some (given_text s)

abbrev pub given : Value → Option Given
given missing = none
given (text_value s) = text_given (present (some s))
given falsy_value = none
given (truthy_value length) = some (given_other length)

-- `x.length < n`, which is false where there is no such number
abbrev pub is_shorter : ℕ → Given → Bool
is_shorter n (given_text s) = ltb (utf16_length s) n
is_shorter n (given_other none) = false
is_shorter n (given_other (some length)) = ltb length n
