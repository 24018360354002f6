-- ===== src/Prelude/Text.antt =====
-- Texts by their characters: the searches and cuts of the strings of JavaScript.
use Prim.Native.Char.{Char, code}
use Prim.Native.String.{String, ◌++◌}
use Prim.Native.Nat.{ℕ, ◌+◌}
use mathlib.Core.Path.{◌≡◌, refl, sym, ap}
use mathlib.Core.Logic.{inl, inr}
use mathlib.Core.Bool.{Bool, true, false, ◌||◌, ◌&&◌}
use mathlib.Core.Option.{Option, none, some}
use mathlib.Core.List.{List, [], ◌∷◌}
use native.Mathlib.Omega.{arith}
use text.Mathlib.TextEquality.{Char-path}
use text.Mathlib.TextLemmas.{cons-append, nil-append}
use arkain.Prelude.Tests.{◌==◌, leb, if◌then◌else◌, Bool-cases, Option-cases, eq-true}

abbrev pub append : String → String → String
append s t = s ++ t

abbrev Halves : Type 0
Halves = Option (String × String)

abbrev pub put_before : Char → Option (String × String) → Option (String × String)
put_before c none = none
put_before c (some (a, b)) = some (String.◌∷◌ c a, b)

-- `s.includes(d)`
abbrev pub has : Char → String → Bool
has d String.[] = false
has d (String.◌∷◌ c s) = (code c == code d) || has d s

-- the texts before and after `s.indexOf(d)`, if it is not negative
unfoldable pub split_first : Char → String → Option (String × String)
split_first d String.[] = none
split_first d (String.◌∷◌ c s) =
    let rest = put_before c (split_first d s) in
    if code c == code d then some (String.[], s) else rest

abbrev pub or_here : Char → Char → String → Option (String × String) → Option (String × String)
or_here d c s none = if code c == code d then some (String.[], s) else none
or_here d c s (some (a, b)) = some (String.◌∷◌ c a, b)

-- the texts before and after `s.lastIndexOf(d)`, if it is not negative
unfoldable pub split_last : Char → String → Option (String × String)
split_last d String.[] = none
split_last d (String.◌∷◌ c s) = or_here d c s (split_last d s)

abbrev pub put_first : Char → List String → List String
put_first c [] = String.◌∷◌ c String.[] ∷ []
put_first c (s ∷ parts) = String.◌∷◌ c s ∷ parts

-- `s.split(d)`
unfoldable pub split : Char → String → List String
split d String.[] = String.[] ∷ []
split d (String.◌∷◌ c s) =
    let parts = split d s in if code c == code d then String.[] ∷ parts else put_first c parts

-- White space and line ends.
unfoldable pub is_space : ℕ → Bool
is_space n =
    (leb 9 n && leb n 13)
    || ((n == 32)
        || ((n == 160)
            || ((n == 5760)
                || ((leb 8192 n && leb n 8202)
                    || ((n == 8232)
                        || ((n == 8233)
                            || ((n == 8239)
                                || ((n == 8287) || ((n == 12288) || (n == 65279))))))))))

unfoldable pub trim_start : String → String
unfolding is_space
trim_start String.[] = String.[]
trim_start (String.◌∷◌ c s) =
    let rest = trim_start s in if is_space (code c) then rest else String.◌∷◌ c s

abbrev pub keep_front : Char → String → String
keep_front c String.[] = if is_space (code c) then String.[] else String.◌∷◌ c String.[]
keep_front c (String.◌∷◌ d s) = String.◌∷◌ c (String.◌∷◌ d s)

unfoldable pub trim_end : String → String
unfolding is_space
trim_end String.[] = String.[]
trim_end (String.◌∷◌ c s) = keep_front c (trim_end s)

-- `s.trim()`
unfoldable pub trim : String → String
unfolding trim_start trim_end
trim s = trim_end (trim_start s)

-- No white space in a text.
abbrev pub is_solid : String → Bool
is_solid String.[] = true
is_solid (String.◌∷◌ c s) = (if is_space (code c) then false else true) && is_solid s

pub split_last-none : (d : Char) (s : String) → has d s ≡ false → split_last d s ≡ none
unfolding split_last
split_last-none d String.[] h = refl
split_last-none d (String.◌∷◌ c s) h = ground (arith, split_last-none d s)

pub split_last-append :
    (d : Char) (a b : String) → has d b ≡ false → split_last d (a ++ String.◌∷◌ d b) ≡ some (a, b)
unfolding split_last
split_last-append d String.[] b h =
    rw (nil-append (String.◌∷◌ d b), split_last-none d b h, eq-true (code d) (code d) refl) refl
split_last-append d (String.◌∷◌ c a) b h =
    rw (cons-append c a (String.◌∷◌ d b), split_last-append d a b h) refl

here_lem :
    (d c : Char) (s a b : String)
    → or_here d c s none ≡ some (a, b)
    → String.◌∷◌ c s ≡ a ++ String.◌∷◌ d b
here_lem d c s a b h = elim (Bool-cases (code c == code d)) [
  | inl same ↦
      let e : ◌≡◌ {A = Halves} (some (String.[], s)) (some (a, b)) = rw same at h in
      let first : String.[] ≡ a = cc in
      let last : s ≡ b = cc in
      let at : c ≡ d = Char-path c d (ground arith) in
      rw (sym first, nil-append (String.◌∷◌ d b), sym last, at) refl
  | inr other ↦ let e : ◌≡◌ {A = Halves} none (some (a, b)) = rw other at h in cc
]

further_lem :
    (d c : Char) (s a b : String) (p : String × String)
    → s ≡ p.0 ++ String.◌∷◌ d p.1
    → ◌≡◌ {A = Halves} (some (String.◌∷◌ c p.0, p.1)) (some (a, b))
    → String.◌∷◌ c s ≡ a ++ String.◌∷◌ d b
further_lem d c s a b (x, y) e h =
    let first : String.◌∷◌ c x ≡ a = cc in
    let last : y ≡ b = cc in
    rw (sym first, sym last, cons-append c x (String.◌∷◌ d y)) (ap (String.◌∷◌ c) e)

pub split_last-some :
    (d : Char) (s a b : String) → split_last d s ≡ some (a, b) → s ≡ a ++ String.◌∷◌ d b
unfolding split_last
split_last-some d String.[] a b h = cc
split_last-some d (String.◌∷◌ c s) a b h = elim (Option-cases (split_last d s)) [
  | inl e ↦ here_lem d c s a b (rw e at h)
  | inr ((x, y), e) ↦ further_lem d c s a b (x, y) (split_last-some d s x y e) (rw e at h)
]

pub split_first-append :
    (d : Char) (a b : String) → has d a ≡ false → split_first d (a ++ String.◌∷◌ d b) ≡ some (a, b)
unfolding split_first
split_first-append d String.[] b h =
    rw (nil-append (String.◌∷◌ d b), eq-true (code d) (code d) refl) refl
split_first-append d (String.◌∷◌ c a) b h =
    rw (cons-append c a (String.◌∷◌ d b)) (ground (arith, split_first-append d a b))

pub split-lacks : (d : Char) (s : String) → has d s ≡ false → split d s ≡ s ∷ []
unfolding split
split-lacks d String.[] h = refl
split-lacks d (String.◌∷◌ c s) h = ground (arith, split-lacks d s)

trim_start-solid : (s : String) → is_solid s ≡ true → trim_start s ≡ s
unfolding trim_start
trim_start-solid String.[] h = refl
trim_start-solid (String.◌∷◌ c s) h = ground arith

keep_front-solid :
    (c : Char) (s : String) → is_solid (String.◌∷◌ c s) ≡ true → keep_front c s ≡ String.◌∷◌ c s
keep_front-solid c String.[] h = ground arith
keep_front-solid c (String.◌∷◌ d s) h = refl

trim_end-solid : (s : String) → is_solid s ≡ true → trim_end s ≡ s
unfolding trim_end
trim_end-solid String.[] h = refl
trim_end-solid (String.◌∷◌ c s) h =
    let tail : is_solid s ≡ true = ground arith in
    rw (trim_end-solid s tail) (keep_front-solid c s h)

pub trim-solid : (s : String) → is_solid s ≡ true → trim s ≡ s
unfolding trim
trim-solid s h = rw (trim_start-solid s h) (trim_end-solid s h)

pub has-append : (d : Char) (s t : String) → has d (s ++ t) ≡ has d s || has d t
has-append d String.[] t = rw (nil-append t) refl
has-append d (String.◌∷◌ c s) t = rw (cons-append c s t, has-append d s t) (ground arith)

-- A text of one character put before another.
pub one-append : (d : Char) (s : String) → String.◌∷◌ d String.[] ++ s ≡ String.◌∷◌ d s
one-append d s = rw (cons-append d String.[] s, nil-append s) refl

-- `s.length`, which counts a character beyond the basic plane twice
unfoldable pub utf16_length : String → ℕ
utf16_length String.[] = 0
utf16_length (String.◌∷◌ c s) = (if leb 65536 (code c) then 2 else 1) + utf16_length s

pub split-append :
    (d : Char) (a b : String) → has d a ≡ false → split d (a ++ String.◌∷◌ d b) ≡ a ∷ split d b
unfolding split
split-append d String.[] b h = rw (nil-append (String.◌∷◌ d b), eq-true (code d) (code d) refl) refl
split-append d (String.◌∷◌ c a) b h =
    rw (cons-append c a (String.◌∷◌ d b)) (ground (arith, split-append d a b))
