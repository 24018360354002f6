-- ===== src/Marketplace/Grouping.antt =====
-- What the mappers of src/integrations/naver/naver.mapper.ts and
-- src/imports/gsshop/gsshop.mapper.ts share: lines gathered by a key in a `Map` of lists, and one
-- status for the lines of an order.
use arkain.Prelude.{
  ℕ, ◌+◌, ◌*◌, ◌/◌, ◌≡◌, refl, sym, ap, ◌∙◌, String, Bool, false, ◌||◌, Option, none, some, List,
  [], ◌∷◌, ◌++◌, keep, sum_by, sum_by-append, holds, holds-yes, holds-no, String-discrete, if_pos,
  if_neg, if◌then◌else◌, arith,
}
use arkain.Prelude.Dict.{lookup, lookup-alter, alter, sum_by-alter}

abbrev pub or_empty : {A : Type 0} → Option (List A) → List A
or_empty none = []
or_empty (some xs) = xs

module _ {A : Type 0} (key : A → String) where
  -- the loop, from the map so far
  unfoldable pub group_from : List A → List (String × List A) → List (String × List A)
  group_from [] m = m
  group_from (a ∷ rest) m =
      group_from rest (alter String-discrete (key a) (λ old. or_empty old ++ a ∷ []) m)

  abbrev pub group : List A → List (String × List A)
  group rows = group_from rows []

  abbrev pub with_key : String → List A → List A
  with_key k rows = keep (λ a. holds (String-discrete (key a) k)) rows

  append_assoc : (xs : List A) (a : A) (ys : List A) → (xs ++ a ∷ []) ++ ys ≡ xs ++ (a ∷ ys)
  append_assoc [] a ys = refl
  append_assoc (x ∷ xs) a ys = ap (λ zs. x ∷ zs) (append_assoc xs a ys)

  append_nil : (xs : List A) → xs ++ [] ≡ xs
  append_nil [] = refl
  append_nil (x ∷ xs) = ap (λ zs. x ∷ zs) (append_nil xs)

  lookup-group_from :
      (k : String) (rows : List A) (m : List (String × List A))
      → or_empty (lookup String-discrete k (group_from rows m))
        ≡ or_empty (lookup String-discrete k m) ++ with_key k rows
  unfolding group_from
  lookup-group_from k [] m = sym (append_nil (or_empty (lookup String-discrete k m)))
  lookup-group_from k (a ∷ rest) m =
      let f : Option (List A) → List A = λ old. or_empty old ++ a ∷ [] in
      let found = lookup-alter String-discrete (key a) k f m in
      let further = lookup-group_from k rest (alter String-discrete (key a) f m) in
      elim (String-discrete (key a) k) [
        | yes p ↦ rw (holds-yes (String-discrete (key a) k) p) (
            further
            ∙ (ap (λ o. or_empty o ++ with_key k rest)
                  (found
                    ∙ if_pos (String-discrete (key a) k) p
                        (some (f (lookup String-discrete (key a) m))) (lookup String-discrete k m))
                ∙ (append_assoc (or_empty (lookup String-discrete (key a) m)) a (with_key k rest)
                    ∙ ap (λ j. or_empty (lookup String-discrete j m) ++ (a ∷ with_key k rest)) p)))
        | no n ↦ rw (holds-no (String-discrete (key a) k) n) (
            further
            ∙ ap (λ o. or_empty o ++ with_key k rest)
                (found
                  ∙ if_neg (String-discrete (key a) k) n
                      (some (f (lookup String-discrete (key a) m))) (lookup String-discrete k m)))
      ]

  -- Under a key stand the lines with that key, in their order.
  pub lookup-group :
      (k : String) (rows : List A)
      → or_empty (lookup String-discrete k (group rows)) ≡ with_key k rows
  unfolding lookup
  lookup-group k rows = lookup-group_from k rows []

  abbrev in_all : (A → ℕ) → List (String × List A) → ℕ
  in_all f m = sum_by (λ (e : String × List A). sum_by f e.1) m

  sum_by-group_from :
      (f : A → ℕ) (rows : List A) (m : List (String × List A))
      → in_all f (group_from rows m) ≡ in_all f m + sum_by f rows
  unfolding group_from
  sum_by-group_from f [] m = omega arith
  sum_by-group_from f (a ∷ rest) m =
      let g : Option (List A) → List A = λ old. or_empty old ++ a ∷ [] in
      omega (
        arith,
        sum_by-group_from f rest (alter String-discrete (key a) g m),
        sum_by-alter String-discrete (λ xs. sum_by f xs) (key a) g (f a) m (omega arith)
            (λ v. omega (arith, sum_by-append f v (a ∷ []))),
      )

  -- What the lines of all groups add up to is what the lines add up to.
  pub sum_by-group : (f : A → ℕ) (rows : List A) → in_all f (group rows) ≡ sum_by f rows
  sum_by-group f rows = omega (arith, sum_by-group_from f rows [])

-- `new Set(texts)`, in the order of insertion
abbrev pub is_in : String → List String → Bool
is_in s [] = false
is_in s (t ∷ rest) = holds (String-discrete t s) || is_in s rest

unfoldable pub distinct_from : List String → List String → List String
distinct_from seen [] = seen
distinct_from seen (s ∷ rest) = distinct_from (if is_in s seen then seen else seen ++ s ∷ []) rest

abbrev pub only : List String → String
only (s ∷ []) = s
only _ = "MIXED"

-- the status of an order from those of its lines
unfoldable pub one_status : List String → String
unfolding distinct_from
one_status statuses = only (distinct_from [] statuses)

-- `Math.round(n / d)` for a positive d
unfoldable pub round_div : ℕ → ℕ → ℕ
round_div n d = (2 * n + d) / (2 * d)
