-- ===== src/Adapters/Toys.antt =====
-- Cursors written as texts, which shows that the laws of their codec can be met: each number as a row
-- of letters with a dot after it, and then the token. It is used in examples only.
use text.Mathlib.TextLemmas.{append-ne-nil_of_right_ne-nil, cons-ne-nil}
use arkain.Prelude.{
  ◌≡◌, ◌≢◌, refl, sym, ap, ◌∙◌, ℕ, zero, suc, String, false, Option, none, some, List, [], ◌∷◌,
  length, arith,
}
use arkain.Prelude.Text.{append, has, split_first, split_first-append}
use arkain.Prisma.Memory.{unary, size, size-unary}
use arkain.Adapters.Cursors.{CursorCodec}

unary_lacks : (n : ℕ) → has "." (unary n) ≡ false
unfolding unary
unary_lacks zero = refl
unary_lacks (suc n) = unary_lacks n

tag : Option String → String
tag none = ""
tag (some s) = String.◌∷◌ "s" s

untag : String → Option String
untag String.[] = none
untag (String.◌∷◌ c s) = some s

write : List ℕ → String → String
write [] rest = rest
write (n ∷ ns) rest = append (unary n) (String.◌∷◌ "." (write ns rest))

put_number : Option (String × String) → (String → List ℕ × String) → List ℕ × String
put_number none read = ([], "")
put_number (some (a, b)) read = (size a ∷ (read b).0, (read b).1)

read : ℕ → String → List ℕ × String
unfolding put_number
read zero s = ([], s)
read (suc k) s = put_number (split_first "." s) (λ b. read k b)

read-write : (ns : List ℕ) (rest : String) → read (length ns) (write ns rest) ≡ (ns, rest)
unfolding read write
read-write [] rest = refl
read-write (n ∷ ns) rest =
    rw
      (
        split_first-append "." (unary n) (write ns rest) (unary_lacks n),
        read-write ns rest,
        size-unary n,
      )
      refl

untag-tag : (o : Option String) → untag (tag o) ≡ o
unfolding tag untag
untag-tag none = refl
untag-tag (some s) = refl

write_full : (ns : List ℕ) (count : ℕ) (rest : String) → length ns ≡ suc count → write ns rest ≢ ""
unfolding write
write_full [] count rest e p = absurd (omega (arith, e))
write_full (n ∷ ns) count rest e p =
    append-ne-nil_of_right_ne-nil (unary n) (cons-ne-nil "." (write ns rest)) p

module _ {C : Type 0} (count : ℕ) (numbers : C → List ℕ) (token : C → Option String)
    (make : List ℕ → Option String → C) where
  encode : C → String
  encode c = write (numbers c) (tag (token c))

  decode : String → Option C
  decode s = some (make (read (suc count) s).0 (untag (read (suc count) s).1))

  decode_lem :
      (c : C)
      → length (numbers c) ≡ suc count
      → make (numbers c) (token c) ≡ c
      → decode (encode c) ≡ some c
  unfolding encode decode
  decode_lem c e whole =
      ap (λ (p : List ℕ × String). some (make p.0 (untag p.1)))
        (ap (λ k. read k (write (numbers c) (tag (token c)))) (sym e)
          ∙ read-write (numbers c) (tag (token c)))
      ∙ ap (λ o. some (make (numbers c) o)) (untag-tag (token c))
      ∙ ap some whole

  -- A cursor by its numbers and its token.
  pub parts_codec :
      ((c : C) → length (numbers c) ≡ suc count)
      → ((c : C) → make (numbers c) (token c) ≡ c)
      → CursorCodec C
  unfolding encode
  parts_codec long whole = record {
    encode = encode;
    decode = decode;
    decode-encode = λ c. decode_lem c (long c) (whole c);
    encode_full = λ c. write_full (numbers c) count (tag (token c)) (long c);
  }
