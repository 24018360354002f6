-- ===== src/Prisma/Memory.antt =====
-- A table in memory, which shows that the laws of a table can be met. It is used in examples only.
use arkain.Prelude.{
  ℕ, zero, suc, ◌<◌, String, ◌≡◌, refl, ap, Bool, true, false, Option, none, some, List, [], ◌∷◌,
  arith, ite, sum_by, if◌then◌else◌, String-discrete, Pair-discrete, if_neg,
}
use arkain.Prelude.Dict.{lookup, insert, lookup-insert, DistinctKeys, insert-DistinctKeys}
use arkain.Prisma.Defs.{Table, select, upserted}

-- The rows, no key twice.
abbrev pub Rows : {K : Type 0} → Type 0 → Discrete K → Type 0
Rows {K} R dec = (m : List (K × R)) × DistinctKeys dec m

module _ {K R : Type 0} (dec : Discrete K) where
  unfoldable pub filter : (K → R → Bool) → List (K × R) → List (K × R)
  filter p [] = []
  filter p ((k, r) ∷ m) = let rest = filter p m in if p k r then (k, r) ∷ rest else rest

  unfoldable pub first : (K → R → Bool) → List (K × R) → Option (K × R)
  first p [] = none
  first p ((k, r) ∷ m) = if p k r then some (k, r) else first p m

  lookup-filter-none :
      (p : K → R → Bool) (k : K) (m : List (K × R))
      → lookup dec k m ≡ none
      → lookup dec k (filter p m) ≡ none
  unfolding filter lookup
  lookup-filter-none p k [] h = refl
  lookup-filter-none p k ((j, r) ∷ m) h = ground (arith, lookup-filter-none p k m)

  pub lookup-filter :
      (p : K → R → Bool) (k : K) (m : List (K × R))
      → DistinctKeys dec m
      → lookup dec k (filter p m) ≡ select (p k) (lookup dec k m)
  unfolding filter lookup
  lookup-filter p k [] h = refl
  lookup-filter p k ((j, r) ∷ m) h = ground (arith, lookup-filter p k m, lookup-filter-none p j m)

  pub filter-DistinctKeys :
      (p : K → R → Bool) (m : List (K × R)) → DistinctKeys dec m → DistinctKeys dec (filter p m)
  unfolding filter
  filter-DistinctKeys p [] h = tt
  filter-DistinctKeys p ((j, r) ∷ m) h =
      ground (arith, filter-DistinctKeys p m, lookup-filter-none p j m)

  pub first-some :
      (p : K → R → Bool) (m : List (K × R)) (k : K) (r : R)
      → DistinctKeys dec m
      → first p m ≡ some (k, r)
      → (lookup dec k m ≡ some r) × (p k r ≡ true)
  unfolding first lookup
  first-some p [] k r d h = cc
  first-some p ((j, q) ∷ m) k r d h = ground (arith, first-some p m k r)

  pub first-none :
      (p : K → R → Bool) (m : List (K × R)) (k : K) (r : R)
      → first p m ≡ none
      → lookup dec k m ≡ some r
      → p k r ≡ false
  unfolding first lookup
  first-none p [] k r h e = cc
  first-none p ((j, q) ∷ m) k r h e = ground (arith, first-none p m k r)

  unfoldable pub put : K → R → Rows R dec → Rows R dec
  put k r (m, d) = (insert dec k r m, insert-DistinctKeys dec k r m d)

  unfoldable pub change : K → (R → R) → Option R → Rows R dec → Option (R × Rows R dec)
  unfolding put
  change k f none s = none
  change k f (some r) s = some (f r, put k (f r) s)

  pub change-some :
      (k : K) (f : R → R) (s : Rows R dec) (r : R)
      → lookup dec k s.0 ≡ some r
      → (s' : Rows R dec) × (change k f (lookup dec k s.0) s ≡ some (f r, s'))
        × ((j : K) → lookup dec j s'.0 ≡ ite (dec k j) (some (f r)) (lookup dec j s.0))
  unfolding change
  change-some k f s r e = (put k (f r) s, rw e, λ j. lookup-insert dec k j (f r) s.0)

  module _ (fresh : List (K × R) → K)
      (fresh_lem : (m : List (K × R)) → lookup dec (fresh m) m ≡ none) where
    unfoldable pub memory : Table K R
    unfolding lookup filter first put change
    memory = record {
      Db = Rows R dec;
      dec = dec;
      find = λ k s. lookup dec k s.0;
      find_many = λ p s. filter p s.0;
      find_first = λ p s. first p s.0;
      create = λ r s. (fresh s.0, put (fresh s.0) r s);
      update = λ k f s. change k f (lookup dec k s.0) s;
      upsert = λ k r f s. put k (upserted r f (lookup dec k s.0)) s;
      lookup-find_many = λ p k s. lookup-filter p k s.0 s.1;
      find_many-DistinctKeys = λ p s. filter-DistinctKeys p s.0 s.1;
      find_first-some = λ p s k r. first-some p s.0 k r s.1;
      find_first-none = λ p s k r. first-none p s.0 k r;
      create_fresh = λ r s. fresh_lem s.0;
      find-create = λ r s j. lookup-insert dec (fresh s.0) j r s.0;
      update-none = λ k f s e. rw e;
      update-some = change-some;
      find-upsert = λ k r f s j. lookup-insert dec k j (upserted r f (lookup dec k s.0)) s.0;
    }

-- Made keys: a text longer than every key in use.
unfoldable pub size : String → ℕ
size String.[] = 0
size (String.◌∷◌ c s) = suc (size s)

unfoldable pub unary : ℕ → String
unary zero = String.[]
unary (suc n) = String.◌∷◌ "k" (unary n)

pub size-unary : (n : ℕ) → size (unary n) ≡ n
unfolding size unary
size-unary zero = refl
size-unary (suc n) = ap suc (size-unary n)

module _ {K : Type 0} (dec : Discrete K) (tag : K → String) (make : String → K)
    (tag-make : (s : String) → tag (make s) ≡ s) where
  unfoldable pub total : {R : Type 0} → List (K × R) → ℕ
  unfolding size
  total m = sum_by (λ e. size (tag e.0)) m

  unfoldable pub fresh_key : {R : Type 0} → List (K × R) → K
  unfolding unary total
  fresh_key m = make (unary (suc (total m)))

  lookup-unary :
      {R : Type 0} (n : ℕ) (m : List (K × R)) → total m < n → lookup dec (make (unary n)) m ≡ none
  unfolding lookup total
  lookup-unary n [] h = refl
  lookup-unary n ((j, r) ∷ m) h = elim (dec j (make (unary n))) [
    | yes p ↦
        absurd (omega (arith, ap (λ k. size (tag k)) p, ap size (tag-make (unary n)), size-unary n))
    | no p ↦ rw (if_neg _ p) (lookup-unary n m (omega arith))
  ]

  pub fresh_key_lem : {R : Type 0} (m : List (K × R)) → lookup dec (fresh_key m) m ≡ none
  unfolding fresh_key
  fresh_key_lem m = lookup-unary (suc (total m)) m (omega arith)

  unfoldable pub made_table : (R : Type 0) → Table K R
  unfolding memory fresh_key
  made_table R = memory dec fresh_key fresh_key_lem

-- Tables keyed by texts that the database makes, and by pairs of texts.
unfoldable pub text_table : (R : Type 0) → Table String R
unfolding made_table String-discrete
text_table = made_table String-discrete (λ s. s) (λ s. s) (λ s. refl)

unfoldable pub pair_table : (R : Type 0) → Table (String × String) R
unfolding made_table String-discrete Pair-discrete
pair_table =
    made_table (Pair-discrete String-discrete String-discrete) (λ p. p.0) (λ s. (s, s)) (λ s. refl)
