-- ===== src/Prisma/Defs.antt =====
-- The interface of a table: its calls and their laws.
use arkain.Prelude.{◌≡◌, Bool, true, false, Option, none, some, List, ite, if◌then◌else◌}
use arkain.Prelude.Dict.{lookup, DistinctKeys}

-- The row, if it passes the filter.
abbrev pub select {ℓ} : {R : Type ℓ} → (R → Bool) → Option R → Option R
select p none = none
select p (some r) = if p r then some r else none

abbrev pub updated {ℓ} : {R : Type ℓ} → (R → R) → Option R → Option R
updated f none = none
updated f (some r) = some (f r)

abbrev pub upserted {ℓ} : {R : Type ℓ} → R → (R → R) → Option R → R
upserted r f none = r
upserted r f (some old) = f old

pub record Table (K R : Type 0) : Type 1 where
  pub Db : Type 0
  pub dec : Discrete K
  -- `findUnique({ where: { key } })`
  pub find : K → Db → Option R
  -- `findMany({ where })` and `findFirst({ where })`
  pub find_many : (K → R → Bool) → Db → List (K × R)
  pub find_first : (K → R → Bool) → Db → Option (K × R)
  -- `create({ data })`, where the database makes the key (`@default(uuid())`)
  pub create : R → Db → K × Db
  -- `update({ where: { key }, data })`; `none` is the error that no such row exists
  pub update : K → (R → R) → Db → Option (R × Db)
  -- `upsert({ where: { key }, create, update })`
  pub upsert : K → R → (R → R) → Db → Db
  pub lookup-find_many :
      (p : K → R → Bool) (k : K) (s : Db) → lookup dec k (find_many p s) ≡ select (p k) (find k s)
  pub find_many-DistinctKeys : (p : K → R → Bool) (s : Db) → DistinctKeys dec (find_many p s)
  pub find_first-some :
      (p : K → R → Bool) (s : Db) (k : K) (r : R)
      → find_first p s ≡ some (k, r)
      → (find k s ≡ some r) × (p k r ≡ true)
  pub find_first-none :
      (p : K → R → Bool) (s : Db) (k : K) (r : R)
      → find_first p s ≡ none
      → find k s ≡ some r
      → p k r ≡ false
  pub create_fresh : (r : R) (s : Db) → find (create r s).0 s ≡ none
  pub find-create :
      (r : R) (s : Db) (j : K)
      → find j (create r s).1 ≡ ite (dec (create r s).0 j) (some r) (find j s)
  pub update-none : (k : K) (f : R → R) (s : Db) → find k s ≡ none → update k f s ≡ none
  pub update-some :
      (k : K) (f : R → R) (s : Db) (r : R)
      → find k s ≡ some r
      → (s' : Db) × (update k f s ≡ some (f r, s'))
        × ((j : K) → find j s' ≡ ite (dec k j) (some (f r)) (find j s))
  pub find-upsert :
      (k : K) (r : R) (f : R → R) (s : Db) (j : K)
      → find j (upsert k r f s) ≡ ite (dec k j) (some (upserted r f (find k s))) (find j s)
