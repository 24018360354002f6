-- ===== src/Prisma/Laws.antt =====
-- What follows from the laws of a table.
use arkain.Prelude.{
  ◌≡◌, refl, inl, inr, Bool, ◌&&◌, Option, none, some, arith, holds, Option-cases, Bool-cases, ◌⊎◌,
  true,
}
use arkain.Prisma.Defs.{Table, select}

abbrev pub keyed {ℓ} : {K R : Type ℓ} → K → Option R → Option (K × R)
keyed k none = none
keyed k (some r) = some (k, r)

pub select_cases {ℓ} :
    {R : Type ℓ} (p : R → Bool) (o : Option R)
    → (select p o ≡ none) ⊎ ((r : R) × (o ≡ some r) × (p r ≡ true) × (select p o ≡ some r))
select_cases p none = inl refl
select_cases p (some r) = elim (Bool-cases (p r)) [
  | inl passes ↦ inr (r, refl, passes, rw passes)
  | inr fails ↦ inl (rw fails)
]

module _ {K R : Type 0} (t : Table K R) where
  open t use {Db, dec, find, find_first, find_first-some, find_first-none}

  -- `where: { key, ... }`: the row with the key, if it passes the other conditions.
  abbrev pub by_key : K → (R → Bool) → K → R → Bool
  by_key k q j r = holds (dec j k) && q r

  hit_lem :
      (k : K) (q : R → Bool) (s : Db) (j : K) (r : R)
      → find_first (by_key k q) s ≡ some (j, r)
      → find_first (by_key k q) s ≡ keyed k (select q (find k s))
  hit_lem k q s j r hit =
      let (found, passes) = find_first-some (by_key k q) s j r hit in
      ground (arith, found, passes, hit)

  miss_lem :
      (k : K) (q : R → Bool) (s : Db) (o : Option R)
      → find k s ≡ o
      → find_first (by_key k q) s ≡ none
      → find_first (by_key k q) s ≡ keyed k (select q (find k s))
  miss_lem k q s none e miss = rw (e, miss)
  miss_lem k q s (some r) e miss =
      let passes = find_first-none (by_key k q) s k r miss e in ground (arith, passes, e, miss)

  pub find_first-by_key :
      (k : K) (q : R → Bool) (s : Db) → find_first (by_key k q) s ≡ keyed k (select q (find k s))
  find_first-by_key k q s = elim (Option-cases (find_first (by_key k q) s)) [
    | inl miss ↦ miss_lem k q s (find k s) refl miss
    | inr ((j, r), hit) ↦ hit_lem k q s j r hit
  ]
