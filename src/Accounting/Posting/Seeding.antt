-- ===== src/Accounting/Posting/Seeding.antt =====
-- What seeding leaves in the chart of accounts, and that the accounts of a sale are found in it.
use arkain.Prelude.{
  String, ◌≡◌, ◌≢◌, sym, ap, ◌∙◌, Bool, true, ◌&&◌, Option, none, some, List, [], ◌∷◌, ite, arith,
  holds, All, String-discrete, if_pos, if_neg, ◌⊎◌, inl, inr, Option-cases,
}
use arkain.Prelude.Dict.{lookup, insert, lookup-insert, All-of_lookup}
use arkain.Prisma.{select}
use arkain.Accounting.Journal.{SalesJournalLine}
use arkain.Accounting.Ledger.{
  CoreLedgerAccountSeed, core_ledger_accounts, LedgerAccountRow, LedgerTables, Ledger,
  account_by_code, has_code,
}
use arkain.Accounting.Posting.{locked, seed_accounts, accounts_for}

abbrev pub or_else {ℓ} : {A : Type ℓ} → Option A → Option A → Option A
or_else none b = b
or_else (some a) b = some a

module _ (t : LedgerTables) (tenant_id : String) where
  -- The account that the seeds give a key that has none.
  abbrev pub seeded : (String × String) → List CoreLedgerAccountSeed → Option LedgerAccountRow
  seeded key [] = none
  seeded key (seed ∷ seeds) =
      ite (t.accounts.dec (tenant_id, seed.code) key) (some (locked seed)) (seeded key seeds)

  -- After seeding, an account that was there is as it was, a key of a seed that had no account has
  -- the seed's, locked, and no other key has got one.
  pub find-seed_accounts :
      (key : String × String) (seeds : List CoreLedgerAccountSeed) (accounts : t.accounts.Db)
      → t.accounts.find key (seed_accounts t tenant_id seeds accounts)
        ≡ or_else (t.accounts.find key accounts) (seeded key seeds)
  unfolding seed_accounts
  find-seed_accounts key [] accounts = ground arith
  find-seed_accounts key (seed ∷ seeds) accounts = ground (
    arith,
    find-seed_accounts key seeds
        (t.accounts.upsert (tenant_id, seed.code) (locked seed) (λ row. row) accounts),
    t.accounts.find-upsert (tenant_id, seed.code) (locked seed) (λ row. row) accounts key,
  )

-- A code of the list is found under its own account.
module _ (tenant_id code : String) where
  abbrev Found : Option (String × String) → Type 0
  Found o = o ≡ some (tenant_id, code)

  keeps-Found :
      (m : List (String × (String × String))) (list : List ((String × String) × LedgerAccountRow))
      → All (λ e. e.0.0 ≡ tenant_id) list
      → Found (lookup String-discrete code m)
      → Found (lookup String-discrete code (account_by_code m list))
  unfolding account_by_code
  keeps-Found m [] h f = f
  keeps-Found m ((key, row) ∷ list) h f =
      keeps-Found (insert String-discrete key.1 key m) list h.1
        (ground (arith, lookup-insert String-discrete key.1 code key m, h.0, f))

  gets-Found :
      (m : List (String × (String × String))) (list : List ((String × String) × LedgerAccountRow))
      (dec : Discrete (String × String)) (row : LedgerAccountRow)
      → All (λ e. e.0.0 ≡ tenant_id) list
      → lookup dec (tenant_id, code) list ≡ some row
      → Found (lookup String-discrete code (account_by_code m list))
  unfolding account_by_code lookup
  gets-Found m [] dec row h f = cc
  gets-Found m ((key, r) ∷ list) dec row h f = elim (dec key (tenant_id, code)) [
    | yes p ↦ keeps-Found (insert String-discrete key.1 key m) list h.1 (
        unfold lookup in
        (lookup-insert String-discrete key.1 code key m
          ∙ (if_pos (String-discrete key.1 code) (ap (λ k. k.1) p) (some key)
                (lookup String-discrete code m)
              ∙ ap some p)))
    | no p ↦ gets-Found (insert String-discrete key.1 key m) list dec row h.1 (rw (if_neg _ p) at f)
  ]

module _ (t : LedgerTables) (tenant_id : String) (lines : List SalesJournalLine)
    (db : Ledger t) where
  abbrev wanted : String × String → LedgerAccountRow → Bool
  wanted key row = holds (String-discrete key.0 tenant_id) && has_code lines key.1

  wanted_tenant :
      (key : String × String) (o : Option LedgerAccountRow) (row : LedgerAccountRow)
      → select (wanted key) o ≡ some row
      → key.0 ≡ tenant_id
  wanted_tenant key none row h = cc
  wanted_tenant key (some r) row h = elim (String-discrete key.0 tenant_id) [
    | yes p ↦ p
    | no n ↦ ground arith
  ]

  -- A code of the lines that has an account of the tenant is found, and under that account.
  pub lookup-accounts_for :
      (code : String) (row : LedgerAccountRow)
      → has_code lines code ≡ true
      → t.accounts.find (tenant_id, code) db.accounts ≡ some row
      → lookup String-discrete code (accounts_for t tenant_id lines db) ≡ some (tenant_id, code)
  unfolding accounts_for
  lookup-accounts_for code row has found =
      gets-Found tenant_id code [] (t.accounts.find_many wanted db.accounts) t.accounts.dec row
        (All-of_lookup t.accounts.dec (λ e. e.0.0 ≡ tenant_id)
          (t.accounts.find_many wanted db.accounts)
          (t.accounts.find_many-DistinctKeys wanted db.accounts)
          (λ key r h.
            wanted_tenant key (t.accounts.find key db.accounts) r
              (sym (t.accounts.lookup-find_many wanted key db.accounts) ∙ h)))
        (t.accounts.lookup-find_many wanted (tenant_id, code) db.accounts
          ∙ (rw found (ground (arith, has))))

abbrev HasSeed : String → List CoreLedgerAccountSeed → Type 0
HasSeed code [] = ⊥
HasSeed code (seed ∷ seeds) = (seed.code ≡ code) ⊎ HasSeed code seeds

module _ (t : LedgerTables) (tenant_id : String) where
  seeded-some :
      (code : String) (seeds : List CoreLedgerAccountSeed)
      → HasSeed code seeds
      → (row : LedgerAccountRow) × (seeded t tenant_id (tenant_id, code) seeds ≡ some row)
  seeded-some code [] h = absurd h
  seeded-some code (seed ∷ seeds) h =
      elim (t.accounts.dec (tenant_id, seed.code) (tenant_id, code)) [
        | yes p ↦ (locked seed, rw (if_pos _ p))
        | no n ↦ rw (if_neg _ n) (seeded-some code seeds (further n h))
      ]
    where
      further :
          ◌≢◌ {A = String × String} (tenant_id, seed.code) (tenant_id, code)
          → (seed.code ≡ code) ⊎ HasSeed code seeds
          → HasSeed code seeds
      further n (inl p) = absurd (n (ap (λ c. (tenant_id, c)) p))
      further n (inr k) = k

  -- After seeding, each core account is there.
  pub seeded_find :
      (code : String) (accounts : t.accounts.Db)
      → HasSeed code core_ledger_accounts
      → (row : LedgerAccountRow) × (t.accounts.find
            (tenant_id, code)
            (seed_accounts t tenant_id core_ledger_accounts accounts)
          ≡ some row)
  seeded_find code accounts h =
      let (row, e) = seeded-some code core_ledger_accounts h in
      elim (Option-cases (t.accounts.find (tenant_id, code) accounts)) [
        | inl absent ↦ (
          row,
          find-seed_accounts t tenant_id (tenant_id, code) core_ledger_accounts accounts
              ∙ rw (absent, e),
        )
        | inr (old, present) ↦ (
          old,
          find-seed_accounts t tenant_id (tenant_id, code) core_ledger_accounts accounts
              ∙ rw present,
        )
      ]
