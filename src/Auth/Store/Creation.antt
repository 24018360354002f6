-- ===== src/Auth/Store/Creation.antt =====
-- The sellers that a sign-up creates, and what the tries for a free company code come to.
use arkain.Prelude.{
  ◌≡◌, refl, ◌⊎◌, inl, inr, ℕ, zero, suc, ◌+◌, ◌≤◌, ◌<◌, String, Bool, none, some, arith, Result,
  ok, throw, Option-cases, ite, String-discrete, true_of_holds, false_of_holds, ℕ_discrete, subst,
}
use arkain.Prisma.{Table}
use arkain.Auth.Store.{
  SellerRow, SellerAuthRecord, CreateSellerInput, AuthError, email_taken, company_code_taken,
  to_record, seller_row, insert_seller, create_attempts, create_seller, generate_company_code,
  company_code_length, is_text, after_attempt, is_company_code_collision,
}

-- What holds at a number and at those after it.
from_first : (first m : ℕ) (P : ℕ → Type 0) → P first → (suc first ≤ m → P m) → first ≤ m → P m
from_first first m P here after low = elim (ℕ_discrete first m) [
  | yes e ↦ subst P e here
  | no n ↦ after (omega (arith, n))
]

module _ (t : Table String SellerRow) (input : CreateSellerInput) (codes : ℕ → String)
    (db : t.Db) where
  abbrev new_row : ℕ → SellerRow
  new_row k = seller_row input (codes k)

  -- A seller has the email; a seller has the company code of a try.
  abbrev pub EmailTaken : Type 0
  EmailTaken = (i : String) × (r : SellerRow) × (t.find i db ≡ some r) × (r.email ≡ input.email)

  abbrev pub CodeTaken : ℕ → Type 0
  CodeTaken k = (i : String) × (r : SellerRow) × (t.find i db ≡ some r) × (r.company_code ≡ codes k)

  -- A seller with the code of the try k is new: no seller had its email, its code or its id, and it
  -- alone is added.
  pub record IsNew (k : ℕ) (seller : SellerAuthRecord) (after : t.Db) : Type 0 where
    pub seller_is : seller ≡ to_record seller.id (seller_row input (codes k))
    pub fresh : t.find seller.id db ≡ none
    pub email_free : ¬ EmailTaken
    pub code_free : ¬ (CodeTaken k)
    pub added :
        (j : String)
        → t.find j after ≡ ite (t.dec seller.id j) (some (seller_row input (codes k))) (t.find j db)

  -- What the tries from `first` to `last` come to.
  abbrev pub IsCreated : ℕ → ℕ → Result AuthError SellerAuthRecord × t.Db → Type 0
  IsCreated first last (ok seller, after) =
      (k : ℕ) × (first ≤ k)
      × (k ≤ last)
      × ((m : ℕ) → first ≤ m → m < k → CodeTaken m)
      × IsNew k seller after
  IsCreated first last (throw e, after) =
      (after ≡ db)
      × (((e ≡ email_taken) × EmailTaken)
          ⊎ ((e ≡ company_code_taken) × ((m : ℕ) → first ≤ m → m ≤ last → CodeTaken m)))

  -- What one call of the database comes to.
  abbrev Inserted : ℕ → Result AuthError SellerAuthRecord × t.Db → Type 0
  Inserted k p =
      ((p ≡ (throw email_taken, db)) × EmailTaken)
      ⊎ (((p ≡ (throw company_code_taken, db)) × CodeTaken k)
          ⊎ ((seller : SellerAuthRecord) × (after : t.Db) × (p ≡ (ok seller, after))
              × IsNew k seller after))

  has_email : String → SellerRow → Bool
  has_email _ r = is_text input.email r.email

  has_code : ℕ → String → SellerRow → Bool
  has_code k _ r = is_text (codes k) r.company_code

  free_lem :
      (k : ℕ)
      → t.find_first has_email db ≡ none
      → t.find_first (has_code k) db ≡ none
      → IsNew k (to_record (t.create (new_row k) db).0 (new_row k)) (t.create (new_row k) db).1
  unfolding to_record has_email has_code
  free_lem k no_email no_code = record {
    seller_is = refl;
    fresh = t.create_fresh (new_row k) db;
    email_free = λ (i, r, e, same).
        false_of_holds (String-discrete r.email input.email)
          (t.find_first-none has_email db i r no_email e) same;
    code_free = λ (i, r, e, same).
        false_of_holds (String-discrete r.company_code (codes k))
          (t.find_first-none (has_code k) db i r no_code e) same;
    added = t.find-create (new_row k) db;
  }

  insert_lem : (k : ℕ) → Inserted k (insert_seller t (new_row k) db)
  unfolding insert_seller has_email has_code
  insert_lem k = elim (Option-cases (t.find_first has_email db)) [
    | inr ((i, r), e) ↦
        let (held, same) = t.find_first-some has_email db i r e in
        rw e (inl (refl, (i, r, held, true_of_holds (String-discrete r.email input.email) same)))
    | inl no_email ↦ elim (Option-cases (t.find_first (has_code k) db)) [
      | inr ((i, r), e) ↦
          let (held, same) = t.find_first-some (has_code k) db i r e in
          rw (no_email, e)
            (inr (
              inl (
                refl,
                (i, r, held, true_of_holds (String-discrete r.company_code (codes k)) same),
              )))
      | inl no_code ↦
          rw (no_email, no_code)
            (inr (
              inr (
                to_record (t.create (new_row k) db).0 (new_row k),
                (t.create (new_row k) db).1,
                refl,
                free_lem k no_email no_code,
              )))
    ]
  ]

  earlier :
      (first left : ℕ) (p : Result AuthError SellerAuthRecord × t.Db)
      → CodeTaken first
      → IsCreated (suc first) (suc first + left) p
      → IsCreated first (first + suc left) p
  earlier first left (ok seller, after) there (k, low, high, before, new) = (
    k,
    omega arith,
    omega arith,
    λ m from to. from_first first m (λ n. CodeTaken n) there (λ from'. before m from' to) from,
    new,
  )
  earlier first left (throw e, after) there (same, inl h) = (same, inl h)
  earlier first left (throw e, after) there (same, inr (is_code, all)) = (
    same,
    inr (
      is_code,
      λ m from to.
          from_first first m (λ n. CodeTaken n) there (λ from'. all m from' (omega arith)) from,
    ),
  )

  attempts_lem :
      (first left : ℕ)
      → IsCreated first (first + left) (create_attempts t input codes first left db)
  unfolding create_attempts after_attempt is_company_code_collision
  attempts_lem first zero = elim (insert_lem first) [
    | inl (e, there) ↦ rw e (refl, inl (refl, there))
    | inr (inl (e, there)) ↦
        rw e (refl, inr (refl, λ m low high. subst (λ n. CodeTaken n) (omega arith) there))
    | inr (inr (seller, after, e, new)) ↦
        rw e (first, omega arith, omega arith, λ m low high. absurd (omega arith), new)
  ]
  attempts_lem first (suc left) = elim (insert_lem first) [
    | inl (e, there) ↦ rw e (refl, inl (refl, there))
    | inr (inl (e, there)) ↦ rw e (
        earlier first left (create_attempts t input codes (suc first) left db) there
          (attempts_lem (suc first) left))
    | inr (inr (seller, after, e, new)) ↦
        rw e (first, omega arith, omega arith, λ m low high. absurd (omega arith), new)
  ]

-- A sign-up either adds one seller, with the given name, email and password hash, an id that was
-- free, and the first of five made company codes that no seller has, all those made before it
-- being taken; or it changes nothing and throws, because a seller has the email, or because all
-- five codes are taken.
pub create_seller-IsCreated :
    (t : Table String SellerRow) (input : CreateSellerInput) (draws : ℕ → ℕ → ℕ) (db : t.Db)
    → IsCreated t input
        (λ k. generate_company_code company_code_length (draws k))
        db
        0
        4
        (create_seller t input draws db)
unfolding create_seller
create_seller-IsCreated t input draws db =
    attempts_lem t input (λ k. generate_company_code company_code_length (draws k)) db 0 4
