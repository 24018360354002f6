-- ===== src/Accounting/Posting/Idempotent.antt =====
-- Posting a sale again finds the entry of the first time.
use arkain.Prelude.{
  ℕ, String, ◌≡◌, refl, sym, ap, ◌∙◌, true, Option, none, some, arith, ok, if_pos, if_neg, inl, inr,
  Option-cases,
}
use arkain.Prelude.Int.{pos}
use arkain.Accounting.Ledger.{
  JournalEntryRow, LedgerTables, Ledger, SalesOrderForJournal, is_sale_of,
}
use arkain.Accounting.Posting.{existing_or_new, post_sales_journal_entry}
use arkain.Accounting.Posting.Once.{sale_entry, made, posted_ledger, post_new-ok}

module _ (t : LedgerTables) (order : SalesOrderForJournal) where
  abbrev existing : Ledger t → Option (String × JournalEntryRow)
  existing db = t.entries.find_first (λ _ e. is_sale_of order e) db.entries

  post-existing :
      (made_id : String) (db : Ledger t) (id : String) (e : JournalEntryRow)
      → existing db ≡ some (id, e)
      → post_sales_journal_entry t made_id order db ≡ (ok id, db)
  unfolding post_sales_journal_entry existing_or_new
  post-existing made_id db id e h = rw h

  module _ (n : ℕ) (amount : order.total_amount_krw ≡ pos n) (made_id : String)
      (db : Ledger t) where
    abbrev entry : JournalEntryRow
    entry = sale_entry t made_id order n db amount

    abbrev pub new_id : String
    new_id = (made t made_id order n db amount).0

    abbrev pub new_db : Ledger t
    new_db = posted_ledger t made_id order n db amount

    pub post-absent :
        existing db ≡ none → post_sales_journal_entry t made_id order db ≡ (ok new_id, new_db)
    unfolding post_sales_journal_entry existing_or_new
    post-absent h = rw h (post_new-ok t made_id order n db amount)

    entry-is_sale_of : is_sale_of order entry ≡ true
    entry-is_sale_of = ground arith

    pub find-new : t.entries.find new_id new_db.entries ≡ some entry
    find-new =
        t.entries.find-create entry db.entries new_id
        ∙ if_pos (t.entries.dec new_id new_id) refl (some entry) (t.entries.find new_id db.entries)

    -- The only entry of the order is the new one.
    only_new :
        existing db ≡ none
        → (k : String) (e : JournalEntryRow) → t.entries.find k new_db.entries ≡ some e
        → is_sale_of order e ≡ true
        → k ≡ new_id
    only_new absent k e found sale = elim (t.entries.dec new_id k) [
      | yes p ↦ sym p
      | no other ↦
          let old =
            sym (rw (if_neg _ other) at (t.entries.find-create entry db.entries k)) ∙ found in
          absurd (
            cc (
              t.entries.find_first-none (λ _ x. is_sale_of order x) db.entries k e absent old,
              sale,
            ))
    ]

    existing-new : existing db ≡ none → (e : JournalEntryRow) × (existing new_db ≡ some (new_id, e))
    existing-new absent = elim (Option-cases (existing new_db)) [
      | inl miss ↦ absurd (
          cc (
            t.entries.find_first-none (λ _ x. is_sale_of order x) new_db.entries new_id entry miss
                find-new,
            entry-is_sale_of,
          ))
      | inr ((k, e), hit) ↦
          let (found, sale) =
            t.entries.find_first-some (λ _ x. is_sale_of order x) new_db.entries k e hit in
          (e, hit ∙ ap (λ j. some (j, e)) (only_new absent k e found sale))
    ]

-- What posting a sale of a non-negative amount comes to: it succeeds, the ledger then holds an
-- entry of that sale under the returned id, and posting the sale again, whatever id the database
-- would make for a new partner, returns the same id and leaves the whole ledger as it is.
pub record PostsOnce (t : LedgerTables) (made_id : String) (order : SalesOrderForJournal)
    (db : Ledger t) : Type 0 where
  pub id : String
  pub after : Ledger t
  pub entry : JournalEntryRow
  pub posts : post_sales_journal_entry t made_id order db ≡ (ok id, after)
  pub found : t.entries.find id after.entries ≡ some entry
  pub of_sale : is_sale_of order entry ≡ true
  pub again : (other_id : String) → post_sales_journal_entry t other_id order after ≡ (ok id, after)

-- Posting a sale whose amount is not negative succeeds, leaves an entry of the sale under the
-- returned id, and when the same sale is posted again the id is the same and nothing is written.
pub post_sales_journal_entry-PostsOnce :
    (t : LedgerTables) (made_id : String) (order : SalesOrderForJournal) (n : ℕ) (db : Ledger t)
    → order.total_amount_krw ≡ pos n
    → PostsOnce t made_id order db
post_sales_journal_entry-PostsOnce t made_id order n db amount =
    elim (Option-cases (existing t order db)) [
      | inl absent ↦
          let (e, hit) = existing-new t order n amount made_id db absent in
          let (found, sale) =
            t.entries.find_first-some (λ _ x. is_sale_of order x)
              (new_db t order n amount made_id db).entries (new_id t order n amount made_id db) e
              hit in
          record {
            id = new_id t order n amount made_id db;
            after = new_db t order n amount made_id db;
            entry = e;
            posts = post-absent t order n amount made_id db absent;
            found = found;
            of_sale = sale;
            again = λ other_id. post-existing t order other_id _ _ e hit;
          }
      | inr ((id, e), hit) ↦
          let (found, sale) =
            t.entries.find_first-some (λ _ x. is_sale_of order x) db.entries id e hit in
          record {
            id = id;
            after = db;
            entry = e;
            posts = post-existing t order made_id db id e hit;
            found = found;
            of_sale = sale;
            again = λ other_id. post-existing t order other_id db id e hit;
          }
    ]
