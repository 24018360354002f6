-- ===== src/Accounting/Posting/Fresh.antt =====
-- What the first posting of a sale writes.
use arkain.Prelude.{ℕ, String, ◌≡◌, ◌≢◌, refl, sym, ◌∙◌, Option, none, some, ok, if_pos, if_neg}
use arkain.Prelude.Int.{pos}
use arkain.Prisma.{upserted}
use arkain.Marketplace.Types.{MarketplaceId}
use arkain.Accounting.Vat.{Split}
use arkain.Accounting.Vat.Nearest.{IsSplit}
use arkain.Accounting.Journal.{Partner}
use arkain.Accounting.Journal.Balance.{build-IsSalesLines}
use arkain.Accounting.Ledger.{
  PartnerRow, order_sale, posted, LedgerTables, Ledger, SalesOrderForJournal, is_sale_of,
  description, market_settlement_partner_name,
}
use arkain.Accounting.Posting.{post_sales_journal_entry}
use arkain.Accounting.Posting.Once.{
  stored_lines, partner_row, settlement_partner, split, sale_entry,
}
use arkain.Accounting.Posting.Idempotent.{post-absent, find-new, new_id, new_db}

-- The unique columns of the settlement partner, and its id: that of its row, where it has one.
abbrev pub partner_key : String → MarketplaceId → String × (String × String)
partner_key tenant_id marketplace =
    (tenant_id, ("GENERAL", market_settlement_partner_name marketplace))

abbrev pub id_or : String → Option PartnerRow → String
id_or made_id none = made_id
id_or made_id (some row) = row.id

upserted_id :
    (made_id : String) (o : Option PartnerRow)
    → (upserted (record { id = made_id }) (λ r. r) o).id ≡ id_or made_id o
upserted_id made_id none = refl
upserted_id made_id (some row) = refl

-- A new entry of the sale of `n`, on the tenant's own accounts.
pub record PostsFresh (t : LedgerTables) (made_id : String) (order : SalesOrderForJournal) (n : ℕ)
    (db : Ledger t) : Type 0 where
  pub id : String
  pub after : Ledger t
  pub parts : Split
  pub partner : Partner
  pub posts : post_sales_journal_entry t made_id order db ≡ (ok id, after)
  pub free : t.entries.find id db.entries ≡ none
  pub found :
      t.entries.find id after.entries
      ≡ some (record {
        tenant_id = order.tenant_id;
        entry_date = order.ordered_at;
        status = posted;
        source_type = order_sale;
        source_id = some order.id;
        description = description order;
        lines = stored_lines order.tenant_id n parts partner;
      })
  pub is_split : IsSplit n parts
  pub partner_name : partner.name ≡ market_settlement_partner_name order.marketplace
  pub partner_id :
      partner.id
      ≡ id_or made_id (t.partners.find (partner_key order.tenant_id order.marketplace) db.partners)
  pub partner_found :
      (row : PartnerRow) × (t.partners.find
          (partner_key order.tenant_id order.marketplace)
          after.partners
        ≡ some row)
      × (row.id ≡ partner.id)
  pub others : (j : String) → j ≢ id → t.entries.find j after.entries ≡ t.entries.find j db.entries

-- A sale without an entry is posted whole: under an id that was free stands one posted entry of the
-- tenant and the order, with the amount debited to its account 108 under the settlement partner of
-- the marketplace and the two parts of its split, which add up to it, credited to its accounts 404
-- and 255. That partner has the marketplace's name and the id of the tenant's row of that name, or
-- the made id where there was none, and its row is there afterwards. Every other entry is as it was.
pub post_sales_journal_entry-PostsFresh :
    (t : LedgerTables) (made_id : String) (order : SalesOrderForJournal) (n : ℕ) (db : Ledger t)
    → order.total_amount_krw ≡ pos n
    → t.entries.find_first (λ _ e. is_sale_of order e) db.entries ≡ none
    → PostsFresh t made_id order n db
post_sales_journal_entry-PostsFresh t made_id order n db amount absent =
    let entry = sale_entry t made_id order n db amount in
    let id = new_id t order n amount made_id db in
    let key = partner_key order.tenant_id order.marketplace in
    record {
      id = id;
      after = new_db t order n amount made_id db;
      parts = split t made_id order n db amount;
      partner = settlement_partner t made_id order n db amount;
      posts = post-absent t order n amount made_id db absent;
      free = t.entries.create_fresh entry db.entries;
      found = find-new t order n amount made_id db;
      is_split = (build-IsSalesLines n (settlement_partner t made_id order n db amount)).is_split;
      partner_name = refl;
      partner_id = upserted_id made_id (t.partners.find key db.partners);
      partner_found = (
        partner_row t made_id order n db amount,
        t.partners.find-upsert key (record { id = made_id }) (λ r. r) db.partners key
            ∙ if_pos (t.partners.dec key key) refl (some (partner_row t made_id order n db amount))
                (t.partners.find key db.partners),
        refl,
      );
      others = λ j other.
          t.entries.find-create entry db.entries j
          ∙ if_neg (t.entries.dec id j) (λ p. other (sym p)) (some entry)
              (t.entries.find j db.entries);
    }
