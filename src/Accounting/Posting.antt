-- ===== src/Accounting/Posting.antt =====
-- src/domain/accounting.ts: seeding the core accounts, the settlement partner, and the posting of a
-- sale. `made_id` is the id that the database makes for a new partner.
pub mod Seeding
pub mod Once
pub mod Idempotent
pub mod Fresh
use arkain.Prelude.{
  String, Bool, true, false, ◌&&◌, Option, none, some, List, [], ◌∷◌, Result, ok, throw,
  ◌>>=◌ as then_, holds, String-discrete,
}
use arkain.Prelude.Dict.{lookup}
use arkain.Prelude.Exec.{Exec, pure, raise, gets, from_result, ◌>>=◌, ◌>>◌}
use arkain.Prisma.{Table, upserted}
use arkain.Marketplace.Types.{MarketplaceId}
use arkain.Accounting.Vat.{AccountingInvariantError}
use arkain.Accounting.Journal.{Partner, SalesJournalLine, build_sales_journal_lines}
use arkain.Accounting.Ledger.{
  CoreLedgerAccountSeed, core_ledger_accounts, LedgerAccountRow, PartnerRow, JournalLineRow,
  JournalEntryRow, order_sale, posted, LedgerTables, Ledger, SalesOrderForJournal,
  market_settlement_partner_name, is_sale_of, description, has_code, account_by_code, connect_line,
}

abbrev pub locked : CoreLedgerAccountSeed → LedgerAccountRow
locked seed = record { name = seed.name; category = seed.category; is_system_locked = true }

-- `lines.map((line) => ...)`, which the first throw ends
unfoldable pub connect_lines :
    List (String × (String × String))
    → List SalesJournalLine
    → Result AccountingInvariantError (List JournalLineRow)
unfolding connect_line
connect_lines ids [] = ok []
connect_lines ids (l ∷ ls) =
    let rest = connect_lines ids ls in
    then_ (connect_line l (lookup String-discrete l.account_code ids))
      (λ row. then_ rest (λ rows. ok (row ∷ rows)))

module _ (t : LedgerTables) where
  abbrev pub Action : Type 0 → Type 0
  Action A = Exec AccountingInvariantError (Ledger t) A

  -- the loop over the seeds; an account that is there stays as it is
  unfoldable pub seed_accounts : String → List CoreLedgerAccountSeed → t.accounts.Db → t.accounts.Db
  seed_accounts tenant_id [] accounts = accounts
  seed_accounts tenant_id (seed ∷ seeds) accounts =
      seed_accounts tenant_id seeds
        (t.accounts.upsert (tenant_id, seed.code) (locked seed) (λ row. row) accounts)

  unfoldable pub seed_core_ledger_accounts : String → Action (Unit {0})
  seed_core_ledger_accounts tenant_id db =
      (ok tt, record db { accounts = seed_accounts tenant_id core_ledger_accounts db.accounts })

  unfoldable pub get_or_create_market_settlement_partner :
      String → String → MarketplaceId → Action Partner
  get_or_create_market_settlement_partner made_id tenant_id marketplace db =
      let name = market_settlement_partner_name marketplace in
      let key : String × (String × String) = (tenant_id, ("GENERAL", name)) in
      let created : PartnerRow = record { id = made_id } in
      let row = upserted created (λ r. r) (t.partners.find key db.partners) in
      (
        ok (record { id = row.id; name = name }),
        record db { partners = t.partners.upsert key created (λ r. r) db.partners },
      )

  unfoldable pub accounts_for :
      String → List SalesJournalLine → Ledger t → List (String × (String × String))
  unfolding account_by_code
  accounts_for tenant_id lines db = account_by_code [] (
      t.accounts.find_many
        (λ key row. holds (String-discrete key.0 tenant_id) && has_code lines key.1) db.accounts)

  unfoldable pub create_entry : JournalEntryRow → Action String
  create_entry row db =
      let (id, entries) = t.entries.create row db.entries in
      (ok id, record db { entries = entries })

  -- what follows when the order has no entry
  unfoldable pub post_new : String → SalesOrderForJournal → Action String
  post_new made_id order = do
    seed_core_ledger_accounts order.tenant_id
    partner ← get_or_create_market_settlement_partner made_id order.tenant_id order.marketplace
    lines ← from_result (build_sales_journal_lines order.total_amount_krw partner)
    ids ← gets (accounts_for order.tenant_id lines)
    rows ← from_result (connect_lines ids lines)
    create_entry (record {
      tenant_id = order.tenant_id;
      entry_date = order.ordered_at;
      status = posted;
      source_type = order_sale;
      source_id = some order.id;
      description = description order;
      lines = rows;
    })

  unfoldable pub existing_or_new :
      String → SalesOrderForJournal → Option (String × JournalEntryRow) → Action String
  existing_or_new made_id order (some (id, _)) = pure id
  existing_or_new made_id order none = post_new made_id order

  unfoldable pub post_sales_journal_entry : String → SalesOrderForJournal → Action String
  unfolding existing_or_new
  post_sales_journal_entry made_id order = do
    existing ← gets (λ db. t.entries.find_first (λ _ e. is_sale_of order e) db.entries)
    existing_or_new made_id order existing
