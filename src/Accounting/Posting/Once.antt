-- ===== src/Accounting/Posting/Once.antt =====
-- Posting a sale: what is written, and that it is written once.
use arkain.Prelude.{
  ℕ, String, ◌≡◌, refl, true, none, some, List, [], ◌∷◌, ok, String-discrete, inl, inr,
}
use arkain.Prelude.Dict.{lookup}
use arkain.Prelude.Int.{pos}
use arkain.Prisma.{upserted}
use arkain.Accounting.Vat.{Split}
use arkain.Accounting.Journal.{
  debit, credit, Partner, SalesJournalLine, accounts_receivable, sales_revenue, vat_payable,
  sales_lines, build_sales_journal_lines,
}
use arkain.Accounting.Journal.Balance.{build-IsSalesLines}
use arkain.Accounting.Ledger.{
  core_ledger_accounts, LedgerAccountRow, PartnerRow, JournalLineRow, JournalEntryRow, order_sale,
  posted, LedgerTables, Ledger, SalesOrderForJournal, market_settlement_partner_name, description,
  has_code,
}
use arkain.Accounting.Posting.{
  seed_core_ledger_accounts, get_or_create_market_settlement_partner, create_entry, connect_lines,
  seed_accounts, accounts_for, post_new,
}
use arkain.Accounting.Posting.Seeding.{lookup-accounts_for, seeded_find}

-- The lines as stored, on the tenant's own accounts 108, 404 and 255.
abbrev pub stored_lines : String → ℕ → Split → Partner → List JournalLineRow
stored_lines tenant_id n split partner =
    record { account = (tenant_id, "108"); side = debit; amount_krw = n; partner = some partner }
    ∷ record {
      account = (tenant_id, "404");
      side = credit;
      amount_krw = split.supply_amount_krw;
      partner = none;
    }
    ∷ record {
      account = (tenant_id, "255");
      side = credit;
      amount_krw = split.vat_amount_krw;
      partner = none;
    }
    ∷ []

connected :
    (ids : List (String × (String × String))) (tenant_id : String) (n : ℕ) (s : Split) (p : Partner)
    → lookup String-discrete accounts_receivable ids ≡ some (tenant_id, accounts_receivable)
    → lookup String-discrete sales_revenue ids ≡ some (tenant_id, sales_revenue)
    → lookup String-discrete vat_payable ids ≡ some (tenant_id, vat_payable)
    → connect_lines ids (sales_lines n s.supply_amount_krw s.vat_amount_krw p)
      ≡ ok (stored_lines tenant_id n s p)
unfolding connect_lines
connected ids tenant_id n s p a b c = rw (a, b, c)

module _ (t : LedgerTables) (tenant_id : String) (n : ℕ) (s : Split) (p : Partner)
    (db : Ledger t) where
  abbrev lines : List SalesJournalLine
  lines = sales_lines n s.supply_amount_krw s.vat_amount_krw p

  abbrev seeded_ledger : Ledger t
  seeded_ledger = record db {
    accounts = seed_accounts t tenant_id core_ledger_accounts db.accounts;
  }

  -- After seeding, the three lines find their accounts.
  connect_lines-ok :
      (partners : t.partners.Db)
      → connect_lines
          (accounts_for t tenant_id lines (record seeded_ledger { partners = partners }))
          lines
        ≡ ok (stored_lines tenant_id n s p)
  connect_lines-ok partners =
      connected _ tenant_id n s p
        (found accounts_receivable
          (seeded_find t tenant_id accounts_receivable db.accounts (inr (inl refl)))
          (unfold String-discrete in refl))
        (found sales_revenue
          (seeded_find t tenant_id sales_revenue db.accounts
            (inr (inr (inr (inr (inr (inl refl)))))))
          (unfold String-discrete in refl))
        (found vat_payable
          (seeded_find t tenant_id vat_payable db.accounts (inr (inr (inr (inr (inl refl))))))
          (unfold String-discrete in refl))
    where
      found :
          (code : String)
          → ((row : LedgerAccountRow) × (t.accounts.find (tenant_id, code) seeded_ledger.accounts
                ≡ some row))
          → has_code lines code ≡ true
          → lookup String-discrete code
              (accounts_for t tenant_id lines (record seeded_ledger { partners = partners }))
            ≡ some (tenant_id, code)
      found code (row, e) has =
          lookup-accounts_for t tenant_id lines (record seeded_ledger { partners = partners }) code
            row has e

module _ (t : LedgerTables) (made_id : String) (order : SalesOrderForJournal) (n : ℕ)
    (db : Ledger t) (amount : order.total_amount_krw ≡ pos n) where
  abbrev market : String
  market = market_settlement_partner_name order.marketplace

  abbrev pub partner_row : PartnerRow
  partner_row =
      upserted (record { id = made_id }) (λ r. r)
        (t.partners.find (order.tenant_id, ("GENERAL", market)) db.partners)

  abbrev pub settlement_partner : Partner
  settlement_partner = record { id = partner_row.id; name = market }

  abbrev pub split : Split
  split = (build-IsSalesLines n settlement_partner).split

  -- The entry of the sale.
  abbrev pub sale_entry : JournalEntryRow
  sale_entry = record {
    tenant_id = order.tenant_id;
    entry_date = order.ordered_at;
    status = posted;
    source_type = order_sale;
    source_id = some order.id;
    description = description order;
    lines = stored_lines order.tenant_id n split settlement_partner;
  }

  abbrev pub made : String × t.entries.Db
  made = t.entries.create sale_entry db.entries

  abbrev pub posted_ledger : Ledger t
  posted_ledger = record {
    accounts = seed_accounts t order.tenant_id core_ledger_accounts db.accounts;
    partners =
        t.partners.upsert (order.tenant_id, ("GENERAL", market)) (record { id = made_id }) (λ r. r)
          db.partners;
    entries = made.1;
  }

  built :
      build_sales_journal_lines order.total_amount_krw settlement_partner
      ≡ ok (sales_lines n split.supply_amount_krw split.vat_amount_krw settlement_partner)
  built = rw amount (build-IsSalesLines n settlement_partner).built

  pub post_new-ok : post_new t made_id order db ≡ (ok made.0, posted_ledger)
  post_new-ok =
      let step =
        connect_lines-ok t order.tenant_id n split settlement_partner db posted_ledger.partners in
      unfold post_new seed_core_ledger_accounts get_or_create_market_settlement_partner
        create_entry in
      rw (built, step)
