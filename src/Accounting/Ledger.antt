-- ===== src/Accounting/Ledger.antt =====
-- src/domain/accounting.ts: the ledger in the database. A ledger account is unique by tenant and
-- code, a partner by tenant, type and name: the model names such a row by that key where the source
-- names it by its `id`. `forTenant` adds the row-level check of the database to each call and
-- changes no argument; the calls below carry the tenant in their `where`, as the source's do.
use Prim.Native.String.{◌++◌ as text_append}
use arkain.Prelude.{
  ℕ, String, Bool, true, false, ◌&&◌, ◌||◌, Option, none, some, List, [], ◌∷◌, Result, ok, throw,
  holds, String-discrete,
}
use arkain.Prelude.Dict.{insert}
use arkain.Prelude.Int.{ℤ}
use arkain.Prisma.{Table}
use arkain.Marketplace.Types.{
  MarketplaceId, naver_smartstore, coupang, eleven_st, esm_2_0, gsshop, id_text,
}
use arkain.Accounting.Vat.{AccountingInvariantError, not_seeded}
use arkain.Accounting.Journal.{Side, Partner, SalesJournalLine}

pub data LedgerAccountCategory : Type 0 where
  asset liability equity revenue expense : LedgerAccountCategory

pub record CoreLedgerAccountSeed : Type 0 where
  pub code : String
  pub name : String
  pub category : LedgerAccountCategory

-- `CORE_LEDGER_ACCOUNTS`
abbrev pub core_ledger_accounts : List CoreLedgerAccountSeed
core_ledger_accounts =
    record { code = "103"; name = "보통예금"; category = asset }
    ∷ record { code = "108"; name = "외상매출금"; category = asset }
    ∷ record { code = "251"; name = "외상매입금"; category = liability }
    ∷ record { code = "253"; name = "미지급금"; category = liability }
    ∷ record { code = "255"; name = "부가세예수금"; category = liability }
    ∷ record { code = "404"; name = "제품매출"; category = revenue }
    ∷ []

pub record LedgerAccountRow : Type 0 where
  pub name : String
  pub category : LedgerAccountCategory
  pub is_system_locked : Bool

pub data JournalSource : Type 0 where
  order_sale bank_transaction cc_transaction manual : JournalSource

pub data JournalStatus : Type 0 where
  draft posted : JournalStatus

pub record JournalLineRow : Type 0 where
  pub account : String × String
  pub side : Side
  pub amount_krw : ℕ
  pub partner : Option Partner

pub record JournalEntryRow : Type 0 where
  pub tenant_id : String
  pub entry_date : ℕ
  pub status : JournalStatus
  pub source_type : JournalSource
  pub source_id : Option String
  pub description : String
  pub lines : List JournalLineRow

pub record PartnerRow : Type 0 where
  pub id : String

pub record LedgerTables : Type 1 where
  -- unique on (tenantId, code)
  pub accounts : Table (String × String) LedgerAccountRow
  -- unique on (tenantId, type, name)
  pub partners : Table (String × (String × String)) PartnerRow
  pub entries : Table String JournalEntryRow

pub record Ledger (t : LedgerTables) : Type 0 where
  pub accounts : t.accounts.Db
  pub partners : t.partners.Db
  pub entries : t.entries.Db

pub record SalesOrderForJournal : Type 0 where
  pub id : String
  pub tenant_id : String
  pub marketplace : MarketplaceId
  pub total_amount_krw : ℤ
  pub ordered_at : ℕ

-- `MARKET_SETTLEMENT_PARTNER_NAME`
unfoldable pub market_settlement_partner_name : MarketplaceId → String
market_settlement_partner_name naver_smartstore = "네이버 스마트스토어"
market_settlement_partner_name coupang = "쿠팡"
market_settlement_partner_name eleven_st = "11번가"
market_settlement_partner_name esm_2_0 = "ESM 2.0"
market_settlement_partner_name gsshop = "GS샵"

abbrev is_sale : JournalSource → Bool
is_sale order_sale = true
is_sale _ = false

abbrev is_source : Option String → String → Bool
is_source none id = false
is_source (some s) id = holds (String-discrete s id)

-- `where: { tenantId, sourceType: "ORDER_SALE", sourceId: order.id }`
abbrev pub is_sale_of : SalesOrderForJournal → JournalEntryRow → Bool
is_sale_of order e =
    holds (String-discrete e.tenant_id order.tenant_id)
    && (is_sale e.source_type && is_source e.source_id order.id)

unfoldable pub description : SalesOrderForJournal → String
description order =
    text_append "매출 자동분개 — " (text_append (id_text order.marketplace) (text_append " 주문 " order.id))

-- `code: { in: lines.map((l) => l.accountCode) }`
abbrev pub has_code : List SalesJournalLine → String → Bool
has_code [] code = false
has_code (l ∷ ls) code = holds (String-discrete l.account_code code) || has_code ls code

-- `new Map(accounts.map((a) => [a.code, a.id]))`
unfoldable pub account_by_code :
    List (String × (String × String))
    → List ((String × String) × LedgerAccountRow)
    → List (String × (String × String))
account_by_code m [] = m
account_by_code m ((key, row) ∷ rest) = account_by_code (insert String-discrete key.1 key m) rest

unfoldable pub connect_line :
    SalesJournalLine → Option (String × String) → Result AccountingInvariantError JournalLineRow
connect_line line none = throw not_seeded
connect_line line (some account) = ok (record {
  account = account;
  side = line.side;
  amount_krw = line.amount_krw;
  partner = line.partner;
})
