-- ===== src/Accounting/Examples.antt =====
-- The theorems on the ledger at work, on a small ledger in memory.
use arkain.Prelude.{◌≡◌, refl, none, [], ok, String-discrete, Pair-discrete}
use arkain.Prelude.Int.{pos}
use arkain.Prisma.Memory.{text_table, pair_table, made_table}
use arkain.Marketplace.Types.{naver_smartstore}
use arkain.Accounting.Vat.{Split, split_supply_and_vat}
use arkain.Accounting.Vat.Nearest.{IsSplit, split-IsSplit}
use arkain.Accounting.Journal.{Partner}
use arkain.Accounting.Journal.Balance.{IsSalesLines, build-IsSalesLines}
use arkain.Accounting.Ledger.{LedgerTables, Ledger, SalesOrderForJournal, is_sale_of}
use arkain.Accounting.Posting.Fresh.{PostsFresh, post_sales_journal_entry-PostsFresh}
use arkain.Accounting.Posting.Idempotent.{PostsOnce, post_sales_journal_entry-PostsOnce}

split-IsSplit_example : (s : Split) × (split_supply_and_vat (pos 11000) ≡ ok s) × IsSplit 11000 s
split-IsSplit_example = split-IsSplit 11000

abbrev naver : Partner
naver = record { id = "p1"; name = "네이버 스마트스토어" }

build-IsSalesLines_example : IsSalesLines 11000 naver
build-IsSalesLines_example = build-IsSalesLines 11000 naver

books : LedgerTables
books = record {
  accounts = pair_table _;
  partners =
      made_table (Pair-discrete String-discrete (Pair-discrete String-discrete String-discrete))
        (λ p. p.0) (λ s. (s, (s, s))) (λ s. refl) _;
  entries = text_table _;
}

empty_books : Ledger books
unfolding books made_table text_table pair_table
empty_books = record { accounts = ([], tt); partners = ([], tt); entries = ([], tt) }

abbrev sale : SalesOrderForJournal
sale = record {
  id = "order-1";
  tenant_id = "seller";
  marketplace = naver_smartstore;
  total_amount_krw = pos 11000;
  ordered_at = 1700000000000;
}

nothing_posted : books.entries.find_first (λ _ e. is_sale_of sale e) empty_books.entries ≡ none
unfolding books empty_books text_table made_table
nothing_posted = refl

post_sales_journal_entry-PostsOnce_example : PostsOnce books "p1" sale empty_books
post_sales_journal_entry-PostsOnce_example =
    post_sales_journal_entry-PostsOnce books "p1" sale 11000 empty_books refl

post_sales_journal_entry-PostsFresh_example : PostsFresh books "p1" sale 11000 empty_books
post_sales_journal_entry-PostsFresh_example =
    post_sales_journal_entry-PostsFresh books "p1" sale 11000 empty_books refl nothing_posted
