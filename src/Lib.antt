-- ===== src/Lib.antt =====
-- ARKAIN: one desk for sellers on several marketplaces. The program pulls orders from the
-- marketplaces into one database, keeps a ledger and a wholesale desk on it, and serves pages. This
-- library models its core as functions and proves what makes it correct. Paths are those of the
-- repository.
--
-- The parts, and the files that model them:
--   Prelude      shared names, Boolean tests, maps in the order of insertion, and code that changes
--                a state and may throw (Exec)
--   Prisma       the database client as an interface, a table with its calls and their laws; the
--                source only calls it. Memory has tables that meet the laws, for the examples
--   Marketplace  src/integrations/marketplace.ts: the types that every adapter produces, and two
--                mappers, Naver of src/integrations/naver/naver.mapper.ts and GsShop of
--                src/imports/gsshop/gsshop.mapper.ts, with Grouping, which they share
--   B2b          src/domain/b2b: purchase orders. Types is types.ts, Status is
--                purchaseOrderStateMachine.ts, Pricing is pricing.ts, Rows and Store are
--                repository.ts (B2BStore)
--   Accounting   src/domain/accounting.ts: Vat has splitSupplyAndVat, Journal has assertBalanced and
--                buildSalesJournalLines, Ledger has the rows and the seeds, Posting has the seeding,
--                the settlement partner and postSalesJournalEntry
--   Domain       src/domain: Status is status.ts, Rows is mappers.ts, Store is repository.ts
--                (PrismaDomainStore) but for its sync runs
--   NorthStar    src/domain/northStar.ts: Aging has computeAgingFifo, Rates the amounts by month and
--                computeQuoteConversion, Health computeHealthScore
--   Sync         src/sync/orderSyncEngine.ts: Engine has syncConnection and syncAll, Scheduler has
--                startScheduler as a step relation; Runs has the sync runs of
--                src/domain/repository.ts, through which the engine resumes
--   Retry        src/integrations/retry.ts: withRetry
--   Throttle     src/auth/rateLimiter.ts and src/alerting/notifier.ts
--   Adapters     src/integrations/{naver,coupang,esm}: Naver, Coupang and Esm are the three adapters,
--                with the mappers of the last two. Cursors and Transport have what the three share,
--                a cursor in its coded form and the call of a client; Sweep and Pull are the tour of
--                windows and filters that each cursor makes. Client in each is its HTTP client
--                (naver.http.ts, coupang.http.ts, esm.http.ts), over what is in Http
--   Auth         src/auth: Session is session.ts, Store is authStore.ts and resetToken.ts
--   App          src/app.ts: Accounts has the handlers of sign-up, login, session and account
--                recovery, Orders those of orders and of products that a seller enters, Wholesale
--                those of the wholesale desk, Reply what a handler answers
--   Connect      src/secrets/credentialStore.ts is Sealing, src/connect is Sellers
--   Storage      src/storage/localStore.ts: the files of the scripts
--
-- How the parts meet. The handlers of App call Auth, and the limiters of Throttle guard those for
-- account recovery. Its other handlers call Domain for the seller of a session, and B2b for the
-- tenant of the request. Connect asks an adapter to verify a key, seals it and stores it through
-- Domain. The clients of the adapters repeat a call under Retry. Sync pulls pages through an adapter and
-- stores them through Domain.
--
-- How the code is translated. A method is a function from the state to its result and the state after
-- it, so what was written before a throw stays written. A database row is named by its id or by its
-- unique columns. A call through forTenant carries the same arguments as a plain one: the row-level
-- security behind it belongs to the database and is not modelled. An amount is a whole number of
-- won, without a bound; in the source sums stay exact below 2 ^ 53. A time is its number of
-- milliseconds since the epoch. A field of the bodies of Accounts, and the name of a product that a
-- seller enters, is a value of any JSON type, on which a call of `trim` may throw. A thrown
-- error is a value with what the code reads of it. Clock, random draws, made ids, sleeps and calls
-- to the outside are parameters or part of a world that is one.
--
-- Loops. The retry loop recurses on the attempts that are left, the page loop on the pages that it
-- may still pull and the loop for a company code on the attempts that may follow, which is the
-- source's own bound for each. The loop of chunk takes as many rounds as there are items, which is
-- enough as each takes an item at least; the text of a number takes a round more than the number,
-- which is enough as each takes a digit. All else recurses on lists.
--
-- The outside. The keyed hash of a session, the password hash, the cipher, JSON, base64 and the
-- decoding of a cookie are functions that the definitions take; a theorem names what it asks of
-- them, such as that a tag opens what it sealed and nothing else. To an adapter a client is a function
-- from a request to parsed JSON or an error; to a client the network is one from a request to an
-- answer or a failure.
--
-- Not modelled: the pages and their HTML, start-up, configuration, logging and scripts, which are
-- wiring and input or output; the checks of the JSON bodies and the sheet parser; the handlers for
-- connections and imports, and the lists of products; the answers of a handler that was started
-- without its store, but for sessions; of the metrics the sorting of months, the cash score and the
-- queries; a field of the wholesale desk's bodies with a value of another type than the source gives
-- it. The order of rows by `createdAt`, a column that the database fills, is a parameter. The
-- untouched payload that is kept beside each order for audit is left out of the types, as no code
-- reads it.
pub mod Prelude
pub mod Prisma
pub mod Marketplace
pub mod B2b
pub mod Accounting
pub mod NorthStar
pub mod Domain
pub mod Sync
pub mod Retry
pub mod Throttle
pub mod Adapters
pub mod Auth
pub mod App
pub mod Connect
pub mod Storage
