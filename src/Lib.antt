-- ===== src/Lib.antt =====
-- RITSEI business platform: a verification library for its domain services.
--
-- The program is a TypeScript monorepo: packages/kernel (exact amounts, database and ledger
-- adapters), packages/accounting (journals and the financial ledger port) and the domain services
-- around them: packages/authorization decides what a principal may do, packages/messaging keeps the
-- events, and packages/sales and packages/inventory call them; packages/process keeps a queue of
-- durable jobs in the database. A service is a set of operations on maps that it owns; a caller
-- hands an operation an untrusted input, which a schema checks first, and gets an outcome or a tagged
-- error.
--
-- Files and the code they model:
--   Base, Text, Dict: the language. A string is the list of its code units, a `Map` with string keys
--     an association list in insertion order, a bigint that is never negative a natural number.
--     `Effect.gen` blocks are functions of the store that return a result and the store after it.
--   Kernel.Amount: packages/kernel/src/financial-amount.ts, function by function.
--   Ledger.Port: the inputs and outcomes of packages/accounting/src/financial-ledger.ts.
--   Ledger.Journal: `validateJournal` there, `journalValidation` in packages/kernel/src/tigerbeetle.ts.
--   Ledger.Pairing: `pairLines` of packages/kernel/src/tigerbeetle.ts.
--   Ledger.Memory: `makeFinancialLedgerTestLayer` of packages/accounting/src/financial-ledger.ts.
--     Operations has accounts and the parts of a posting, Post the operations stage by stage.
--   Ledger.Tigerbeetle: the adapter of packages/kernel/src/tigerbeetle.ts. Its client is a parameter, a
--     record of calls that answer or throw and move a server on; so are the numbers of the package's
--     enumerations and the SHA-256 digest. Operations has accounts, Transfers the journals.
--   Authorization: packages/authorization/src; Capabilities is capabilities.ts, Service the in-memory
--     service of service.ts. A string of a schema without a check is any text, and ids that hold a
--     colon may share a key, as in the code.
--   Messaging: packages/messaging/src/service.ts; Events has its schemas, Service the in-memory service.
--     The schema library's test for a UUID and its equality of JSON values, and the parsing and
--     printing of dates, are parameters. An effect that a consumer runs is any function of the store
--     and of a world of its own.
--   Sales: packages/sales/src/service.ts; Orders has its data and the total of an order, Service the
--     in-memory service, which calls the authorization and messaging services above. The identifiers
--     and times that an operation draws are arguments of it, and the lower case of a text and the JSON
--     value of a payload are parameters.
--   Inventory: packages/inventory/src/service.ts; Data has its data, Service the receiving, reserving,
--     releasing and fulfilling of stock in the in-memory service, Transfers the transfers between
--     warehouses, Register the creation of warehouses and items, and Corrections those of stock, there.
--   Process: the durable jobs of packages/process/src/service.ts and packages/kernel/src/jobs.ts on the
--     table of db/schema/process.ts. Jobs has rows, inputs and schemas, Queue the operations; the
--     table is the list of its rows, and a transaction is one step on it, with the identifiers,
--     tokens and times that it draws and the rows that others hold locked as arguments. The database
--     compares UUIDs whatever the case of their letters, the model as texts, so that identifiers are
--     taken to be written in one case. Queue.Claims has which job a claim takes, Queue.Phases
--     has the machine of a single job that the operations implement.
--   Accounting: the in-memory service of packages/accounting/src/service.ts. Data has its data, Setup
--     legal entities, accounts, posting profiles and periods, Journals the posting of journals, and
--     Revenue the posting of the revenue of an order, whose total the sales service is asked for, and
--     its reversal. Evidence has the evidence of packages/accounting/src/financial-readiness.ts with
--     its hash, and Cutover the change of the financial engine that rests on it. Signatures and the
--     services that make and check them, base64url and SHA-256 are parameters. Readiness has the
--     comparison of snapshots, and Readiness.Opening that of opening balances, of
--     financial-readiness.ts; the printing of a fact as JSON gives its fields in the schema's order.
--
-- Bounds: amounts are bounded by 2^128 - 1 where the code tests it. `toString` is given the number
-- plus one as fuel, and the pairing loops as many rounds as there are sides; the results below show
-- that this is enough, since nothing is left over.
--
-- Not modelled: the shape of an unknown JSON value (the schema library decodes it; the checks on the
-- fields are modelled), HTTP handlers, the database driver, the versions on PostgreSQL of the
-- services that have one in memory, the workflows of packages/process, the tables of
-- failure points and the hash of a snapshot in financial-readiness.ts, which sorts by the locale.
pub mod Base
pub mod Text
pub mod Dict
pub mod Kernel
pub mod Ledger
pub mod Authorization
pub mod Messaging
pub mod Sales
pub mod Inventory
pub mod Accounting
pub mod Process
mod Tests
