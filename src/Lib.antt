-- ===== src/Lib.antt =====
-- Finance Reconciliation: a Django application that records invoices and bank or wallet payments,
-- matches them with one another, and updates itself through a separate updater process.
--
-- Parts, and the files that model them:
--   * Accounts (apps/accounts): the two business roles. `assign_role`, `user_has_role` and
--     `is_finance_actor` of roles.py (`require_finance_actor`, whose `PermissionDenied` its callers
--     raise) are in Accounts/Roles.antt, over the tables of users and group memberships;
--     `bootstrap_role_user` of apps/accounts/bootstrap.py, which creates the first users, is in
--     Accounts/Bootstrap.antt, and how it reads the password in Accounts/Password.antt.
--   * Money (decimal.Decimal in apps/reconciliation/services.py): Money/Amount.antt has an amount
--     as a number of units of 10^-28, NaN, an infinity, or a value of another type, and `quantize`
--     to cents, half to even; Money/Rounding.antt says how far off it is.
--   * Ledger (apps/ledger/models.py, choices.py): the records that the rest reads, in Ledger.antt.
--   * Reconciliation (apps/reconciliation): Reconciliation/Database.antt has the tables of
--     models.py, with the audit log of apps/core/audit.py; Reconciliation/Queries.antt the open
--     amounts of queries.py; Reconciliation/Services/Validation.antt and Operations.antt the
--     functions `create_reconciliation` and `reverse_reconciliation` of services.py with all their
--     guards; Reconciliation/Settlements/Drafts.antt and Confirm.antt `create_settlement_batch` and
--     `confirm_settlement_batch` of settlements.py, which calls `create_reconciliation`, with the
--     totals of a batch in Sums.antt; Reconciliation/Reached.antt what a sequence of the four
--     reaches; Reconciliation/Candidates/Windows.antt and Search.antt the searches of candidates.py
--     for runs of payments, or of invoices, that settle one another exactly;
--     Reconciliation/Plan/Loop.antt and Direct.antt the allocation plan of presenters.py, the test
--     `can_confirm` that the page makes of it, and the amounts that are proposed for one invoice.
--   * Updater (updater/types.py, updater/store.py, updater/manager.py): Updater/Types.antt and
--     Versions.antt have the state; Updater/State/Json.antt, Encode.antt and Decode.antt its JSON
--     form, `to_dict` and `from_dict` of types.py, State/Views.antt what the updater answers, and
--     State/Store.antt the private file of store.py that holds the state. Updater/Machine.antt has
--     how a method of the manager runs, and Updater/Manager/ the methods: Tasks.antt the saves and
--     checkpoints, Cleanup.antt the journalled cleanup, Execute.antt the update and its rollback,
--     Phases.antt and Recover.antt what happens after a restart, Checks.antt `check`, `start` and
--     `status`. Updater/Valid/ follows the operations of the manager one after another.
--   * Imports (apps/imports): Imports/Coverage.antt has the periods that say which source material
--     is complete (models.py), their validation, and `coverage_matrix` of history.py. Of
--     services.py, Imports/Rows.antt and Mapping.antt have the rows and how they are mapped to
--     ledger records, Matching.antt and Checks.antt their validation (validation.py,
--     parties/models.py), Tables.antt the tables, Disposition.antt what is made of a row that a
--     formal record may match, Staging/Prepare.antt and Staging/Files.antt `stage_upload`, and
--     Confirm/Insertions.antt, Posting.antt, Snapshots.antt and Operation.antt `confirm_batch`,
--     which writes the invoices and payments that the other parts read.
--   * Reporting (apps/reporting/queries.py, dashboard.py): Reporting/Amounts.antt has what is open
--     at the end of a day, Suppliers.antt and SupplierAccounts.antt the summaries and the ledgers
--     of the suppliers, Open.antt the receivables, the payables and the unmatched funds,
--     Coverage.antt whether the material on the suppliers is complete, Exceptions.antt,
--     Differences.antt and Imported.antt the kinds of exceptions, Items.antt `exception_items`,
--     which lists them all, and Dashboard.antt the figures of a month that dashboard.py puts
--     together from these.
-- The other files under these hold the proofs, named for what they prove, and the tests.
--
-- How the code is read. A database operation takes the tables and returns them or an exception: it
-- runs in `transaction.atomic`, so that a raised exception leaves no write. The calls are serial
-- and row locks are left out; in the imports and in the bootstrap, which say what they do when
-- another session was faster, the tables may change in between (`Surroundings`, `before_save`).
-- Identifiers (UUIDs) are numbers, and the key that `uuid4` draws is an argument `fresh` of the
-- operation; where a theorem needs it to be new, it says so. Decimal amounts and their sums are
-- exact, where `Decimal` rounds to 28 digits. Amounts in the database are whole cents, dates are
-- days and time stamps microseconds since the epoch, in UTC; the local time zone
-- (config/settings/base.py) is eight hours ahead. The text of a message is a constructor of the
-- exception. A method of the update manager takes the saved state and the calls made so far, and
-- returns or raises with both, since what it has saved stays. The platform (updater/platform.py,
-- Docker and the clock) is a parameter that may answer every call in any way that depends on the
-- calls before; it raises nothing but `SafeOperationError`, and the state file can be read and
-- written. The two locks of the manager are left out, since the operations are serial. The state
-- file is what `lstat` says of it and of its directory, with its bytes; at which step of a save the
-- operating system fails is a parameter, and so are the texts that the standard library makes of
-- time stamps, UUIDs and JSON (`Codec`, `JsonText`).
--
-- Bounds. The 20 attempts of `bootstrap_role_user` and the 30 of `_wait_for_startup_health` are
-- counted down, and the search for windows is structural. The loop of `_allocation_plan` runs on
-- fuel, two turns for each record, which are enough: each turn moves past a record or leaves one
-- with nothing.
--
-- Not modelled: the web views and forms, which are glue; the storage of uploads and the parsers of
-- the sheets, which give `stage_upload` any rows; the exports of the reports, which lay out
-- spreadsheets; the HTTP client and server of the updater and its command runner, which are
-- sockets, threads and subprocesses; the commands of updater/platform.py to Docker; the deployment
-- scripts.
pub mod Prelude
pub mod Accounts
pub mod Money
pub mod Ledger
pub mod Reconciliation
pub mod Reporting
pub mod Imports
pub mod Updater
