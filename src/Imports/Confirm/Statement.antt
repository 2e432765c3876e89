-- ===== src/Imports/Confirm/Statement.antt =====
-- The balances of a bank statement after `confirm_batch` of apps/imports/services.py.
use finance_reconciliation.Prelude.{ℕ, ◌≡◌, sym, true, none, some, List, [], Prefix, Member, subst}
use finance_reconciliation.Accounts.Roles.{Actor}
use finance_reconciliation.Imports.Coverage.{SourceKind, kind_eq}
use finance_reconciliation.Imports.Rows.{ImportBatch, StagedRow}
use finance_reconciliation.Imports.Tables.{ok, ImportResult, Tables, Surroundings}
use finance_reconciliation.Imports.Confirm.Snapshots.{
  Latest, candidate, latest_by_account, create_each, create_balance_snapshots,
}
use finance_reconciliation.Imports.Confirm.Operation.{find_batch, confirm_batch}
use finance_reconciliation.Imports.Confirm.Confirmed.{confirm_batch-Confirmed}
use finance_reconciliation.Imports.Confirm.LatestBalances.{IsLatest, latest_by_account-IsLatest}
use finance_reconciliation.Imports.Confirm.Balances.{HasSnapshot, KeepsSnapshots, create_each-Snaps}

-- If other sessions only add snapshots, then the first confirmation of a batch of bank rows keeps the
-- snapshots there were; and for the account of every posted row with a balance there is a posted row
-- with the latest balance of that account (the one with the least number, where several are of the same
-- instant), whose account and instant have a snapshot with the balance of that row, or the cents that
-- the database keeps of it.
pub confirm_batch-Balances :
    (w : Surroundings) (fresh now k : ℕ) (actor : Actor) (batch : ImportBatch) (db db' : Tables)
    (result : ImportResult) (row : StagedRow) (c : Latest)
    → KeepsSnapshots w
    → find_batch k db ≡ some batch
    → batch.confirmed_at ≡ none
    → kind_eq batch.source_kind SourceKind.bank ≡ true
    → confirm_batch w fresh now k actor db ≡ ok (result, db')
    → Member row db'.rows
    → candidate db.registers batch row ≡ some c
    → Prefix db.snapshots db'.snapshots
      × ((e : Latest) × IsLatest db.registers batch c.account db'.rows e
          × HasSnapshot w e db'.snapshots)
unfolding create_balance_snapshots
confirm_batch-Balances w fresh now k actor batch db db' result row c keeps found open_batch bank h m
      measured =
    let f = confirm_batch-Confirmed w fresh now k actor batch db db' result found open_batch h in
    let entries = latest_by_account db.registers batch f.rows [] in
    let each : create_each w batch entries db.snapshots ≡ ok f.snapshots = rw bank at f.balanced in
    let (kept, snaps) = create_each-Snaps w batch entries db.snapshots f.snapshots keeps each in
    let (e, there, latest) =
      latest_by_account-IsLatest db.registers batch f.rows row c (subst (Member row) f.rows_of m)
        measured in
    (
      subst (Prefix db.snapshots) (sym f.snapshots_of) kept,
      (
        e,
        subst (λ (rows : List StagedRow). IsLatest db.registers batch c.account rows e)
            (sym f.rows_of) latest,
        subst (HasSnapshot w e) (sym f.snapshots_of) (snaps e there),
      ),
    )
