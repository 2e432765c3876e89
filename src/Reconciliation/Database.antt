-- ===== src/Reconciliation/Database.antt =====
-- The tables of apps/reconciliation/models.py with those of the ledger that the services read, and
-- the rows of the audit log that they write. A table is the list of its rows, oldest first.
use finance_reconciliation.Prelude.{ℕ, Bool, not, Option, List, find, any, ◌==◌}
use finance_reconciliation.Prelude.Text.{Text}
use finance_reconciliation.Accounts.Roles.{Directory}
use finance_reconciliation.Ledger.{Invoice, MoneyTransaction}

pub data Direction : Type 0 where
  purchase_payment sales_receipt : Direction

pub data Mode : Type 0 where
  direct batch : Mode

pub data SettlementStatus : Type 0 where
  draft confirmed : SettlementStatus

pub record Reconciliation : Type 0 where
  pub id : ℕ
  pub direction : Direction
  pub mode : Mode
  pub created_by : Option ℕ
  pub settlement_batch : Option ℕ
  pub note : Text

pub record Allocation : Type 0 where
  pub reconciliation : ℕ
  pub invoice : ℕ
  pub transaction : ℕ
  pub amount : ℕ

pub record Reversal : Type 0 where
  pub original : ℕ
  pub reversed_by : Option ℕ
  pub reason : Text

pub record SettlementBatch : Type 0 where
  pub id : ℕ
  pub counterparty : ℕ
  pub direction : Direction
  pub period_start : ℕ
  pub period_end : ℕ
  pub status : SettlementStatus
  pub version : ℕ
  pub created_by : Option ℕ

-- A row that joins a batch and one of its members.
pub record BatchItem : Type 0 where
  pub batch : ℕ
  pub item : ℕ

-- `AuditLog.action` with its `changes`.
pub data Action : Type 0 where
  reconciliation_created : ℕ → Action
  reconciliation_reversed : Text → Action
  settlement_batch_created : ℕ → ℕ → Action

pub record AuditLog : Type 0 where
  pub actor : Option ℕ
  pub action : Action
  pub target_id : ℕ

pub record Database : Type 0 where
  pub directory : Directory
  pub counterparties : List ℕ
  pub invoices : List Invoice
  pub transactions : List MoneyTransaction
  pub reconciliations : List Reconciliation
  pub allocations : List Allocation
  pub reversals : List Reversal
  pub batches : List SettlementBatch
  pub batch_invoices : List BatchItem
  pub batch_transactions : List BatchItem
  pub audit : List AuditLog

abbrev pub find_invoice : ℕ → Database → Option Invoice
find_invoice k db = find (λ i. i.id == k) db.invoices

abbrev pub find_transaction : ℕ → Database → Option MoneyTransaction
find_transaction k db = find (λ m. m.id == k) db.transactions

abbrev pub find_reconciliation : ℕ → Database → Option Reconciliation
find_reconciliation k db = find (λ r. r.id == k) db.reconciliations

-- `reconciliation__reversal__isnull=True`
unfoldable pub is_active : List Reversal → ℕ → Bool
is_active reversals r = not (any (λ v. v.original == r) reversals)
