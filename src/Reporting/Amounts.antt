-- ===== src/Reporting/Amounts.antt =====
-- The tables that apps/reporting/queries.py reads, the amounts that were open at the end of a day, and
-- the age of an open item.
use finance_reconciliation.Prelude.{
  ℕ, ◌+◌, ◌-◌, ◌*◌, Bool, true, false, ◌&&◌, Option, none, some, List, ltb, leb, sum_where, ◌==◌,
  if◌then◌else◌, Dict, lookup,
}
use finance_reconciliation.Prelude.Int.{ℤ, pos, sub_ℕ, ltb_ℤ}
use finance_reconciliation.Prelude.Text.{Text}
use finance_reconciliation.Ledger.{Invoice, MoneyTransaction, day_length, local_offset}
use finance_reconciliation.Imports.Coverage.{SourceKind, CoverageStatus}
use finance_reconciliation.Imports.Rows.{BatchStatus}

-- An allocation, joined with its reconciliation and the reversal of that: when it was created, and when
-- it was reversed.
pub record DatedAllocation : Type 0 where
  pub reconciliation : ℕ
  pub invoice : ℕ
  pub transaction : ℕ
  pub amount : ℕ
  pub created_at : ℕ
  pub reversed_at : Option ℕ

-- An invoice with the column that only the reports read.
pub record DatedInvoice : Type 0 where
  pub invoice : Invoice
  pub due_date : Option ℕ

pub record Party : Type 0 where
  pub id : ℕ
  pub name : Text
  pub is_supplier : Bool

-- A row of the audit log with the action `invoice.status_changed`.
pub record StatusChange : Type 0 where
  pub invoice : ℕ
  pub created_at : ℕ

-- A staged row with what is read of its batch; `codes` are the codes of its issues.
pub record StagedEntry : Type 0 where
  pub id : ℕ
  pub batch : ℕ
  pub batch_created_at : ℕ
  pub row_number : ℕ
  pub codes : List Text
  pub is_duplicate : Bool

pub record BatchEntry : Type 0 where
  pub id : ℕ
  pub created_at : ℕ
  pub status : BatchStatus
  pub duplicate_rows : ℕ

-- `DataCoveragePeriod`, its first day by its number.
pub record Period : Type 0 where
  pub id : ℕ
  pub year : ℕ
  pub source_kind : SourceKind
  pub status : CoverageStatus
  pub expected_start : ℕ

pub record Records : Type 0 where
  pub invoices : List DatedInvoice
  pub transactions : List MoneyTransaction
  pub allocations : List DatedAllocation
  pub parties : List Party
  pub status_changes : List StatusChange
  -- the source files by their batch
  pub source_files : Dict ℕ
  -- `masked_identifier` of the accounts
  pub masked : Dict Text
  pub staged_rows : List StagedEntry
  pub batches : List BatchEntry
  pub periods : List Period

-- `_cutoff`: the first instant of the next day, in local time.
unfoldable pub cutoff : ℕ → ℕ
cutoff as_of = (as_of + 1) * day_length - local_offset

abbrev not_before : Option ℕ → ℕ → Bool
not_before none at = true
not_before (some t) at = leb at t

-- `_historically_valid_allocation`
unfoldable pub historically_valid : ℕ → DatedAllocation → Bool
historically_valid at a = ltb a.created_at at && not_before a.reversed_at at

-- The filter of `_with_current_open_amount`.
abbrev pub is_unreversed : DatedAllocation → Bool
is_unreversed a = elim a.reversed_at [ none ↦ true | some t ↦ false ]

abbrev pub allocated_to_invoice : (DatedAllocation → Bool) → List DatedAllocation → ℕ → ℕ
allocated_to_invoice valid allocations k =
    sum_where (λ a. a.invoice == k && valid a) (λ a. a.amount) allocations

abbrev pub allocated_to_payment : (DatedAllocation → Bool) → List DatedAllocation → ℕ → ℕ
allocated_to_payment valid allocations k =
    sum_where (λ a. a.transaction == k && valid a) (λ a. a.amount) allocations

-- A record as a query annotates it: `_with_historical_open_amount`, of so much that was allocated.
pub record Annotated (A : Type 0) : Type 0 where
  pub row : A
  pub allocated_amount : ℕ
  pub open_amount : ℤ

-- `_with_historical_open_amount`, of an invoice
unfoldable pub invoice_with_open : Records → ℕ → DatedInvoice → Annotated DatedInvoice
unfolding historically_valid cutoff
invoice_with_open records as_of i =
    let allocated =
      allocated_to_invoice (historically_valid (cutoff as_of)) records.allocations i.invoice.id in
    record {
      row = i;
      allocated_amount = allocated;
      open_amount = sub_ℕ i.invoice.total_amount allocated;
    }

-- `_with_historical_open_amount`, of a payment
unfoldable pub payment_with_open : Records → ℕ → MoneyTransaction → Annotated MoneyTransaction
unfolding historically_valid cutoff
payment_with_open records as_of m =
    let allocated =
      allocated_to_payment (historically_valid (cutoff as_of)) records.allocations m.id in
    record { row = m; allocated_amount = allocated; open_amount = sub_ℕ m.amount allocated }

-- `_with_current_open_amount`, of an invoice
unfoldable pub current_open_amount : Records → DatedInvoice → ℤ
current_open_amount records i =
    sub_ℕ i.invoice.total_amount
      (allocated_to_invoice is_unreversed records.allocations i.invoice.id)

abbrev pub is_positive : ℤ → Bool
is_positive z = ltb_ℤ (pos 0) z

pub data Aging : Type 0 where
  days_0_30 days_31_60 days_61_90 days_over_90 : Aging

-- `aging_bucket`; `-` on ℕ stops at 0, as `max` does in the source.
unfoldable pub aging_bucket : ℕ → ℕ → Aging
aging_bucket base as_of =
    let days = as_of - base in
    if leb days 30
    then days_0_30
    else if leb days 60
    then days_31_60
    else if leb days 90
    then days_61_90
    else days_over_90

-- `_source_file_id`
abbrev pub source_file_id : Records → ℕ → Option ℕ
source_file_id records batch = lookup batch records.source_files
