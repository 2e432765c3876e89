-- ===== src/Reporting/Exceptions.antt =====
-- The kinds of exceptions in apps/reporting/queries.py, and those of open invoices, of open payments and
-- of what has been open for long. The text of `detail` is a constructor.
use finance_reconciliation.Prelude.{
  ℕ, ◌+◌, Bool, true, false, ◌&&◌, Option, none, some, List, [], ◌∷◌, ◌++◌, map, select, is_some,
  leb, ◌==◌, if◌then◌else◌,
}
use finance_reconciliation.Prelude.Int.{ℤ}
use finance_reconciliation.Prelude.Text.{Text}
use finance_reconciliation.Imports.Coverage.{SourceKind, CoverageStatus}
use finance_reconciliation.Ledger.{
  MoneyTransaction, MoneyDirection, inflow, outflow, InvoiceStatus, local_date,
}
use finance_reconciliation.Reporting.Amounts.{DatedInvoice, Records, Annotated, Aging}
use finance_reconciliation.Reporting.Suppliers.{party, name_of}
use finance_reconciliation.Reporting.Open.{
  OpenInvoiceRow, base_date, unknown_party, counterparty_of, receivables_as_of, payables_as_of,
}

pub data ExceptionType : Type 0 where
  receivable_open payable_open inflow_unmatched outflow_unmatched counterparty_unknown :
      ExceptionType
  reconciliation_difference duplicate_import red_with_active_allocation stale_open_item :
      ExceptionType
  history_incomplete : ExceptionType

pub data Detail : Type 0 where
  -- "账龄 …"
  aged : Aging → Detail
  unmatched_money unmapped_counterparty : Detail
  -- of a batch, and a row of it
  unmapped_row duplicate_row : ℕ → ℕ → Detail
  unbalanced_reconciliation : Detail
  -- of a batch, and how many rows
  duplicate_rows : ℕ → ℕ → Detail
  still_allocated : InvoiceStatus → Detail
  stale_invoice stale_money : Detail
  period_incomplete : ℕ → SourceKind → CoverageStatus → Detail
  batch_incomplete : ℕ → Detail

-- Some items have no single counterparty: "多笔往来", "导入资料", "历史资料".
pub data Counterpart : Type 0 where
  party_name : Text → Counterpart
  several_parties imported_material past_material : Counterpart

pub record ExceptionItem : Type 0 where
  pub kind : ExceptionType
  pub reference_id : ℕ
  pub occurred_on : Option ℕ
  pub counterparty_name : Counterpart
  pub amount : Option ℤ
  pub detail : Detail

abbrev pub is_open_kind : ExceptionType → Bool
is_open_kind receivable_open = true
is_open_kind payable_open = true
is_open_kind inflow_unmatched = false
is_open_kind outflow_unmatched = false
is_open_kind counterparty_unknown = false
is_open_kind reconciliation_difference = false
is_open_kind duplicate_import = false
is_open_kind red_with_active_allocation = false
is_open_kind stale_open_item = false
is_open_kind history_incomplete = false

abbrev pub unmatched_kind : MoneyDirection → ExceptionType
unmatched_kind inflow = inflow_unmatched
unmatched_kind outflow = outflow_unmatched

-- `open_invoice_ids`, looked up: of two items on one invoice the later one is kept.
abbrev pub item_of : ℕ → List ExceptionItem → Option ExceptionItem
item_of k [] = none
item_of k (t ∷ items) =
    let rest = item_of k items in
    if is_some rest
    then rest
    else if is_open_kind t.kind && t.reference_id == k
    then some t
    else none

-- `(as_of - day).days >= 91`
abbrev pub is_stale : ℕ → ℕ → Bool
is_stale as_of day = leb (day + 91) as_of

module _ (records : Records) (as_of : ℕ) where
  abbrev pub open_item : ExceptionType → OpenInvoiceRow → ExceptionItem
  open_item kind row = record {
    kind = kind;
    reference_id = row.invoice_id;
    occurred_on = some row.issue_date;
    counterparty_name = party_name row.counterparty_name;
    amount = some row.open_amount;
    detail = aged row.aging;
  }

  -- `_open_invoice_exceptions`
  unfoldable pub open_invoice_exceptions : List ExceptionItem
  unfolding receivables_as_of payables_as_of
  open_invoice_exceptions =
      map (open_item receivable_open) (receivables_as_of records as_of)
      ++ map (open_item payable_open) (payables_as_of records as_of)

  abbrev pub money_item : Annotated MoneyTransaction → ExceptionItem
  money_item m = record {
    kind = unmatched_kind m.row.direction;
    reference_id = m.row.id;
    occurred_on = some (local_date m.row.occurred_at);
    counterparty_name = party_name (counterparty_of records as_of m.row.counterparty);
    amount = some m.open_amount;
    detail = unmatched_money;
  }

  abbrev pub unmapped_items : Option ℕ → Annotated MoneyTransaction → List ExceptionItem
  unmapped_items (some k) m = []
  unmapped_items none m =
      record {
        kind = counterparty_unknown;
        reference_id = m.row.id;
        occurred_on = some (local_date m.row.occurred_at);
        counterparty_name = party_name unknown_party;
        amount = some m.open_amount;
        detail = unmapped_counterparty;
      }
      ∷ []

  -- `_money_exceptions` of the open payments, which it returns with the items.
  unfoldable pub money_exceptions : List (Annotated MoneyTransaction) → List ExceptionItem
  money_exceptions [] = []
  money_exceptions (m ∷ payments) =
      money_item m ∷ unmapped_items m.row.counterparty m ++ money_exceptions payments

  abbrev pub stale_invoice_items : DatedInvoice → Option ExceptionItem → List ExceptionItem
  stale_invoice_items i none = []
  stale_invoice_items i (some found) =
      if is_stale as_of (base_date i)
      then record {
        kind = stale_open_item;
        reference_id = i.invoice.id;
        occurred_on = some (base_date i);
        counterparty_name = party_name (name_of (party records i.invoice.counterparty));
        amount = found.amount;
        detail = stale_invoice;
      }
        ∷ []
      else []

  -- The first loop of `_stale_exceptions`, over the invoices that have an item.
  unfoldable pub stale_invoices : List ExceptionItem → List DatedInvoice → List ExceptionItem
  stale_invoices items [] = []
  stale_invoices items (i ∷ invoices) =
      stale_invoice_items i (item_of i.invoice.id items) ++ stale_invoices items invoices

  abbrev pub stale_money_item : Annotated MoneyTransaction → ExceptionItem
  stale_money_item m = record {
    kind = stale_open_item;
    reference_id = m.row.id;
    occurred_on = some (local_date m.row.occurred_at);
    counterparty_name = party_name (counterparty_of records as_of m.row.counterparty);
    amount = some m.open_amount;
    detail = stale_money;
  }

  -- `_stale_exceptions`
  unfoldable pub stale_exceptions :
      List ExceptionItem → List (Annotated MoneyTransaction) → List ExceptionItem
  unfolding stale_invoices
  stale_exceptions items payments =
      stale_invoices items records.invoices
      ++ map stale_money_item (select (λ m. is_stale as_of (local_date m.row.occurred_at)) payments)
