-- ===== src/Reporting/Tests.antt =====
-- The reports on one bill of a supplier, which is paid in part, and instances of their theorems.
use finance_reconciliation.Prelude.{
  ℕ, ◌*◌, ◌≡◌, refl, true, none, some, [], ◌∷◌, map, arith, sum_where, inl,
}
use finance_reconciliation.Prelude.Int.{pos, sub_ℕ, ◌+ℤ◌, ◌-ℤ◌}
use finance_reconciliation.Prelude.Text.{codes}
use finance_reconciliation.Ledger.{
  MoneyTransaction, input, normal, bank, outflow, day_length, local_date,
}
use finance_reconciliation.Reconciliation.Result.{ok}
use finance_reconciliation.Reconciliation.Database.{Database, is_active}
use finance_reconciliation.Reconciliation.Queries.{invoice_allocated, invoice_open_amount}
use finance_reconciliation.Imports.Coverage.{SourceKind, input_invoice, wechat, full}
use finance_reconciliation.Reporting.Exceptions.{
  ExceptionItem, payable_open, reconciliation_difference, stale_open_item,
}
use finance_reconciliation.Reporting.Items.{exception_items}
use finance_reconciliation.Reporting.Sound.{Sound}
use finance_reconciliation.Reporting.Sound.Listed.{exception_items-Sound}
use finance_reconciliation.Reporting.Imported.{year_of}
use finance_reconciliation.Reporting.Coverage.{complete, coverage_of, supplier_coverage_as_of}
use finance_reconciliation.Reporting.Complete.{has_full, supplier_coverage_as_of-complete}
use finance_reconciliation.Reporting.Amounts.{
  Period, DatedInvoice, Records, cutoff, historically_valid, invoice_with_open, payment_with_open,
  current_open_amount,
}
use finance_reconciliation.Reporting.Suppliers.{
  SupplierSummaryRow, empty_supplier_summary, update_summary, add_invoices, add_payments,
  supplier_summary_rows,
}
use finance_reconciliation.Reporting.SupplierAccounts.{
  TextOrder, supplier_invoice_records, supplier_payment_records, supplier_summaries_as_of,
  supplier_summary_as_of, supplier_summary_totals, supplier_ledger_as_of, is_supplier_invoice,
  is_supplier_payment,
}
use finance_reconciliation.Reporting.Totals.{searched, supplier_summaries_as_of-totals}
use finance_reconciliation.Reporting.Running.{last_balance, supplier_ledger_as_of-balance}
use finance_reconciliation.Reporting.Present.{joined, invoice_with_open-present}

abbrev bill : DatedInvoice
bill = record {
  invoice = record {
    id = 10;
    direction = input;
    invoice_number = codes "INV-1";
    seller_tax_id = codes "S";
    buyer_tax_id = codes "B";
    issue_date = 20000;
    total_amount = 10000;
    status = normal;
    counterparty = 5;
    import_batch = 1;
    source_row = 2;
  };
  due_date = none;
}

abbrev payment : MoneyTransaction
payment = record {
  id = 20;
  account = 7;
  channel = bank;
  direction = outflow;
  occurred_at = 20001 * day_length;
  amount = 6000;
  balance_after = none;
  transaction_id = codes "T";
  fingerprint = codes "F";
  counterparty = some 5;
  import_batch = 1;
  source_row = 3;
}

abbrev paid : Database
paid = record {
  directory = record { users = []; memberships = [] };
  counterparties = 5 ∷ [];
  invoices = bill.invoice ∷ [];
  transactions = payment ∷ [];
  reconciliations = [];
  allocations = record { reconciliation = 100; invoice = 10; transaction = 20; amount = 6000 } ∷ [];
  reversals = [];
  batches = [];
  batch_invoices = [];
  batch_transactions = [];
  audit = [];
}

-- When a reconciliation was created and when it was reversed.
abbrev at_noon : ℕ → ℕ
at_noon r = 20001 * day_length

abbrev pub records : Records
records = record {
  invoices = bill ∷ [];
  transactions = payment ∷ [];
  allocations = map (joined [] at_noon at_noon) paid.allocations;
  parties = record { id = 5; name = codes "mill"; is_supplier = true } ∷ [];
  status_changes = [];
  source_files = [];
  masked = [];
  staged_rows = [];
  batches = [];
  periods = [];
}

abbrev texts : TextOrder
texts = record { text_before = λ a b. true; icontains = λ a b. true }

abbrev summary : SupplierSummaryRow
summary = record {
  counterparty_id = 5;
  counterparty_name = codes "mill";
  invoiced_amount = 10000;
  paid_amount = 6000;
  balance = pos 4000;
  invoice_open_amount = pos 4000;
  payment_open_amount = pos 0;
  latest_activity_on = some 20001;
}

supplier_summary_as_of-mill : supplier_summary_as_of texts records 20001 5 ≡ some summary
unfolding supplier_summary_as_of supplier_summary_rows add_invoices add_payments update_summary
    empty_supplier_summary supplier_invoice_records supplier_payment_records invoice_with_open
    payment_with_open historically_valid cutoff local_date is_active ◌+ℤ◌ ◌-ℤ◌
supplier_summary_as_of-mill = refl

supplier_ledger_as_of-balance_example :
    last_balance (pos 0) (supplier_ledger_as_of texts records 20001 5) ≡ pos 4000
supplier_ledger_as_of-balance_example =
    supplier_ledger_as_of-balance texts records 20001 5 summary supplier_summary_as_of-mill

supplier_summaries_as_of-totals_example :
    let totals = supplier_summary_totals (supplier_summaries_as_of texts records 20001 []) in
    (totals.invoiced_amount
      ≡ sum_where
          (is_supplier_invoice texts records 20001 (searched []))
          (λ i. i.invoice.total_amount)
          records.invoices)
    × (totals.paid_amount
        ≡ sum_where
            (is_supplier_payment texts records 20001 (searched []))
            (λ m. m.amount)
            records.transactions)
    × (totals.balance ≡ sub_ℕ totals.invoiced_amount totals.paid_amount)
supplier_summaries_as_of-totals_example = supplier_summaries_as_of-totals texts records 20001 []

open-paid : invoice_open_amount 10 paid ≡ ok (pos 4000)
unfolding invoice_open_amount invoice_allocated is_active
open-paid = refl

invoice_with_open-present_example :
    ((invoice_with_open records 20001 bill).open_amount ≡ pos 4000)
    × (current_open_amount records bill ≡ pos 4000)
unfolding cutoff
invoice_with_open-present_example =
    invoice_with_open-present paid at_noon at_noon records 20001 10 bill (pos 4000) refl
      (λ r. omega arith) (λ r. omega arith) refl open-paid

-- By the end of April what is left of the bill is stale.
exception_items-mill :
    map (λ (t : ExceptionItem). t.kind) (exception_items records 20200)
    ≡ payable_open ∷ reconciliation_difference ∷ stale_open_item ∷ []
unfolding exception_items is_active ◌-ℤ◌ ◌+ℤ◌
exception_items-mill = refl

exception_items-Sound_example : Sound 20200 (exception_items records 20200)
exception_items-Sound_example = exception_items-Sound records 20200

abbrev whole_year : ℕ → SourceKind → Period
whole_year k kind = record {
  id = k;
  year = 2024;
  source_kind = kind;
  status = full;
  expected_start = 19723;
}

abbrev covered : Records
covered = record records {
  periods =
      whole_year 1 wechat
      ∷ whole_year 2 input_invoice
      ∷ whole_year 3 finance_reconciliation.Imports.Coverage.bank
      ∷ [];
}

supplier_coverage_as_of-covered :
    supplier_coverage_as_of covered 20001
    ≡ complete (
        whole_year 3 finance_reconciliation.Imports.Coverage.bank
        ∷ whole_year 2 input_invoice
        ∷ whole_year 1 wechat
        ∷ [])
unfolding supplier_coverage_as_of coverage_of
supplier_coverage_as_of-covered = refl

supplier_coverage_as_of-complete_example :
    has_full covered.periods 2024 finance_reconciliation.Imports.Coverage.bank ≡ true
unfolding year_of
supplier_coverage_as_of-complete_example =
    supplier_coverage_as_of-complete covered 20001 _ (whole_year 1 wechat) 2024
      finance_reconciliation.Imports.Coverage.bank supplier_coverage_as_of-covered (inl refl) refl
      (omega arith) (omega arith) refl
