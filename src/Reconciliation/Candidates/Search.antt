-- ===== src/Reconciliation/Candidates/Search.antt =====
-- `transaction_candidates` and `invoice_candidates`.
use finance_reconciliation.Prelude.{
  ℕ, suc, zero, ◌+◌, ◌-◌, ◌*◌, min, ◌&&◌, ◌||◌, Option, none, some, List, [], ◌∷◌, map, ltb, leb,
  select, ◌==◌, if◌then◌else◌,
}
use finance_reconciliation.Prelude.Int.{ℤ, pos, negsuc}
use finance_reconciliation.Ledger.{
  InvoiceDirection, input, output, MoneyDirection, inflow, outflow, Invoice, MoneyTransaction,
  invoice_direction_eq, money_direction_eq, is_normal, local_date, day_length,
}
use finance_reconciliation.Reconciliation.Result.{
  Result, ok, raise_if, or_raise, ◌>>=◌, ◌>>◌, does_not_exist, bad_date_window,
}
use finance_reconciliation.Reconciliation.Database.{Database, find_invoice, find_transaction}
use finance_reconciliation.Reconciliation.Queries.{invoice_open_amount, transaction_open_amount}
use finance_reconciliation.Reconciliation.Services.Validation.{same_counterparty}
use finance_reconciliation.Reconciliation.Settlements.Drafts.{within}
use finance_reconciliation.Reconciliation.Candidates.Windows.{open_sum, Window, contiguous_windows}

-- `Candidate.kind`
pub data Kind : Type 0 where
  contiguous_exact partial multi_invoice_exact : Kind

pub record Candidate : Type 0 where
  pub kind : Kind
  pub transaction_ids : List ℕ
  pub invoice_ids : List ℕ
  pub total : ℕ
  pub difference : ℕ
  pub start_at : ℕ
  pub end_at : ℕ

-- A record with what is open of it: `AvailableTransaction`, and the pairs of `invoice_candidates`.
pub record Available (A : Type 0) : Type 0 where
  pub item : A
  pub open_amount : ℕ

-- `order_by` of a moment and the key.
unfoldable pub insert : {A : Type 0} → (A → ℕ × ℕ) → A → List A → List A
insert key a [] = a ∷ []
insert key a (x ∷ xs) =
    let further = x ∷ insert key a xs in
    if ltb (key a).0 (key x).0 || (key a).0 == (key x).0 && leb (key a).1 (key x).1
    then a ∷ x ∷ xs
    else further

unfoldable pub order_by : {A : Type 0} → (A → ℕ × ℕ) → List A → List A
order_by key [] = []
order_by key (x ∷ xs) = insert key x (order_by key xs)

-- Keeps a record with an open amount above zero.
abbrev pub keep : {A : Type 0} → A → ℤ → List (Available A) → List (Available A)
keep a (pos zero) rest = rest
keep a (pos (suc n)) rest = record { item = a; open_amount = suc n } ∷ rest
keep a (negsuc n) rest = rest

-- The loop over the rows of a query that keeps those with something open.
unfoldable pub available : {A : Type 0} → (A → Result ℤ) → List A → Result (List (Available A))
available open_amount [] = ok []
available open_amount (a ∷ rows) = do
  amount ← open_amount a
  rest ← available open_amount rows
  ok (keep a amount rest)

abbrev pub paid_by : InvoiceDirection → MoneyDirection
paid_by input = outflow
paid_by output = inflow

abbrev pub settled_by : MoneyDirection → InvoiceDirection
settled_by outflow = input
settled_by inflow = output

-- The query of `available_transactions_for_invoice`.
abbrev pub transaction_query : Invoice → ℕ → ℕ → Database → List MoneyTransaction
transaction_query invoice first last db =
    order_by (λ m. (m.occurred_at, m.id))
      (select
        (λ m.
          same_counterparty invoice.counterparty m.counterparty
          && money_direction_eq m.direction (paid_by invoice.direction)
          && within first last (local_date m.occurred_at))
        db.transactions)

-- `available_transactions_for_invoice`
unfoldable pub available_transactions_for_invoice :
    Invoice → ℕ → ℕ → Database → Result (List (Available MoneyTransaction))
available_transactions_for_invoice invoice first last db =
    available (λ m. transaction_open_amount m.id db) (transaction_query invoice first last db)

abbrev pub last_of : {A : Type 0} → A → List A → A
last_of a [] = a
last_of a (x ∷ xs) = last_of x xs

abbrev pub exact_candidate : ℕ → Window (Available MoneyTransaction) → Candidate
exact_candidate invoice_id w = record {
  kind = contiguous_exact;
  transaction_ids = map (λ a. a.item.id) (w.first ∷ w.rest);
  invoice_ids = invoice_id ∷ [];
  total = w.total;
  difference = 0;
  start_at = w.first.item.occurred_at;
  end_at = (last_of w.first w.rest).item.occurred_at;
}

abbrev pub total_open : {A : Type 0} → List (Available A) → ℕ
total_open items = open_sum (λ a. a.open_amount) items

-- `max(target - available_total, 0)` is the difference of natural numbers.
abbrev pub partial_candidate :
    ℕ → ℕ → Available MoneyTransaction → List (Available MoneyTransaction) → Candidate
partial_candidate invoice_id target a rest = record {
  kind = partial;
  transaction_ids = map (λ a. a.item.id) (a ∷ rest);
  invoice_ids = invoice_id ∷ [];
  total = min target (total_open (a ∷ rest));
  difference = target - total_open (a ∷ rest);
  start_at = a.item.occurred_at;
  end_at = (last_of a rest).item.occurred_at;
}

-- What is returned where there is no exact candidate.
abbrev pub or_partial : ℕ → ℕ → List (Available MoneyTransaction) → List Candidate → List Candidate
or_partial invoice_id target items (c ∷ exact) = c ∷ exact
or_partial invoice_id target [] [] = []
or_partial invoice_id target (a ∷ rest) [] = partial_candidate invoice_id target a rest ∷ []

unfoldable pub candidates_for : Invoice → ℤ → ℕ → ℕ → Database → Result (List Candidate)
candidates_for invoice (negsuc n) first last db = ok []
candidates_for invoice (pos zero) first last db = ok []
candidates_for invoice (pos (suc n)) first last db = do
  items ← available_transactions_for_invoice invoice first last db
  ok (
      or_partial invoice.id (suc n) items
        (map (exact_candidate invoice.id) (contiguous_windows (λ a. a.open_amount) (suc n) items)))

-- `transaction_candidates`
unfoldable pub transaction_candidates : ℕ → ℕ → ℕ → Database → Result (List Candidate)
transaction_candidates invoice_id first last db = do
  raise_if (ltb last first) bad_date_window
  invoice ← or_raise (find_invoice invoice_id db) does_not_exist
  target ← invoice_open_amount invoice.id db
  candidates_for invoice target first last db

-- The query of `invoice_candidates`.
abbrev pub invoice_query : MoneyTransaction → ℕ → ℕ → Database → List Invoice
invoice_query money first last db =
    order_by (λ i. (i.issue_date, i.id))
      (select
        (λ i.
          same_counterparty i.counterparty money.counterparty
          && invoice_direction_eq i.direction (settled_by money.direction)
          && within first last i.issue_date
          && is_normal i.status)
        db.invoices)

-- `datetime.combine` with the first and with the last microsecond of a day.
abbrev pub multi_candidate : ℕ → Window (Available Invoice) → Candidate
multi_candidate transaction_id w = record {
  kind = multi_invoice_exact;
  transaction_ids = transaction_id ∷ [];
  invoice_ids = map (λ a. a.item.id) (w.first ∷ w.rest);
  total = w.total;
  difference = 0;
  start_at = w.first.item.issue_date * day_length;
  end_at = (last_of w.first w.rest).item.issue_date * day_length + (day_length - 1);
}

unfoldable pub invoices_for : MoneyTransaction → ℤ → ℕ → ℕ → Database → Result (List Candidate)
invoices_for money (negsuc n) first last db = ok []
invoices_for money (pos zero) first last db = ok []
invoices_for money (pos (suc n)) first last db = do
  items ← available (λ i. invoice_open_amount i.id db) (invoice_query money first last db)
  ok (map (multi_candidate money.id) (contiguous_windows (λ a. a.open_amount) (suc n) items))

abbrev pub unless_unknown : Option ℕ → Result (List Candidate) → Result (List Candidate)
unless_unknown none rest = ok []
unless_unknown (some counterparty) rest = rest

-- `invoice_candidates`
unfoldable pub invoice_candidates : ℕ → ℕ → ℕ → Database → Result (List Candidate)
invoice_candidates transaction_id first last db = do
  raise_if (ltb last first) bad_date_window
  money ← or_raise (find_transaction transaction_id db) does_not_exist
  target ← transaction_open_amount money.id db
  unless_unknown money.counterparty (invoices_for money target first last db)
