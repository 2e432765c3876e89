-- ===== src/Reconciliation/Candidates/Tests.antt =====
-- Concrete searches, and instances of the theorems on them.
use finance_reconciliation.Prelude.{ℕ, ◌*◌, ◌≡◌, refl, List, [], ◌∷◌, All}
use finance_reconciliation.Prelude.Int.{pos}
use finance_reconciliation.Ledger.{Invoice, MoneyTransaction, local_date}
use finance_reconciliation.Reconciliation.Result.{ok}
use finance_reconciliation.Reconciliation.Database.{Database}
use finance_reconciliation.Reconciliation.Queries.{
  invoice_allocated, transaction_allocated, invoice_open_amount, transaction_open_amount,
}
use finance_reconciliation.Reconciliation.Candidates.Windows.{visit, contiguous_windows}
use finance_reconciliation.Reconciliation.Candidates.Search.{
  invoice_query, multi_candidate, invoices_for, invoice_candidates, contiguous_exact, Candidate,
  Available, insert, order_by, available, available_transactions_for_invoice, exact_candidate,
  candidates_for, transaction_candidates,
}
use finance_reconciliation.Reconciliation.Candidates.Exact.{Among, window}
use finance_reconciliation.Reconciliation.Candidates.Offered.{
  IsBalanced, transaction_candidates-offers,
}
use finance_reconciliation.Reconciliation.Candidates.Invoices.{IsExact, invoice_candidates-offers}
use finance_reconciliation.Reconciliation.Tests.{bill, payment, start, day}

-- Three payments, entered out of order; the last two settle the invoice of 100.00.
abbrev paid : ℕ → ℕ → ℕ → MoneyTransaction
paid k on amount = record payment { id = k; occurred_at = on * day; amount = amount }

abbrev three : Database
three = record start {
  transactions = paid 23 20003 6000 ∷ paid 21 20001 5000 ∷ paid 22 20002 4000 ∷ [];
}

abbrev open_of : MoneyTransaction → Available MoneyTransaction
open_of m = record { item = m; open_amount = m.amount }

available-three :
    available_transactions_for_invoice bill 20000 20010 three
    ≡ ok (
        open_of (paid 21 20001 5000)
        ∷ open_of (paid 22 20002 4000)
        ∷ open_of (paid 23 20003 6000)
        ∷ [])
unfolding available_transactions_for_invoice available order_by insert local_date
    transaction_open_amount transaction_allocated
available-three = refl

abbrev found : List Candidate
found =
    record {
      kind = contiguous_exact;
      transaction_ids = 22 ∷ 23 ∷ [];
      invoice_ids = 10 ∷ [];
      total = 10000;
      difference = 0;
      start_at = 20002 * day;
      end_at = 20003 * day;
    }
    ∷ []

open-bill : invoice_open_amount 10 three ≡ ok (pos 10000)
unfolding invoice_open_amount invoice_allocated
open-bill = refl

transaction_candidates-three : transaction_candidates 10 20000 20010 three ≡ ok found
unfolding available-three open-bill transaction_candidates candidates_for contiguous_windows visit
transaction_candidates-three = refl

transaction_candidates-offers_example :
    Among
      (exact_candidate 10 (
        window
          (λ a. a.open_amount)
          10000
          (open_of (paid 22 20002 4000))
          (open_of (paid 23 20003 6000) ∷ [])))
      found
    × All (IsBalanced 10000) found
transaction_candidates-offers_example =
    transaction_candidates-offers 10 9999 20000 20010 three bill found
      (open_of (paid 21 20001 5000) ∷ []) (open_of (paid 22 20002 4000))
      (open_of (paid 23 20003 6000) ∷ []) [] refl open-bill transaction_candidates-three
      available-three refl

-- Two invoices that one payment of 100.00 settles.
abbrev billed : ℕ → ℕ → ℕ → Invoice
billed k on amount = record bill { id = k; issue_date = on; total_amount = amount }

abbrev two_bills : Database
two_bills = record start { invoices = billed 31 20002 7500 ∷ billed 30 20001 2500 ∷ [] }

abbrev bill_of : Invoice → Available Invoice
bill_of i = record { item = i; open_amount = i.total_amount }

available-two_bills :
    available
      (λ i. invoice_open_amount i.id two_bills)
      (invoice_query payment 20000 20010 two_bills)
    ≡ ok (bill_of (billed 30 20001 2500) ∷ bill_of (billed 31 20002 7500) ∷ [])
unfolding available-three open-bill
available-two_bills = refl

abbrev both : List Candidate
both =
    multi_candidate 20 (
      window (λ a. a.open_amount) 10000 (bill_of (billed 30 20001 2500))
        (bill_of (billed 31 20002 7500) ∷ []))
    ∷ []

open-payment : transaction_open_amount 20 two_bills ≡ ok (pos 10000)
unfolding available-three
open-payment = refl

invoice_candidates-two_bills : invoice_candidates 20 20000 20010 two_bills ≡ ok both
unfolding transaction_candidates-three invoice_candidates invoices_for
invoice_candidates-two_bills = refl

invoice_candidates-offers_example :
    Among
      (multi_candidate 20 (
        window
          (λ a. a.open_amount)
          10000
          (bill_of (billed 30 20001 2500))
          (bill_of (billed 31 20002 7500) ∷ [])))
      both
    × All (IsExact 10000) both
invoice_candidates-offers_example =
    invoice_candidates-offers 20 9999 20000 20010 5 two_bills payment both []
      (bill_of (billed 30 20001 2500)) (bill_of (billed 31 20002 7500) ∷ []) [] refl refl
      open-payment invoice_candidates-two_bills available-two_bills refl
