-- ===== src/Reconciliation/Tests.antt =====
-- Concrete runs of the reconciliation services, and instances of their theorems.
use finance_reconciliation.Prelude.{ℕ, ◌+◌, ◌*◌, ◌≡◌, refl, true, false, none, some, [], ◌∷◌, arith}
use finance_reconciliation.Prelude.Int.{pos}
use finance_reconciliation.Prelude.Text.{codes, strip}
use finance_reconciliation.Money.Amount.{Amount, decimal, units_per_cent, round_cents}
use finance_reconciliation.Accounts.Roles.{
  finance, business, Actor, user_has_role, is_finance_actor,
}
use finance_reconciliation.Ledger.{Invoice, MoneyTransaction, input, normal, bank, outflow}
use finance_reconciliation.Reconciliation.Result.{
  Result, ok, err, transaction_overdrawn, already_reversed,
}
use finance_reconciliation.Reconciliation.Database.{purchase_payment, direct, Database, is_active}
use finance_reconciliation.Reconciliation.Queries.{
  invoice_allocated, transaction_allocated, invoice_open_amount, transaction_open_amount,
}
use finance_reconciliation.Reconciliation.Services.Validation.{
  Request, checked_cents, validate_pair, validate_item, validate_items, current_invoice_open,
  current_transaction_open, open_amounts, validate_expected, require_settled, check_capacity,
  validate_allocations,
}
use finance_reconciliation.Reconciliation.Services.Operations.{
  check_arguments, create_reconciliation, reverse_reconciliation, write_reconciliation,
  write_reversal,
}
use finance_reconciliation.Reconciliation.Services.Balance.{
  IsConsistent, create_reconciliation-IsConsistent,
}
use finance_reconciliation.Reconciliation.Services.Reverse.{
  share_of, reverse_reconciliation-gives_back,
}
use finance_reconciliation.Reconciliation.Services.RoundTrip.{reverse_reconciliation-once}
use finance_reconciliation.Reconciliation.Services.Undo.{create_then_reverse}

abbrev pub clerk : Actor
clerk = record { is_user = true; pk = some 1; adding = false }

abbrev pub day : ℕ
day = 86400000000

abbrev pub bill : Invoice
bill = record {
  id = 10;
  direction = input;
  invoice_number = codes "INV-1";
  seller_tax_id = codes "S";
  buyer_tax_id = codes "B";
  issue_date = 20000;
  total_amount = 10000;
  status = normal;
  counterparty = 5;
  import_batch = 1;
  source_row = 2;
}

abbrev pub payment : MoneyTransaction
payment = record {
  id = 20;
  account = 7;
  channel = bank;
  direction = outflow;
  occurred_at = 20001 * day;
  amount = 10000;
  balance_after = none;
  transaction_id = codes "T";
  fingerprint = codes "F";
  counterparty = some 5;
  import_batch = 1;
  source_row = 3;
}

abbrev pub start : Database
start = record {
  directory = record { users = 1 ∷ []; memberships = (1, business finance) ∷ [] };
  counterparties = 5 ∷ [];
  invoices = bill ∷ [];
  transactions = payment ∷ [];
  reconciliations = [];
  allocations = [];
  reversals = [];
  batches = [];
  batch_invoices = [];
  batch_transactions = [];
  audit = [];
}

-- An amount of whole cents.
abbrev pub cents : ℕ → Amount
cents c = decimal (pos (c * units_per_cent))

abbrev pay : ℕ → Request
pay c = record {
  actor = clerk;
  direction = some purchase_payment;
  allocations = record { invoice_id = 10; transaction_id = 20; amount = cents c } ∷ [];
  note = [];
  mode = some direct;
  settlement_batch = none;
  expected_invoice_open_amounts = none;
  expected_transaction_open_amounts = none;
  allow_partial = true;
}

abbrev paid : Database
paid = write_reconciliation (pay 6000) purchase_payment direct 100 start

-- The service with all that it calls open, for the runs below.
unfoldable pub run_create : Request → ℕ → Database → Result Database
unfolding create_reconciliation write_reconciliation is_finance_actor user_has_role check_arguments
    validate_allocations validate_items validate_item checked_cents round_cents validate_pair
    open_amounts current_invoice_open current_transaction_open validate_expected require_settled
    check_capacity transaction_allocated invoice_allocated is_active
run_create = create_reconciliation

create-paid : create_reconciliation (pay 6000) 100 start ≡ ok paid
unfolding run_create
create-paid = refl

-- Of the 40.00 that are left, no 50.00 can be paid.
create-overdrawn : create_reconciliation (pay 5000) 101 paid ≡ err transaction_overdrawn
unfolding run_create
create-overdrawn = refl

start-IsConsistent : IsConsistent start
unfolding invoice_allocated transaction_allocated is_active
start-IsConsistent = record {
  invoices_fit = λ k i h. omega arith;
  transactions_fit = λ k m h. omega arith;
  reversals_known = λ r h. refl;
  allocations_known = λ r h. refl;
}

create_reconciliation-IsConsistent_example : IsConsistent paid
create_reconciliation-IsConsistent_example =
    create_reconciliation-IsConsistent (pay 6000) 100 start paid start-IsConsistent refl create-paid

reverse-paid :
    reverse_reconciliation clerk 100 (some (codes "no")) paid
    ≡ ok (write_reversal clerk 100 (some (codes "no")) paid)
unfolding reverse_reconciliation run_create strip
reverse-paid = refl

reverse_reconciliation-once_example :
    reverse_reconciliation clerk 100
      (some (codes "again"))
      (write_reversal clerk 100 (some (codes "no")) paid)
    ≡ err already_reversed
unfolding strip run_create
reverse_reconciliation-once_example =
    reverse_reconciliation-once clerk clerk 100 (some (codes "no")) (some (codes "again")) paid
      (write_reversal clerk 100 (some (codes "no")) paid) reverse-paid refl refl

reverse_reconciliation-gives_back_example :
    let after = write_reversal clerk 100 (some (codes "no")) paid in
    (invoice_allocated 10 after + share_of (λ a. a.invoice) 10 100 paid.allocations
      ≡ invoice_allocated 10 paid)
    × (transaction_allocated 10 after + share_of (λ a. a.transaction) 10 100 paid.allocations
        ≡ transaction_allocated 10 paid)
reverse_reconciliation-gives_back_example =
    reverse_reconciliation-gives_back clerk 100 (some (codes "no")) paid
      (write_reversal clerk 100 (some (codes "no")) paid) reverse-paid 10

create_then_reverse_example :
    (db₂ : Database) × (reverse_reconciliation clerk 100 (some (codes "no")) paid ≡ ok db₂)
    × ((k : ℕ)
        → (invoice_open_amount k db₂ ≡ invoice_open_amount k start)
          × (transaction_open_amount k db₂ ≡ transaction_open_amount k start))
unfolding strip run_create
create_then_reverse_example =
    create_then_reverse (pay 6000) clerk 100 (some (codes "no")) start paid start-IsConsistent refl
      create-paid refl refl
