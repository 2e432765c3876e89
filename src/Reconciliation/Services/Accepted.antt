-- ===== src/Reconciliation/Services/Accepted.antt =====
-- What a call of `create_reconciliation` that returns has checked, and what it has written.
use finance_reconciliation.Prelude.{◌≡◌, sym, ℕ, Dict, [], if◌then◌else◌, true}
use finance_reconciliation.Prelude.Int.{ℤ}
use finance_reconciliation.Accounts.Roles.{is_finance_actor}
use finance_reconciliation.Reconciliation.Result.{
  ok, >>=-eq-ok, >>-eq-ok, guard-eq-ok, ok-injective, transaction_overdrawn, invoice_overdrawn,
  guard, permission_denied,
}
use finance_reconciliation.Reconciliation.Database.{Direction, Mode, Database}
use finance_reconciliation.Reconciliation.Services.Validation.{
  Request, Requested, validate_items, open_amounts, current_invoice_open, current_transaction_open,
  validate_expected, require_settled, check_capacity, validate_allocations,
}
use finance_reconciliation.Reconciliation.Services.Operations.{
  check_arguments, write_reconciliation, create_reconciliation,
}

pub record Accepted (request : Request) (direction : Direction) (db : Database) : Type 0 where
  pub requested : Requested
  pub invoice_open : Dict ℤ
  pub transaction_open : Dict ℤ
  pub items :
      validate_items direction db request.allocations
        (record { by_invoice = []; by_transaction = [] })
      ≡ ok requested
  pub invoices_opened :
      open_amounts (current_invoice_open db) requested.by_invoice ≡ ok invoice_open
  pub transactions_opened :
      open_amounts (current_transaction_open db) requested.by_transaction ≡ ok transaction_open
  pub invoices_as_shown :
      validate_expected request.expected_invoice_open_amounts invoice_open ≡ ok tt
  pub transactions_as_shown :
      validate_expected request.expected_transaction_open_amounts transaction_open ≡ ok tt
  pub settled :
      (if request.allow_partial then ok tt else require_settled requested.by_invoice invoice_open)
      ≡ ok tt
  pub transactions_fit :
      check_capacity transaction_overdrawn requested.by_transaction transaction_open ≡ ok tt
  pub invoices_fit : check_capacity invoice_overdrawn requested.by_invoice invoice_open ≡ ok tt

pub validate_allocations-Accepted :
    (request : Request) (direction : Direction) (db : Database)
    → validate_allocations request direction db ≡ ok tt
    → Accepted request direction db
unfolding validate_allocations
validate_allocations-Accepted request direction db h =
    let (requested, items, h₁) =
      >>=-eq-ok (validate_items direction db request.allocations _) _ h in
    let (invoice_open, invoices_opened, h₂) = >>=-eq-ok (open_amounts _ _) _ h₁ in
    let (transaction_open, transactions_opened, h₃) = >>=-eq-ok (open_amounts _ _) _ h₂ in
    let (invoices_as_shown, h₄) = >>-eq-ok (validate_expected _ _) _ h₃ in
    let (transactions_as_shown, h₅) = >>-eq-ok (validate_expected _ _) _ h₄ in
    let (settled, h₆) = >>-eq-ok (if request.allow_partial then _ else _) _ h₅ in
    let (transactions_fit, invoices_fit) =
      >>-eq-ok (check_capacity transaction_overdrawn _ _) _ h₆ in
    record {
      requested = requested;
      invoice_open = invoice_open;
      transaction_open = transaction_open;
      items = items;
      invoices_opened = invoices_opened;
      transactions_opened = transactions_opened;
      invoices_as_shown = invoices_as_shown;
      transactions_as_shown = transactions_as_shown;
      settled = settled;
      transactions_fit = transactions_fit;
      invoices_fit = invoices_fit;
    }

-- A call that returns has passed the guards, and wrote what `write_reconciliation` writes.
pub record Created (request : Request) (fresh : ℕ) (db db' : Database) : Type 0 where
  pub direction : Direction
  pub mode : Mode
  pub by_finance : is_finance_actor request.actor db.directory ≡ true
  pub arguments : check_arguments request ≡ ok (direction, mode)
  pub accepted : Accepted request direction db
  pub written : db' ≡ write_reconciliation request direction mode fresh db

pub create_reconciliation-Created :
    (request : Request) (fresh : ℕ) (db db' : Database)
    → create_reconciliation request fresh db ≡ ok db'
    → Created request fresh db db'
unfolding create_reconciliation
create_reconciliation-Created request fresh db db' h =
    let (by_finance, h₁) =
      >>-eq-ok (guard (is_finance_actor request.actor db.directory) permission_denied) _ h in
    let (chosen, arguments, h₂) = >>=-eq-ok (check_arguments request) _ h₁ in
    let (checks, h₃) = >>-eq-ok (validate_allocations request chosen.0 db) _ h₂ in
    record {
      direction = chosen.0;
      mode = chosen.1;
      by_finance = guard-eq-ok _ _ by_finance;
      arguments = arguments;
      accepted = validate_allocations-Accepted request chosen.0 db checks;
      written = sym (ok-injective h₃);
    }
