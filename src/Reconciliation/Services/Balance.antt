-- ===== src/Reconciliation/Services/Balance.antt =====
-- No invoice and no payment is ever allocated beyond its amount: the invariant of the tables, and
-- that creating a reconciliation keeps it.
use finance_reconciliation.Prelude.{
  ℕ, ◌+◌, ◌≤◌, ◌≡◌, refl, true, false, none, some, List, [], ◌∷◌, ◌++◌, arith, any, find,
  sum_where-append, ◌==◌, map,
}
use finance_reconciliation.Ledger.{Invoice, MoneyTransaction}
use finance_reconciliation.Reconciliation.Result.{ok, invoice_overdrawn, transaction_overdrawn}
use finance_reconciliation.Reconciliation.Database.{
  Direction, Mode, Allocation, Reconciliation, Database, find_invoice, find_transaction,
  find_reconciliation, is_active,
}
use finance_reconciliation.Reconciliation.Queries.{
  invoice_allocated, transaction_allocated, counts_for_invoice, counts_for_transaction,
}
use finance_reconciliation.Reconciliation.Services.Validation.{Request, AllocationInput}
use finance_reconciliation.Reconciliation.Services.Operations.{
  allocation_row, write_reconciliation, create_reconciliation,
}
use finance_reconciliation.Reconciliation.Services.Totals.{
  asked_of_invoice, asked_of_transaction, validate_items-by_invoice, validate_items-by_transaction,
  sum_where-allocation_row_invoice, sum_where-allocation_row_transaction,
}
use finance_reconciliation.Reconciliation.Services.Capacity.{fits_invoice, fits_transaction}
use finance_reconciliation.Reconciliation.Services.Accepted.{
  Accepted, create_reconciliation-Created,
}

-- Every amount fits, and every reversal and every allocation refers to a reconciliation that exists.
pub record IsConsistent (db : Database) : Type 0 where
  pub invoices_fit :
      (k : ℕ) (i : Invoice) → find_invoice k db ≡ some i → invoice_allocated k db ≤ i.total_amount
  pub transactions_fit :
      (k : ℕ) (m : MoneyTransaction)
      → find_transaction k db ≡ some m
      → transaction_allocated k db ≤ m.amount
  pub reversals_known : (r : ℕ) → find_reconciliation r db ≡ none → is_active db.reversals r ≡ true
  pub allocations_known :
      (r : ℕ)
      → find_reconciliation r db ≡ none
      → any (λ a. a.reconciliation == r) db.allocations ≡ false

module _ (request : Request) (direction : Direction) (mode : Mode) (fresh : ℕ) (db : Database) where
  -- A new reconciliation adds to an invoice what its items ask.
  pub invoice_allocated-write :
      (k : ℕ)
      → is_active db.reversals fresh ≡ true
      → invoice_allocated k (write_reconciliation request direction mode fresh db)
        ≡ invoice_allocated k db + asked_of_invoice k request.allocations
  unfolding invoice_allocated write_reconciliation
  invoice_allocated-write k active = omega (
    arith,
    sum_where-append (counts_for_invoice db k) (λ (a : Allocation). a.amount) db.allocations
        (map (allocation_row fresh) request.allocations),
    sum_where-allocation_row_invoice db.reversals fresh k request.allocations active,
  )

  pub transaction_allocated-write :
      (k : ℕ)
      → is_active db.reversals fresh ≡ true
      → transaction_allocated k (write_reconciliation request direction mode fresh db)
        ≡ transaction_allocated k db + asked_of_transaction k request.allocations
  unfolding transaction_allocated write_reconciliation
  transaction_allocated-write k active = omega (
    arith,
    sum_where-append (counts_for_transaction db k) (λ (a : Allocation). a.amount) db.allocations
        (map (allocation_row fresh) request.allocations),
    sum_where-allocation_row_transaction db.reversals fresh k request.allocations active,
  )

-- An accepted request asks of an invoice no more than is open.
pub Accepted-invoice_fits :
    (request : Request) (direction : Direction) (db : Database)
    → Accepted request direction db
    → IsConsistent db
    → (k : ℕ) (i : Invoice) → find_invoice k db ≡ some i
    → invoice_allocated k db + asked_of_invoice k request.allocations ≤ i.total_amount
Accepted-invoice_fits request direction db a c k i found = omega (
  arith,
  validate_items-by_invoice direction db k request.allocations _ a.requested a.items,
  fits_invoice invoice_overdrawn k i db a.requested.by_invoice a.invoice_open found
      (c.invoices_fit k i found) a.invoices_opened a.invoices_fit,
)

pub Accepted-transaction_fits :
    (request : Request) (direction : Direction) (db : Database)
    → Accepted request direction db
    → IsConsistent db
    → (k : ℕ) (m : MoneyTransaction) → find_transaction k db ≡ some m
    → transaction_allocated k db + asked_of_transaction k request.allocations ≤ m.amount
Accepted-transaction_fits request direction db a c k m found = omega (
  arith,
  validate_items-by_transaction direction db k request.allocations _ a.requested a.items,
  fits_transaction transaction_overdrawn k m db a.requested.by_transaction a.transaction_open found
      (c.transactions_fit k m found) a.transactions_opened a.transactions_fit,
)

find-append :
    (r : ℕ) (rows : List Reconciliation) (row : Reconciliation)
    → find (λ x. x.id == r) (rows ++ row ∷ []) ≡ none
    → (find (λ x. x.id == r) rows ≡ none) × ((row.id == r) ≡ false)
find-append r [] row h = ground arith
find-append r (x ∷ rows) row h = ground (arith, find-append r rows row)

any-append :
    (r : ℕ) (fresh : ℕ) (rows : List Allocation) (items : List AllocationInput)
    → any (λ a. a.reconciliation == r) rows ≡ false
    → (fresh == r) ≡ false
    → any (λ a. a.reconciliation == r) (rows ++ map (allocation_row fresh) items) ≡ false
any-append r fresh [] [] none_before ne = refl
any-append r fresh [] (i ∷ items) none_before ne = ground (arith, any-append r fresh [] items)
any-append r fresh (x ∷ rows) items none_before ne = ground (arith, any-append r fresh rows items)

write_reconciliation-IsConsistent :
    (request : Request) (direction : Direction) (mode : Mode) (fresh : ℕ) (db : Database)
    → Accepted request direction db
    → IsConsistent db
    → find_reconciliation fresh db ≡ none
    → IsConsistent (write_reconciliation request direction mode fresh db)
unfolding write_reconciliation
write_reconciliation-IsConsistent request direction mode fresh db a c unused = record {
  invoices_fit = λ k i found. omega (
    arith,
    invoice_allocated-write request direction mode fresh db k (c.reversals_known fresh unused),
    Accepted-invoice_fits request direction db a c k i found,
  );
  transactions_fit = λ k m found. omega (
    arith,
    transaction_allocated-write request direction mode fresh db k (c.reversals_known fresh unused),
    Accepted-transaction_fits request direction db a c k m found,
  );
  reversals_known = λ r absent. c.reversals_known r (find-append r db.reconciliations _ absent).0;
  allocations_known = λ r absent.
      let (before, ne) = find-append r db.reconciliations _ absent in
      any-append r fresh db.allocations request.allocations (c.allocations_known r before) ne;
}

-- From consistent tables, with a key that no reconciliation has, a call of `create_reconciliation`
-- that returns leaves consistent tables: no invoice and no payment is allocated beyond its amount.
pub create_reconciliation-IsConsistent :
    (request : Request) (fresh : ℕ) (db db' : Database)
    → IsConsistent db
    → find_reconciliation fresh db ≡ none
    → create_reconciliation request fresh db ≡ ok db'
    → IsConsistent db'
create_reconciliation-IsConsistent request fresh db db' c unused h =
    let made = create_reconciliation-Created request fresh db db' h in
    rw made.written (
      write_reconciliation-IsConsistent request made.direction made.mode fresh db made.accepted c
        unused)
