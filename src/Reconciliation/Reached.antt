-- ===== src/Reconciliation/Reached.antt =====
-- The four operations of apps/reconciliation/services.py and settlements.py, one after another: the
-- database that they reach from one in which nothing is matched yet.
use finance_reconciliation.Prelude.{ℕ, ◌≡◌, refl, Option, none, some, List, [], arith}
use finance_reconciliation.Prelude.Text.{Text}
use finance_reconciliation.Accounts.Roles.{Actor}
use finance_reconciliation.Ledger.{Invoice, MoneyTransaction}
use finance_reconciliation.Reconciliation.Result.{ok}
use finance_reconciliation.Reconciliation.Database.{
  Direction, Database, find_reconciliation, is_active,
}
use finance_reconciliation.Reconciliation.Queries.{invoice_allocated, transaction_allocated}
use finance_reconciliation.Reconciliation.Services.Validation.{AllocationInput, Request}
use finance_reconciliation.Reconciliation.Services.Operations.{
  create_reconciliation, reverse_reconciliation,
}
use finance_reconciliation.Reconciliation.Services.Balance.{
  IsConsistent, create_reconciliation-IsConsistent,
}
use finance_reconciliation.Reconciliation.Services.RoundTrip.{reverse_reconciliation-IsConsistent}
use finance_reconciliation.Reconciliation.Settlements.Drafts.{write_batch, create_settlement_batch}
use finance_reconciliation.Reconciliation.Settlements.Confirm.{confirm_settlement_batch}
use finance_reconciliation.Reconciliation.Settlements.Once.{confirm_settlement_batch-IsConsistent}
use finance_reconciliation.Reconciliation.Settlements.TimeZone.{create_settlement_batch-writes}

-- A call that returns, by anyone, with a key that `uuid4` draws for the first time.
pub data Step (db : Database) : Database → Type 0 where
  creates :
      {db' : Database} (request : Request) (fresh : ℕ)
      → find_reconciliation fresh db ≡ none
      → create_reconciliation request fresh db ≡ ok db'
      → Step db db'
  reverses :
      {db' : Database} (actor : Actor) (reconciliation : ℕ) (reason : Option Text)
      → reverse_reconciliation actor reconciliation reason db ≡ ok db'
      → Step db db'
  drafts :
      {db' : Database} (actor : Actor) (counterparty : ℕ) (direction : Direction)
      (first last fresh : ℕ)
      → create_settlement_batch actor counterparty (some direction) first last fresh db ≡ ok db'
      → Step db db'
  confirms :
      {db' : Database} (batch : ℕ) (actor : Actor) (items : List AllocationInput)
      (version fresh : ℕ)
      → find_reconciliation fresh db ≡ none
      → confirm_settlement_batch batch actor items version fresh db ≡ ok db'
      → Step db db'

-- Nothing has been matched.
pub record IsUnmatched (db : Database) : Type 0 where
  pub no_reconciliations : db.reconciliations ≡ []
  pub no_allocations : db.allocations ≡ []
  pub no_reversals : db.reversals ≡ []

pub data Reach (first : Database) : Database → Type 0 where
  unchanged : Reach first first
  later : {db db' : Database} → Reach first db → Step db db' → Reach first db'

IsUnmatched-IsConsistent : (db : Database) → IsUnmatched db → IsConsistent db
unfolding invoice_allocated transaction_allocated is_active
IsUnmatched-IsConsistent db h = record {
  invoices_fit = λ k i found. rw h.no_allocations (omega arith);
  transactions_fit = λ k m found. rw h.no_allocations (omega arith);
  reversals_known = λ r absent. rw h.no_reversals refl;
  allocations_known = λ r absent. rw h.no_allocations refl;
}

write_batch-IsConsistent :
    (actor : Actor) (counterparty : ℕ) (direction : Direction) (first last : ℕ)
    (invoices : List Invoice) (transactions : List MoneyTransaction) (fresh : ℕ) (db : Database)
    → IsConsistent db
    → IsConsistent
        (write_batch actor counterparty direction first last invoices transactions fresh db)
unfolding write_batch invoice_allocated transaction_allocated
write_batch-IsConsistent actor counterparty direction first last invoices transactions fresh db c =
    record {
      invoices_fit = c.invoices_fit;
      transactions_fit = c.transactions_fit;
      reversals_known = c.reversals_known;
      allocations_known = c.allocations_known;
    }

Step-IsConsistent : (db db' : Database) → IsConsistent db → Step db db' → IsConsistent db'
Step-IsConsistent db db' c (creates request fresh unused made) =
    create_reconciliation-IsConsistent request fresh db db' c unused made
Step-IsConsistent db db' c (reverses actor reconciliation reason made) =
    reverse_reconciliation-IsConsistent actor reconciliation reason db db' c made
Step-IsConsistent db db' c (drafts actor counterparty direction first last fresh made) =
    rw (create_settlement_batch-writes actor counterparty direction first last fresh db db' made)
      (write_batch-IsConsistent actor counterparty direction first last _ _ fresh db c)
Step-IsConsistent db db' c (confirms batch actor items version fresh unused made) =
    confirm_settlement_batch-IsConsistent batch actor items version fresh db db' c unused made

-- Whatever calls of the four operations follow one another from a database in which nothing is
-- matched, those that return with keys that were not in use, no invoice and no payment is ever
-- allocated beyond its amount, and every allocation and reversal is of a reconciliation that is
-- there.
pub Reach-IsConsistent :
    (first db : Database) → IsUnmatched first → Reach first db → IsConsistent db
Reach-IsConsistent first db h unchanged = IsUnmatched-IsConsistent first h
Reach-IsConsistent first db h (later {db = before} reached step) =
    Step-IsConsistent before db (Reach-IsConsistent first before h reached) step
