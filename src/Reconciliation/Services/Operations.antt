-- ===== src/Reconciliation/Services/Operations.antt =====
-- `create_reconciliation` and `reverse_reconciliation` of apps/reconciliation/services.py.
use finance_reconciliation.Prelude.{
  ℕ, Bool, true, false, not, ◌&&◌, Option, none, some, [], ◌∷◌, ◌++◌, map, length, any, ◌==◌,
  is_some,
}
use finance_reconciliation.Prelude.Text.{Text, is_empty, strip}
use finance_reconciliation.Money.Amount.{stored_cents}
use finance_reconciliation.Accounts.Roles.{Actor, is_finance_actor}
use finance_reconciliation.Reconciliation.Result.{
  permission_denied, does_not_exist, no_allocations, bad_direction, bad_mode,
  batch_needs_batch_mode, batch_mode_needs_batch, reason_empty, already_reversed, Result, ok, guard,
  raise_if, or_raise, ◌>>=◌, ◌>>◌,
}
use finance_reconciliation.Reconciliation.Database.{
  Direction, Mode, direct, batch, Reconciliation, Allocation, Reversal, reconciliation_created,
  reconciliation_reversed, Database, find_reconciliation,
}
use finance_reconciliation.Reconciliation.Services.Validation.{
  AllocationInput, Request, validate_allocations,
}

abbrev pub is_batch : Mode → Bool
is_batch batch = true
is_batch direct = false

-- The tests on the arguments at the top of `create_reconciliation`.
unfoldable pub check_arguments : Request → Result (Direction × Mode)
check_arguments request = do
  raise_if (length request.allocations == 0) no_allocations
  direction ← or_raise request.direction bad_direction
  mode ← or_raise request.mode bad_mode
  raise_if (is_some request.settlement_batch && not (is_batch mode)) batch_needs_batch_mode
  raise_if (not (is_some request.settlement_batch) && is_batch mode) batch_mode_needs_batch
  ok (direction, mode)

abbrev pub allocation_row : ℕ → AllocationInput → Allocation
allocation_row reconciliation item = record {
  reconciliation = reconciliation;
  invoice = item.invoice_id;
  transaction = item.transaction_id;
  amount = stored_cents item.amount;
}

abbrev pub new_row : Request → Direction → Mode → ℕ → Reconciliation
new_row request direction mode fresh = record {
  id = fresh;
  direction = direction;
  mode = mode;
  created_by = request.actor.pk;
  settlement_batch = request.settlement_batch;
  note = request.note;
}

-- The rows that `create_reconciliation` writes, with the identifier `fresh` of the new one.
unfoldable pub write_reconciliation : Request → Direction → Mode → ℕ → Database → Database
write_reconciliation request direction mode fresh db = record db {
  reconciliations = db.reconciliations ++ new_row request direction mode fresh ∷ [];
  allocations = db.allocations ++ map (allocation_row fresh) request.allocations;
  audit =
      db.audit
      ++ record {
        actor = request.actor.pk;
        action = reconciliation_created (length request.allocations);
        target_id = fresh;
      }
        ∷ [];
}

-- `create_reconciliation`; `fresh` is the key that `uuid4` draws.
unfoldable pub create_reconciliation : Request → ℕ → Database → Result Database
create_reconciliation request fresh db = do
  guard (is_finance_actor request.actor db.directory) permission_denied
  (direction, mode) ← check_arguments request
  validate_allocations request direction db
  ok (write_reconciliation request direction mode fresh db)

abbrev pub is_blank : Option Text → Bool
is_blank none = true
is_blank (some reason) = is_empty (strip reason)

abbrev pub stripped : Option Text → Text
stripped none = []
stripped (some reason) = strip reason

abbrev pub reversal_of : Actor → ℕ → Option Text → Reversal
reversal_of actor original reason = record {
  original = original;
  reversed_by = actor.pk;
  reason = stripped reason;
}

-- The rows that `reverse_reconciliation` writes.
abbrev pub write_reversal : Actor → ℕ → Option Text → Database → Database
write_reversal actor original reason db = record db {
  reversals = db.reversals ++ reversal_of actor original reason ∷ [];
  audit =
      db.audit
      ++ record {
        actor = actor.pk;
        action = reconciliation_reversed (stripped reason);
        target_id = original;
      }
        ∷ [];
}

-- `reverse_reconciliation`; `reason` is `none` where the caller passes what is no string.
unfoldable pub reverse_reconciliation : Actor → ℕ → Option Text → Database → Result Database
reverse_reconciliation actor reconciliation_id reason db = do
  guard (is_finance_actor actor db.directory) permission_denied
  raise_if (is_blank reason) reason_empty
  original ← or_raise (find_reconciliation reconciliation_id db) does_not_exist
  raise_if (any (λ v. v.original == original.id) db.reversals) already_reversed
  ok (write_reversal actor original.id reason db)
