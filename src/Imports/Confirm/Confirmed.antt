-- ===== src/Imports/Confirm/Confirmed.antt =====
-- What `confirm_batch` of apps/imports/services.py does with the batch: the counters stay true, and
-- every row is accounted for.
use finance_reconciliation.Prelude.{
  ℕ, ◌+◌, ◌≡◌, refl, sym, ap, false, Option, none, some, List, [], ◌∷◌, arith, ltb, find, ◌==◌,
  subst, if◌then◌else◌,
}
use finance_reconciliation.Accounts.Roles.{Actor, is_finance_actor}
use finance_reconciliation.Imports.Rows.{partial, completed, ImportBatch, StagedRow}
use finance_reconciliation.Imports.Tables.{
  ok, guard, raise_if, or_raise, >>=-eq-ok, >>-eq-ok, or_raise-eq-ok, raise_if-eq-ok, ok-injective,
  permission_denied, does_not_exist, integrity_error, ImportResult, AccountBalanceSnapshot, Tables,
  Surroundings,
}
use finance_reconciliation.Imports.Confirm.Insertions.{Posting}
use finance_reconciliation.Imports.Confirm.Posting.{confirm_rows}
use finance_reconciliation.Imports.Confirm.Snapshots.{create_balance_snapshots}
use finance_reconciliation.Imports.Confirm.Operation.{
  count_where, from_batch, confirmed_batch, save_batch, find_batch, confirm_pending, confirm_found,
  confirm_batch,
}
use finance_reconciliation.Imports.Staging.Counts.{is_posted, IsCounted, count_where-kinds}
use finance_reconciliation.Imports.Confirm.Tallies.{Tallied, confirm_rows-Tallied}

abbrev pub starting : Tables → Posting
starting db = record { books = db.books; log = db.audit; new_duplicates = 0; new_errors = 0 }

-- A first confirmation that returned, taken apart.
pub record Confirmed (w : Surroundings) (fresh now : ℕ) (actor : Actor) (batch : ImportBatch)
    (db : Tables) (result : ImportResult) (db' : Tables) : Type 0 where
  pub rows : List StagedRow
  pub posting : Posting
  pub snapshots : List AccountBalanceSnapshot
  pub looped : confirm_rows w db batch actor fresh now db.rows (starting db) ≡ ok (rows, posting)
  pub balanced : create_balance_snapshots w batch db.registers rows db.snapshots ≡ ok snapshots
  pub enough : ltb batch.valid_rows (posting.new_duplicates + posting.new_errors) ≡ false
  pub result_of : result ≡ from_batch (confirmed_batch batch posting now) rows
  pub rows_of : db'.rows ≡ rows
  pub books_of : db'.books ≡ posting.books
  pub snapshots_of : db'.snapshots ≡ snapshots
  pub batches_of : db'.batches ≡ save_batch (confirmed_batch batch posting now) db.batches
  pub directory_of : db'.directory ≡ db.directory
  pub registers_of : db'.registers ≡ db.registers

confirm_pending-Confirmed :
    (w : Surroundings) (fresh now : ℕ) (actor : Actor) (batch : ImportBatch) (db db' : Tables)
    (result : ImportResult)
    → confirm_pending w fresh now actor batch db ≡ ok (result, db')
    → Confirmed w fresh now actor batch db result db'
unfolding confirm_pending
confirm_pending-Confirmed w fresh now actor batch db db' result h =
    let ((rows, p), e₁, h₁) =
      >>=-eq-ok (confirm_rows w db batch actor fresh now db.rows (starting db)) _ h in
    let (snapshots, e₂, h₂) =
      >>=-eq-ok (create_balance_snapshots w batch db.registers rows db.snapshots) _ h₁ in
    let test = ltb batch.valid_rows (p.new_duplicates + p.new_errors) in
    let (passed, h₃) = >>-eq-ok (raise_if test integrity_error) _ h₂ in
    let e : ◌≡◌ {A = ImportResult × Tables} _ (result, db') = ok-injective h₃ in
    record {
      rows = rows;
      posting = p;
      snapshots = snapshots;
      looped = e₁;
      balanced = e₂;
      enough = raise_if-eq-ok test integrity_error passed;
      result_of = sym (ap (λ (r : ImportResult × Tables). r.0) e);
      rows_of = sym (ap (λ (r : ImportResult × Tables). r.1.rows) e);
      books_of = sym (ap (λ (r : ImportResult × Tables). r.1.books) e);
      snapshots_of = sym (ap (λ (r : ImportResult × Tables). r.1.snapshots) e);
      batches_of = sym (ap (λ (r : ImportResult × Tables). r.1.batches) e);
      directory_of = sym (ap (λ (r : ImportResult × Tables). r.1.directory) e);
      registers_of = sym (ap (λ (r : ImportResult × Tables). r.1.registers) e);
    }

-- Which batch a call is about, and that it may be made.
pub confirm_batch-found :
    (w : Surroundings) (fresh now k : ℕ) (actor : Actor) (db : Tables)
    (result : ImportResult × Tables)
    → confirm_batch w fresh now k actor db ≡ ok result
    → (batch : ImportBatch) × (find_batch k db ≡ some batch)
      × (confirm_found w fresh now actor batch batch.confirmed_at db ≡ ok result)
unfolding confirm_batch
confirm_batch-found w fresh now k actor db result h =
    let (_, h₁) = >>-eq-ok (guard (is_finance_actor actor db.directory) permission_denied) _ h in
    let (batch, e, h₂) = >>=-eq-ok (or_raise (find_batch k db) does_not_exist) _ h₁ in
    (batch, or_raise-eq-ok _ _ e, h₂)

pub confirm_batch-Confirmed :
    (w : Surroundings) (fresh now k : ℕ) (actor : Actor) (batch : ImportBatch) (db db' : Tables)
    (result : ImportResult)
    → find_batch k db ≡ some batch
    → batch.confirmed_at ≡ none
    → confirm_batch w fresh now k actor db ≡ ok (result, db')
    → Confirmed w fresh now actor batch db result db'
confirm_batch-Confirmed w fresh now k actor batch db db' result found unconfirmed h =
    let (b, e, h₁) = confirm_batch-found w fresh now k actor db (result, db') h in
    let same : b ≡ batch = cc in
    let h₂ =
      subst
        (λ (b : ImportBatch).
          confirm_found w fresh now actor b b.confirmed_at db ≡ ok (result, db'))
        same h₁ in
    confirm_pending-Confirmed w fresh now actor batch db db' result (
      subst (λ (t : Option ℕ). confirm_found w fresh now actor batch t db ≡ ok (result, db'))
        unconfirmed h₂)

pub find-save_batch :
    (k : ℕ) (batch saved : ImportBatch) (batches : List ImportBatch)
    → find (λ b. b.id == k) batches ≡ some batch
    → saved.id ≡ batch.id
    → find (λ b. b.id == k) (save_batch saved batches) ≡ some saved
find-save_batch k batch saved [] h e = cc
find-save_batch k batch saved (b ∷ batches) h e =
    ground (arith, find-save_batch k batch saved batches)

-- The batch after its confirmation, and what the call returned.
pub record Accounted (batch : ImportBatch) (now : ℕ) (result : ImportResult) (db' : Tables)
    : Type 0 where
  pub confirmed : ImportBatch
  pub saved : find_batch batch.id db' ≡ some confirmed
  pub counted : IsCounted confirmed db'.rows
  pub same_total : confirmed.total_rows ≡ batch.total_rows
  pub confirmed_now : confirmed.confirmed_at ≡ some now
  pub settled : confirmed.status ≡ (if confirmed.error_rows == 0 then completed else partial)
  pub posted : result.posted_rows ≡ count_where (is_posted batch.id) db'.rows
  pub none_left : result.posted_rows + result.duplicate_rows + result.error_rows ≡ batch.total_rows
  pub all_posted : result.posted_rows ≡ confirmed.valid_rows

confirmed_batch-Accounted :
    (batch : ImportBatch) (now : ℕ) (before rows : List StagedRow) (p p' : Posting)
    → p.new_duplicates ≡ 0
    → p.new_errors ≡ 0
    → Tallied batch.id p before p' rows
    → IsCounted batch before
    → IsCounted (confirmed_batch batch p' now) rows
unfolding confirmed_batch
confirmed_batch-Accounted batch now before rows p p' nd ne t c =
    let old = count_where-kinds batch.id before in
    let fresh = count_where-kinds batch.id rows in
    record {
      total = omega (arith, t.total, c.total);
      valid = omega (
        arith, t.total, t.errors, t.duplicates, c.valid, c.errors, c.duplicates, old, fresh, nd, ne,
      );
      duplicates = omega (arith, t.duplicates, c.duplicates, nd);
      errors = omega (arith, t.errors, c.errors, ne);
    }

-- The first confirmation of a batch, open, with true counters and no row posted, keeps the counters
-- true. Of the rows of the batch each is then posted, a duplicate or an error, all that are valid are
-- posted, and the result says how many there are of each. The batch is completed if it has no error
-- and partial otherwise.
pub confirm_batch-Accounted :
    (w : Surroundings) (fresh now : ℕ) (actor : Actor) (batch : ImportBatch) (db db' : Tables)
    (result : ImportResult)
    → find_batch batch.id db ≡ some batch
    → batch.confirmed_at ≡ none
    → IsCounted batch db.rows
    → count_where (is_posted batch.id) db.rows ≡ 0
    → confirm_batch w fresh now batch.id actor db ≡ ok (result, db')
    → Accounted batch now result db'
unfolding from_batch confirmed_batch
confirm_batch-Accounted w fresh now actor batch db db' result found unconfirmed counted unposted h =
    let c =
      confirm_batch-Confirmed w fresh now batch.id actor batch db db' result found unconfirmed h in
    let t =
      confirm_rows-Tallied w db batch actor fresh now db.rows (starting db) (c.rows, c.posting)
        c.looped in
    let counts =
      confirmed_batch-Accounted batch now db.rows c.rows (starting db) c.posting refl refl t
        counted in
    let all_posted = t.posted unposted in
    let kinds = count_where-kinds batch.id c.rows in
    let saved = confirmed_batch batch c.posting now in
    record {
      confirmed = saved;
      saved =
          subst (λ (bs : List ImportBatch). find (λ b. b.id == batch.id) bs ≡ some saved)
            (sym c.batches_of) (find-save_batch batch.id batch saved db.batches found refl);
      counted = subst (IsCounted saved) (sym c.rows_of) counts;
      same_total = refl;
      confirmed_now = refl;
      settled = refl;
      posted =
          subst
            (λ (rows : List StagedRow). result.posted_rows ≡ count_where (is_posted batch.id) rows)
            (sym c.rows_of) (ap (λ (r : ImportResult). r.posted_rows) c.result_of);
      none_left =
          subst
            (λ (r : ImportResult).
              r.posted_rows + r.duplicate_rows + r.error_rows ≡ batch.total_rows)
            (sym c.result_of)
            (omega (arith, all_posted, kinds, counts.total, counts.duplicates, counts.errors));
      all_posted =
          subst (λ (r : ImportResult). r.posted_rows ≡ saved.valid_rows) (sym c.result_of)
            (omega (arith, all_posted, counts.valid));
    }
