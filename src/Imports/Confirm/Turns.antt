-- ===== src/Imports/Confirm/Turns.antt =====
-- One turn of the loop of `confirm_batch` of apps/imports/services.py that returned, taken apart.
use finance_reconciliation.Prelude.{ℕ, ◌≡◌, refl, sym, ◌⊎◌, inl, inr, Option, some}
use finance_reconciliation.Accounts.Roles.{Actor}
use finance_reconciliation.Ledger.{Invoice}
use finance_reconciliation.Imports.Rows.{Normalized, ImportBatch, StagedRow}
use finance_reconciliation.Imports.Tables.{
  ok, or_raise, >>=-eq-ok, or_raise-eq-ok, ok-injective, key_error, Books, Tables, Surroundings,
}
use finance_reconciliation.Imports.Disposition.{
  Disposition, new, duplicate, conflict, status_update, formal_disposition_for,
}
use finance_reconciliation.Imports.Confirm.Insertions.{Posting, Insertion, inserted, refused}
use finance_reconciliation.Imports.Confirm.Posting.{
  post_normalized_row, posted, settle_row, after_insertion, dispatch, confirm_row,
}

module _ (w : Surroundings) (db : Tables) (batch : ImportBatch) (actor : Actor)
    (fresh now : ℕ) where
  -- The formal records at which a row is compared: before it is inserted, or after that failed.
  abbrev pub IsSeen : StagedRow → Books → Books → Type 0
  IsSeen row before books =
      (books ≡ w.before_read row.row_number before)
      ⊎ (books ≡ w.before_write row.row_number (w.before_read row.row_number before))

  pub data Turned (row : StagedRow) (r : Normalized) (p : Posting) (result : StagedRow × Posting)
      : Type 0 where
    -- the row is settled by what is found in the formal records
    settles :
        (books : Books)
        → IsSeen row p.books books
        → (found : Disposition × Option Invoice)
        → formal_disposition_for w.library db.rows books r ≡ ok found
        → settle_row w db batch actor fresh now row r found (record p { books = books }) ≡ ok result
        → Turned row r p result
    -- the row is inserted
    inserts :
        (books : Books)
        → post_normalized_row w db batch actor fresh now row r
            (w.before_write row.row_number (w.before_read row.row_number p.books))
          ≡ ok (inserted books)
        → result ≡ (posted w db batch actor fresh now row, record p { books = books })
        → Turned row r p result

  after_insertion-Turned :
      (row : StagedRow) (r : Normalized) (p : Posting) (result : StagedRow × Posting)
      (insertion : Insertion)
      → let books = w.before_write row.row_number (w.before_read row.row_number p.books) in
        post_normalized_row w db batch actor fresh now row r books ≡ ok insertion
        → let books = w.before_write row.row_number (w.before_read row.row_number p.books) in
          after_insertion w db batch actor fresh now row r (record p { books = books }) insertion
            ≡ ok result
          → Turned row r p result
  after_insertion-Turned row r p result (inserted books) e h =
      inserts books e (sym (ok-injective h))
  after_insertion-Turned row r p result refused e h =
      let books = w.before_write row.row_number (w.before_read row.row_number p.books) in
      let (found, f, h₁) = >>=-eq-ok (formal_disposition_for w.library db.rows books r) _ h in
      settles books (inr refl) found f h₁

  dispatch-Turned :
      (row : StagedRow) (r : Normalized) (p : Posting) (result : StagedRow × Posting)
      (found : Disposition × Option Invoice)
      → let books = w.before_read row.row_number p.books in
        formal_disposition_for w.library db.rows books r ≡ ok found
        → let books = w.before_read row.row_number p.books in
          dispatch w db batch actor fresh now row r found (record p { books = books }) ≡ ok result
          → Turned row r p result
  dispatch-Turned row r p result (new, existing) e h =
      let books = w.before_write row.row_number (w.before_read row.row_number p.books) in
      let (insertion, f, h₁) =
        >>=-eq-ok (post_normalized_row w db batch actor fresh now row r books) _ h in
      after_insertion-Turned row r p result insertion f h₁
  dispatch-Turned row r p result (duplicate, existing) e h = settles _ (inl refl) _ e h
  dispatch-Turned row r p result (conflict, existing) e h = settles _ (inl refl) _ e h
  dispatch-Turned row r p result (status_update, existing) e h = settles _ (inl refl) _ e h

  -- A turn is on the data of its row, and is one of the two.
  pub confirm_row-Turned :
      (row : StagedRow) (p : Posting) (result : StagedRow × Posting)
      → confirm_row w db batch actor fresh now row p ≡ ok result
      → (r : Normalized) × (row.normalized_data ≡ some r) × Turned row r p result
  unfolding confirm_row
  confirm_row-Turned row p result h =
      let (r, e, h₁) = >>=-eq-ok (or_raise row.normalized_data key_error) _ h in
      let books = w.before_read row.row_number p.books in
      let (found, f, h₂) = >>=-eq-ok (formal_disposition_for w.library db.rows books r) _ h₁ in
      (r, or_raise-eq-ok _ _ e, dispatch-Turned row r p result found f h₂)
