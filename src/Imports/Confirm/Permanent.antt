-- ===== src/Imports/Confirm/Permanent.antt =====
-- What a confirmation, `confirm_batch` of apps/imports/services.py, does to the formal records.
use finance_reconciliation.Prelude.{
  ℕ, ◌≡◌, sym, inl, inr, true, Option, none, some, subst, Option-cases, Member, All-Member,
}
use finance_reconciliation.Accounts.Roles.{Actor}
use finance_reconciliation.Imports.Rows.{ImportBatch, StagedRow}
use finance_reconciliation.Imports.Tables.{ok, Result, ImportResult, Tables, Surroundings}
use finance_reconciliation.Imports.Confirm.Posting.{is_pending}
use finance_reconciliation.Imports.Confirm.Operation.{
  from_batch, find_batch, confirm_found, confirm_batch,
}
use finance_reconciliation.Imports.Confirm.Confirmed.{
  starting, confirm_batch-found, confirm_batch-Confirmed,
}
use finance_reconciliation.Imports.Confirm.Kept.{Distinct, Grows, Cooperates, Grows-refl}
use finance_reconciliation.Imports.Confirm.Grown.{Recorded, confirm_rows-RecordsAll}

confirmed_again :
    (w : Surroundings) (fresh now t : ℕ) (actor : Actor) (batch : ImportBatch) (db db' : Tables)
    (result : ImportResult)
    → batch.confirmed_at ≡ some t
    → confirm_found w fresh now actor batch batch.confirmed_at db ≡ ok (result, db')
    → db ≡ db'
confirmed_again w fresh now t actor batch db db' result e h =
    let done : ◌≡◌ {A = Result (ImportResult × Tables)} (ok (from_batch batch db.rows, db))
        (ok (result, db')) =
      subst (λ (t : Option ℕ). confirm_found w fresh now actor batch t db ≡ ok (result, db')) e h in
    cc

-- If other sessions only add formal records, or move the status of an invoice on from normal, then so
-- does `confirm_batch`: every invoice and every payment stays as it was, but for the status of a normal
-- invoice, and an invoice that is void or red stays so.
pub confirm_batch-Grows :
    (w : Surroundings) (fresh now k : ℕ) (actor : Actor) (db db' : Tables) (result : ImportResult)
    → Cooperates w
    → Distinct db.books.invoices
    → confirm_batch w fresh now k actor db ≡ ok (result, db')
    → Grows db.books db'.books
confirm_batch-Grows w fresh now k actor db db' result c d h =
    let (batch, found, h₁) = confirm_batch-found w fresh now k actor db (result, db') h in
    elim (Option-cases batch.confirmed_at) [
      | inl unconfirmed ↦
          let f =
            confirm_batch-Confirmed w fresh now k actor batch db db' result found unconfirmed h in
          let (grows, _) =
            confirm_rows-RecordsAll w db batch actor fresh now db.rows (starting db)
              (f.rows, f.posting) c d f.looped in
          subst (Grows db.books) (sym f.books_of) grows
      | inr (t, confirmed) ↦
          subst (λ (x : Tables). Grows db.books x.books)
            (confirmed_again w fresh now t actor batch db db' result confirmed h₁)
            (Grows-refl db.books d)
    ]

-- If other sessions only add formal records, or move the status of an invoice on from normal, then
-- after the first confirmation of a batch every row of it that was pending (not posted, no duplicate
-- and without issues) has a formal record with its key: an invoice with its number and seller, or a payment with its fingerprint.
pub confirm_batch-Recorded :
    (w : Surroundings) (fresh now k : ℕ) (actor : Actor) (batch : ImportBatch) (db db' : Tables)
    (result : ImportResult)
    → Cooperates w
    → Distinct db.books.invoices
    → find_batch k db ≡ some batch
    → batch.confirmed_at ≡ none
    → confirm_batch w fresh now k actor db ≡ ok (result, db')
    → (row : StagedRow) → Member row db.rows
    → is_pending w db batch actor fresh now row ≡ true
    → Recorded w db batch actor fresh now row db'.books
confirm_batch-Recorded w fresh now k actor batch db db' result c d found unconfirmed h row m
      pending =
    let f = confirm_batch-Confirmed w fresh now k actor batch db db' result found unconfirmed h in
    let (_, recorded) =
      confirm_rows-RecordsAll w db batch actor fresh now db.rows (starting db) (f.rows, f.posting) c
        d f.looped in
    subst (Recorded w db batch actor fresh now row) (sym f.books_of)
      (All-Member _ db.rows row recorded m pending)
