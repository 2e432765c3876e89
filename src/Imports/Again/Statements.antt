-- ===== src/Imports/Again/Statements.antt =====
-- A statement that is staged, confirmed, and exported once more: `stage_upload`, `confirm_batch` and
-- `_prepare_rows` of apps/imports/services.py together.
use finance_reconciliation.Prelude.{
  ℕ, ◌≡◌, refl, sym, ap, ◌∙◌, Bool, true, false, Option, none, some, List, [], ◌∷◌, ◌++◌, map, find,
  arith, leb, ◌==◌, ==_refl, subst, All, Prefix-any, if◌then◌else◌,
}
use finance_reconciliation.Prelude.Text.{Text}
use finance_reconciliation.Accounts.Roles.{Actor}
use finance_reconciliation.Imports.Coverage.{SourceKind}
use finance_reconciliation.Imports.Rows.{Normalized, invoice, money, ImportBatch, StagedRow}
use finance_reconciliation.Imports.Matching.{Registers}
use finance_reconciliation.Imports.Disposition.{has_fingerprint}
use finance_reconciliation.Imports.Tables.{ok, ImportResult, Books, Tables, Surroundings}
use finance_reconciliation.Imports.Staging.Prepare.{
  PreparedRow, Progress, no_progress, prepare_rows,
}
use finance_reconciliation.Imports.Staging.Files.{
  Importer, Upload, new_batch, staged_row, insert_row, by_number, write_batch,
}
use finance_reconciliation.Imports.Confirm.Insertions.{Posting}
use finance_reconciliation.Imports.Confirm.Posting.{is_pending}
use finance_reconciliation.Imports.Confirm.Operation.{find_batch, confirm_batch}
use finance_reconciliation.Imports.Confirm.Confirmed.{starting, confirm_batch-Confirmed}
use finance_reconciliation.Imports.Staging.Staged.{Uploaded}
use finance_reconciliation.Imports.Confirm.Kept.{Distinct, Grows, Cooperates}
use finance_reconciliation.Imports.Confirm.Recorded.{InBooks}
use finance_reconciliation.Imports.Confirm.Grown.{Recorded, RecordsAll, confirm_rows-RecordsAll}
use finance_reconciliation.Imports.Again.MoneyRows.{is_statement, Booked}
use finance_reconciliation.Imports.Again.Restaged.{
  print_is, has_print, is_backing, EachPayment, prepare_from-Each, prepare_from-none_valid,
  text_eq→eq,
}

module _ (P : StagedRow → Type 0) where
  All-right : (xs ys : List StagedRow) → All P (xs ++ ys) → All P ys
  All-right [] ys h = h
  All-right (x ∷ xs) ys (one, h) = All-right xs ys h

  All-insert_row :
      (r : StagedRow) (rows : List StagedRow) → All P (insert_row r rows) → P r × All P rows
  All-insert_row r [] h = h
  All-insert_row r (s ∷ rows) h = go (leb r.row_number s.row_number) h (All-insert_row r rows)
    where
      go :
          (before : Bool)
          → All P (if before then r ∷ s ∷ rows else s ∷ insert_row r rows)
          → (All P (insert_row r rows) → P r × All P rows)
          → P r × All P (s ∷ rows)
      go true (one, rest) more = (one, rest)
      go false (s_holds, rest) more = let (one, others) = more rest in (one, (s_holds, others))

  All-by_number : (rows : List StagedRow) → All P (by_number rows) → All P rows
  All-by_number [] h = tt
  All-by_number (r ∷ rows) h =
      let (one, rest) = All-insert_row r (by_number rows) h in (one, All-by_number rows rest)

  All-staged :
      (Q : PreparedRow → Type 0) (k : ℕ) (rows : List PreparedRow)
      → ((r : PreparedRow) → P (staged_row k r) → Q r)
      → All P (map (staged_row k) rows)
      → All Q rows
  All-staged Q k [] f h = tt
  All-staged Q k (r ∷ rows) f (one, h) = (f r one, All-staged Q k rows f h)

find-append_new :
    (k : ℕ) (b : ImportBatch) (batches : List ImportBatch)
    → find (λ b. b.id == k) batches ≡ none
    → b.id ≡ k
    → find (λ b. b.id == k) (batches ++ b ∷ []) ≡ some b
find-append_new k b [] h e = ground (arith, ==_refl k)
find-append_new k b (c ∷ batches) h e = ground (arith, find-append_new k b batches)

InBooks-Booked :
    (w : Surroundings) (kind : SourceKind) (db : Tables) (books : Books) (r : Normalized)
    (print : Text)
    → InBooks w.library r books
    → has_print w.library print (some r) ≡ true
    → Booked w kind db print books
InBooks-Booked w kind db books (invoice r) print b h = cc
InBooks-Booked w kind db books (money r) print (q, f, b) h =
    subst (λ (t : Text). Booked w kind db t books)
      (text_eq→eq q print (subst (λ (o : Option Text). print_is print o ≡ true) f h)) b

-- A row that will be posted as a payment, once it is in the formal records.
backing-Booked :
    (w : Surroundings) (kind : SourceKind) (db : Tables) (batch : ImportBatch) (actor : Actor)
    (fresh now : ℕ) (books : Books) (row : PreparedRow)
    → (is_pending w db batch actor fresh now (staged_row batch.id row) ≡ true
        → Recorded w db batch actor fresh now (staged_row batch.id row) books)
    → (print : Text) → is_backing w.library print row ≡ true
    → Booked w kind db print books
backing-Booked w kind db batch actor fresh now books row recorded print h =
    let pending : is_pending w db batch actor fresh now (staged_row batch.id row) ≡ true =
      ground (arith, ==_refl batch.id, h) in
    let (r, e, b) = recorded pending in
    let printed : has_print w.library print row.normalized_data ≡ true = ground (arith, h) in
    InBooks-Booked w kind db books r print b
      (subst (λ (o : Option Normalized). has_print w.library print o ≡ true) e printed)

-- What is known of the tables between the upload and the second export.
write_batch-Booked :
    (w : Surroundings) (kind : SourceKind) (db₀ db : Tables) (actor actor' : Actor)
    (upload : Upload) (fresh keys now : ℕ) (rows : List PreparedRow) (p : Progress)
    (result : List StagedRow × Posting)
    → db ≡ write_batch actor kind upload fresh rows p db₀
    → RecordsAll w db (new_batch actor kind fresh p) actor' keys now db.rows (starting db) result
    → All
        (λ row.
          (print : Text)
          → is_backing w.library print row ≡ true
          → Booked w kind db print result.1.books)
        rows
unfolding write_batch
write_batch-Booked w kind db₀ db actor actor' upload fresh keys now rows p result written (_, all) =
    let batch = new_batch actor kind fresh p in
    let Q = λ (row : StagedRow).
      is_pending w db batch actor' keys now row ≡ true
      → Recorded w db batch actor' keys now row result.1.books in
    let placed : All Q (db₀.rows ++ by_number (map (staged_row fresh) rows)) =
      subst (All Q) (ap (λ (t : Tables). t.rows) written) all in
    let mine = All-by_number Q (map (staged_row fresh) rows) (All-right Q db₀.rows _ placed) in
    All-staged Q _ fresh rows
      (λ row recorded. backing-Booked w kind db batch actor' keys now result.1.books row recorded)
      mine

-- With a key for the batch that no batch has, and if other sessions only add formal records or move the
-- status of an invoice on from normal: once a bank or wallet statement has been staged and confirmed, no
-- row counts as valid when the rows of the same statement are prepared again, after the confirmation.
pub prepare_rows-again :
    (w : Surroundings) (limit fresh keys now : ℕ) (parsers : List Importer) (upload : Upload)
    (actor actor' : Actor) (db db₁ db₂ : Tables) (result : ImportResult)
    (again : List PreparedRow × Progress)
    → Cooperates w
    → Distinct db.books.invoices
    → find_batch fresh db ≡ none
    → (u : Uploaded w limit parsers upload actor fresh db db₁) → is_statement u.kind ≡ true
    → confirm_batch w keys now fresh actor' db₁ ≡ ok (result, db₂)
    → prepare_rows w u.kind db₂ limit u.parser.parse ≡ ok again
    → again.1.valid ≡ 0
unfolding prepare_rows write_batch
prepare_rows-again w limit fresh keys now parsers upload actor actor' db db₁ db₂ result again c d
      new u s h k =
    let batch = new_batch actor u.kind fresh u.progress in
    let found : find_batch fresh db₁ ≡ some batch =
      ap (λ (t : Tables). find_batch fresh t) u.written
      ∙ find-append_new fresh batch db.batches new refl in
    let f = confirm_batch-Confirmed w keys now fresh actor' batch db₁ db₂ result found refl h in
    let same_books : db₁.books ≡ db.books = ap (λ (t : Tables). t.books) u.written in
    let same_registers : db₂.registers ≡ db.registers =
      f.registers_of ∙ ap (λ (t : Tables). t.registers) u.written in
    let records =
      confirm_rows-RecordsAll w db₁ batch actor' keys now db₁.rows (starting db₁)
        (f.rows, f.posting) c (subst (λ (b : Books). Distinct b.invoices) (sym same_books) d)
        f.looped in
    let backed =
      write_batch-Booked w u.kind db db₁ actor actor' upload fresh keys now u.rows u.progress
        (f.rows, f.posting) u.written records in
    let grows = subst (λ (b : Books). Grows b f.posting.books) same_books records.0 in
    let each =
      prepare_from-Each w u.kind db (λ print. Booked w u.kind db print f.posting.books) limit 0
        u.parser.parse no_progress (u.rows, u.progress) s
        (λ print b.
          Prefix-any (has_fingerprint print) db.books.transactions f.posting.books.transactions
            grows.transactions b)
        backed (λ print met. absurd (cc)) u.prepared in
    prepare_from-none_valid w u.kind db₂ limit 0 u.parser.parse no_progress again s
      (subst
        (λ (b : Books).
          EachPayment w u.kind db₂.registers (λ print. Booked w u.kind db print b) u.parser.parse)
        (sym f.books_of)
        (subst
          (λ (g : Registers).
            EachPayment w u.kind g (λ print. Booked w u.kind db print f.posting.books)
              u.parser.parse)
          (sym same_registers) each))
      k
