-- ===== src/Imports/Confirm/Grown.antt =====
-- `confirm_batch` of apps/imports/services.py over all rows: the formal records grow, and every valid row
-- ends up with a formal record.
use finance_reconciliation.Prelude.{
  ℕ, ◌≡◌, refl, sym, inl, inr, true, Option, none, some, List, [], ◌∷◌, subst, Prefix-refl,
  Bool-cases, All,
}
use finance_reconciliation.Accounts.Roles.{Actor}
use finance_reconciliation.Ledger.{Invoice}
use finance_reconciliation.Imports.Rows.{Normalized, ImportBatch, StagedRow}
use finance_reconciliation.Imports.Tables.{
  ok, or_raise, >>=-eq-ok, ok-injective, data_error, Books, Tables, Surroundings,
}
use finance_reconciliation.Imports.Disposition.{
  Disposition, new, duplicate, conflict, status_update, has_key, formal_disposition_for,
}
use finance_reconciliation.Imports.Staging.Prepare.{status_of}
use finance_reconciliation.Imports.Confirm.Insertions.{Posting, known_of, set_status}
use finance_reconciliation.Imports.Confirm.Posting.{
  mark_duplicate, mark_invoice_conflict, update_invoice_status, settle_row, is_pending, turn,
  confirm_rows,
}
use finance_reconciliation.Imports.Confirm.Turns.{
  IsSeen, Turned, settles, inserts, confirm_row-Turned,
}
use finance_reconciliation.Imports.Confirm.Kept.{
  Distinct, Grows, Cooperates, Grows-refl, Grows-trans, set_status-Distinct, set_status-Kept,
}
use finance_reconciliation.Imports.Confirm.Recorded.{
  InBooks, InBooks-Grows, post_normalized_row-Adds,
}
use finance_reconciliation.Imports.Confirm.Statuses.{
  formal_disposition_for-InBooks, status_update-normal,
}

module _ (w : Surroundings) (db : Tables) (batch : ImportBatch) (actor : Actor)
    (fresh now : ℕ) where
  -- What is left of a row by a turn at `books`.
  abbrev Records : Normalized → Posting → StagedRow × Posting → Type 0
  Records r p result = Grows p.books result.1.books × InBooks w.library r result.1.books

  settle_row-Records :
      (row : StagedRow) (r : Normalized) (found : Disposition × Option Invoice) (p : Posting)
      (result : StagedRow × Posting)
      → Distinct p.books.invoices
      → formal_disposition_for w.library db.rows p.books r ≡ ok found
      → settle_row w db batch actor fresh now row r found p ≡ ok result
      → Records r p result
  unfolding settle_row mark_duplicate mark_invoice_conflict update_invoice_status
  settle_row-Records row r (duplicate, existing) p result d f h =
      subst (Records r p) (ok-injective h)
        (Grows-refl p.books d, formal_disposition_for-InBooks w.library db.rows p.books r _ f refl)
  settle_row-Records row r (conflict, some existing) p result d f h =
      subst (Records r p) (ok-injective h)
        (Grows-refl p.books d, formal_disposition_for-InBooks w.library db.rows p.books r _ f refl)
  settle_row-Records row r (status_update, some existing) p result d f h =
      let (status, _, h₁) = >>=-eq-ok (or_raise (known_of (status_of r)) data_error) _ h in
      let (s, found, open_status) = status_update-normal w.library db.rows p.books r existing f in
      let grows : Grows p.books
          (record (p.books) { invoices = set_status existing.id status p.books.invoices }) =
        record {
          invoices =
              set_status-Kept (has_key s) status p.books.invoices existing d found open_status;
          transactions = Prefix-refl p.books.transactions;
          distinct = set_status-Distinct existing.id status p.books.invoices d;
        } in
      subst (Records r p) (ok-injective h₁) (
        grows,
        InBooks-Grows w.library r p.books _ grows
            (formal_disposition_for-InBooks w.library db.rows p.books r _ f refl),
      )
  settle_row-Records row r (conflict, none) p result d f h = cc
  settle_row-Records row r (status_update, none) p result d f h = cc
  settle_row-Records row r (new, existing) p result d f h = cc

  -- A row's data have a formal record.
  abbrev pub Recorded : StagedRow → Books → Type 0
  Recorded row books = (r : Normalized) × (row.normalized_data ≡ some r) × InBooks w.library r books

  Recorded-Grows : (row : StagedRow) (a b : Books) → Grows a b → Recorded row a → Recorded row b
  Recorded-Grows row a b g (r, e, h) = (r, e, InBooks-Grows w.library r a b g h)

  IsSeen-Grows :
      (row : StagedRow) (before books : Books)
      → Cooperates w
      → Distinct before.invoices
      → IsSeen w db batch actor fresh now row before books
      → Grows before books
  IsSeen-Grows row before books c d (inl e) =
      subst (Grows before) (sym e) (c.read row.row_number before d)
  IsSeen-Grows row before books c d (inr e) =
      let g = c.read row.row_number before d in
      subst (Grows before) (sym e) (Grows-trans before _ _ g (c.write row.row_number _ g.distinct))

  Turned-Records :
      (row : StagedRow) (r : Normalized) (p : Posting) (result : StagedRow × Posting)
      → Cooperates w
      → Distinct p.books.invoices
      → Turned w db batch actor fresh now row r p result
      → Records r p result
  Turned-Records row r p result c d (settles books seen found f h) =
      let g = IsSeen-Grows row p.books books c d seen in
      let (more, recorded) =
        settle_row-Records row r found (record p { books = books }) result g.distinct f h in
      (Grows-trans p.books books _ g more, recorded)
  Turned-Records row r p result c d (inserts books f e) =
      let g = IsSeen-Grows row p.books _ c d (inr refl) in
      let (more, recorded) =
        post_normalized_row-Adds w db batch actor fresh now row r _ books g.distinct f in
      subst (Records r p) (sym e) (Grows-trans p.books _ books g more, recorded)

  -- What the loop leaves of its rows.
  abbrev pub RecordsAll : List StagedRow → Posting → List StagedRow × Posting → Type 0
  RecordsAll rows p result =
      Grows p.books result.1.books
      × All (λ row. is_pending w db batch actor fresh now row ≡ true → Recorded row result.1.books)
          rows

  turn-Records :
      (row : StagedRow) (p : Posting) (result : StagedRow × Posting)
      → Cooperates w
      → Distinct p.books.invoices
      → turn w db batch actor fresh now row p ≡ ok result
      → Grows p.books result.1.books
        × (is_pending w db batch actor fresh now row ≡ true → Recorded row result.1.books)
  turn-Records row p result c d h = elim (Bool-cases (is_pending w db batch actor fresh now row)) [
    | inl pending ↦
        let (r, e, turned) =
          confirm_row-Turned w db batch actor fresh now row p result (rw pending at h) in
        let (grows, recorded) = Turned-Records row r p result c d turned in
        (grows, λ _. (r, e, recorded))
    | inr other ↦
        let same = ok-injective (rw other at h) in
        (
          subst (λ (x : StagedRow × Posting). Grows p.books x.1.books) same (Grows-refl p.books d),
          λ pending. absurd (cc),
        )
  ]

  pub confirm_rows-RecordsAll :
      (rows : List StagedRow) (p : Posting) (result : List StagedRow × Posting)
      → Cooperates w
      → Distinct p.books.invoices
      → confirm_rows w db batch actor fresh now rows p ≡ ok result
      → RecordsAll rows p result
  unfolding confirm_rows
  confirm_rows-RecordsAll [] p result c d h =
      subst (RecordsAll [] p) (ok-injective h) (Grows-refl p.books d, tt)
  confirm_rows-RecordsAll (row ∷ rows) p result c d h =
      let (first, e₁, h₁) = >>=-eq-ok (turn w db batch actor fresh now row p) _ h in
      let (more, e₂, h₂) = >>=-eq-ok (confirm_rows w db batch actor fresh now rows first.1) _ h₁ in
      let (grows, one) = turn-Records row p first c d e₁ in
      let (grows', rest) = confirm_rows-RecordsAll rows first.1 more c grows.distinct e₂ in
      subst (RecordsAll (row ∷ rows) p) (ok-injective h₂) (
        Grows-trans p.books first.1.books more.1.books grows grows',
        (λ pending. Recorded-Grows row first.1.books more.1.books grows' (one pending), rest),
      )
