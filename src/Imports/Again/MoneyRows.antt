-- ===== src/Imports/Again/MoneyRows.antt =====
-- `_prepare_staged_row` of apps/imports/services.py on a row of a statement: the row has issues, or has
-- been met before, or is new.
use finance_reconciliation.Prelude.{
  ◌≡◌, refl, sym, ap, ◌⊎◌, inl, inr, Bool, true, false, Option, none, some, List, [], ◌∷◌, ◌++◌,
  any, is_some, subst, if◌then◌else◌,
}
use finance_reconciliation.Prelude.Text.{Text}
use finance_reconciliation.Imports.Coverage.{SourceKind, input_invoice, output_invoice}
use finance_reconciliation.Imports.Rows.{
  unknown, NormalizedTransactionRow, Normalized, invoice, money, RowIssue, ParsedRow,
}
use finance_reconciliation.Imports.Mapping.{transaction_fingerprint}
use finance_reconciliation.Imports.Matching.{Registers}
use finance_reconciliation.Imports.Checks.{validated, validate_parsed_row}
use finance_reconciliation.Imports.Tables.{
  ok, >>=-eq-ok, or_raise-eq-ok, ok-injective, Result, Books, Tables, Surroundings,
}
use finance_reconciliation.Imports.Disposition.{
  new, duplicate, has_fingerprint, fingerprint, DuplicateKey, transaction_key,
  formal_disposition_for, duplicate_key,
}
use finance_reconciliation.Imports.Staging.Prepare.{
  PreparedRow, Progress, seen, prepared, disposed, raw_data_issues, prepare_disposed, prepare_with,
  prepare_clean, prepare_staged_row,
}

-- The kinds of source whose rows are payments.
abbrev pub is_statement : SourceKind → Bool
is_statement SourceKind.bank = true
is_statement SourceKind.wechat = true
is_statement input_invoice = false
is_statement output_invoice = false

abbrev pub row_issues : Surroundings → SourceKind → Registers → ParsedRow → List RowIssue
row_issues w kind registers row =
    raw_data_issues row.raw_data ++ validate_parsed_row w.library kind row registers

-- A payment with its fingerprint.
pub record Payment (w : Surroundings) (row : ParsedRow) : Type 0 where
  pub r : NormalizedTransactionRow
  pub print : Text
  pub normalized : row.normalized ≡ some (money r)
  pub printed : transaction_fingerprint w.library r ≡ some print

-- A row of a statement that has no issues is a payment.
++-eq-nil-right : (xs ys : List RowIssue) → xs ++ ys ≡ [] → ys ≡ []
++-eq-nil-right [] ys h = h
++-eq-nil-right (x ∷ xs) ys h = cc

validated-money :
    (w : Surroundings) (kind : SourceKind) (registers : Registers) (issues : List RowIssue)
    (normalized : Option Normalized)
    → is_statement kind ≡ true
    → validated w.library kind issues normalized registers ≡ []
    → (r : NormalizedTransactionRow) × (normalized ≡ some (money r))
validated-money w kind registers [] none s h = cc
validated-money w kind registers (issue ∷ issues) none s h = cc
validated-money w SourceKind.bank registers issues (some (invoice r)) s h =
    let mismatch = ++-eq-nil-right issues _ h in cc
validated-money w SourceKind.wechat registers issues (some (invoice r)) s h =
    let mismatch = ++-eq-nil-right issues _ h in cc
validated-money w input_invoice registers issues (some (invoice r)) s h = cc
validated-money w output_invoice registers issues (some (invoice r)) s h = cc
validated-money w kind registers issues (some (money r)) s h = (r, refl)

clean-money :
    (w : Surroundings) (kind : SourceKind) (registers : Registers) (row : ParsedRow)
    → is_statement kind ≡ true
    → row_issues w kind registers row ≡ []
    → (r : NormalizedTransactionRow) × (row.normalized ≡ some (money r))
unfolding validate_parsed_row
clean-money w kind registers row s h =
    validated-money w kind registers row.issues row.normalized s
      (++-eq-nil-right (raw_data_issues row.raw_data) _ h)

module _ (w : Surroundings) (kind : SourceKind) (db : Tables) where
  -- A payment with this fingerprint is in the formal records.
  abbrev pub Booked : Text → Books → Type 0
  Booked print books = any (has_fingerprint print) books.transactions ≡ true

  -- What `_prepare_staged_row` does with a row of a statement.
  pub data MoneyStep (row : ParsedRow) (p : Progress) (result : PreparedRow × Progress)
      : Type 0 where
    has_issues :
        (issue : RowIssue) (issues : List RowIssue)
        → row_issues w kind db.registers row ≡ issue ∷ issues
        → result.1.seen_rows ≡ p.seen_rows
        → result.1.valid ≡ p.valid
        → MoneyStep row p result
    again :
        (m : Payment w row)
        → Booked m.print db.books ⊎ (is_some (seen (transaction_key m.print) p.seen_rows) ≡ true)
        → result.1.seen_rows ≡ (transaction_key m.print, money m.r) ∷ p.seen_rows
        → result.1.valid ≡ p.valid
        → MoneyStep row p result
    first :
        (m : Payment w row)
        → row_issues w kind db.registers row ≡ []
        → any (has_fingerprint m.print) db.books.transactions ≡ false
        → result.0 ≡ prepared row [] false
        → result.1.seen_rows ≡ (transaction_key m.print, money m.r) ∷ p.seen_rows
        → MoneyStep row p result

  disposed-MoneyStep :
      (row : ParsedRow) (m : Payment w row) (p : Progress) (result : PreparedRow × Progress)
      (previous : Option Normalized)
      → row_issues w kind db.registers row ≡ []
      → seen (transaction_key m.print) p.seen_rows ≡ previous
      → prepare_disposed w kind db row (money m.r) (transaction_key m.print) previous p ≡ ok result
      → MoneyStep row p result
  unfolding formal_disposition_for
  disposed-MoneyStep row m p result none clean s h =
      go (any (has_fingerprint m.print) db.books.transactions) refl (rw m.printed at h)
    where
      key : DuplicateKey
      key = transaction_key m.print

      go :
          (booked : Bool)
          → any (has_fingerprint m.print) db.books.transactions ≡ booked
          → ◌≡◌ {A = Result (PreparedRow × Progress)}
              (ok (
                disposed row
                  (money m.r)
                  key
                  (
                    if any (has_fingerprint m.print) db.books.transactions then duplicate else new,
                    unknown [],
                  )
                  p))
              (ok result)
          → MoneyStep row p result
      go true e h = subst (MoneyStep row p) (ok-injective (rw e at h)) (again m (inl e) refl refl)
      go false e h = subst (MoneyStep row p) (ok-injective (rw e at h)) (first m clean e refl refl)
  disposed-MoneyStep row m p result (some (invoice q)) clean s h =
      subst (MoneyStep row p) (ok-injective h) (again m (inr (ap is_some s)) refl refl)
  disposed-MoneyStep row m p result (some (money q)) clean s h =
      subst (MoneyStep row p) (ok-injective h) (again m (inr (ap is_some s)) refl refl)

  pub prepare_staged_row-MoneyStep :
      (row : ParsedRow) (p : Progress) (result : PreparedRow × Progress)
      → is_statement kind ≡ true
      → prepare_staged_row w kind db row p ≡ ok result
      → MoneyStep row p result
  unfolding prepare_staged_row
  prepare_staged_row-MoneyStep row p result s h = go (row_issues w kind db.registers row) refl h
    where
      go :
          (issues : List RowIssue)
          → row_issues w kind db.registers row ≡ issues
          → prepare_with w kind db row issues p ≡ ok result
          → MoneyStep row p result
      go (issue ∷ issues) e h =
          subst (MoneyStep row p) (ok-injective h) (has_issues issue issues e refl refl)
      go [] e h =
          let (r, n) = clean-money w kind db.registers row s e in
          let h₁ =
            subst (λ (o : Option Normalized). prepare_clean w kind db row o p ≡ ok result) n h in
          let (key, k, h₂) = >>=-eq-ok (duplicate_key w.library (money r)) _ h₁ in
          let (print, f, g) = >>=-eq-ok (fingerprint w.library r) _ k in
          let m : Payment w row = record {
            r = r;
            print = print;
            normalized = n;
            printed = or_raise-eq-ok _ _ f;
          } in
          disposed-MoneyStep row m p result _ e refl (
            subst
              (λ (key : DuplicateKey).
                prepare_disposed w kind db row (money r) key (seen key p.seen_rows) p ≡ ok result)
              (sym (ok-injective g)) h₂)
