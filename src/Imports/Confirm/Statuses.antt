-- ===== src/Imports/Confirm/Statuses.antt =====
-- What the disposition of a row by apps/imports/services.py says of the formal record that it met.
use finance_reconciliation.Prelude.{
  ◌≡◌, refl, sym, ap, ◌∙◌, inl, inr, Bool, true, false, Option, none, some, List, [], ◌∷◌, any,
  find, arith, Bool-cases,
}
use finance_reconciliation.Ledger.{Invoice, InvoiceStatus, normal, void, red}
use finance_reconciliation.Imports.Rows.{
  Choice, NormalizedInvoiceRow, Normalized, invoice, money, StagedRow, known,
}
use finance_reconciliation.Imports.Mapping.{TextLibrary}
use finance_reconciliation.Imports.Tables.{ok, >>=-eq-ok, or_raise-eq-ok, ok-injective, Books}
use finance_reconciliation.Imports.Disposition.{
  Disposition, new, duplicate, conflict, status_update, by_status, has_key, fingerprint,
  formal_disposition_for, invoice_disposition, invoice_business_fields_match,
}
use finance_reconciliation.Imports.Confirm.Recorded.{InBooks}

abbrev is_new : Disposition → Bool
is_new new = true
is_new duplicate = false
is_new conflict = false
is_new status_update = false

find-any : {A : Type 0} (p : A → Bool) (xs : List A) (x : A) → find p xs ≡ some x → any p xs ≡ true
find-any p [] x h = cc
find-any p (y ∷ xs) x h = ground (arith, find-any p xs x)

-- What is not new has a formal record.
pub formal_disposition_for-InBooks :
    (library : TextLibrary) (staged : List StagedRow) (books : Books) (r : Normalized)
    (found : Disposition × Option Invoice)
    → formal_disposition_for library staged books r ≡ ok found
    → is_new found.0 ≡ false
    → InBooks library r books
unfolding formal_disposition_for
formal_disposition_for-InBooks library staged books (invoice r) found h old =
    go (find (has_key r) books.invoices) refl
  where
    go :
        (existing : Option Invoice)
        → find (has_key r) books.invoices ≡ existing
        → any (has_key r) books.invoices ≡ true
    go none e = ground (arith, e, h, old)
    go (some i) e = find-any (has_key r) books.invoices i e
formal_disposition_for-InBooks library staged books (money r) found h old =
    let (print, e, h₁) = >>=-eq-ok (fingerprint library r) _ h in
    (print, or_raise-eq-ok _ _ e, ground (arith, h₁, old))

by_status-status_update :
    (s : InvoiceStatus) (t : Choice InvoiceStatus)
    → by_status (known s) t ≡ status_update
    → s ≡ normal
unfolding by_status
by_status-status_update normal t h = refl
by_status-status_update void t h = ground arith
by_status-status_update red t h = ground arith

invoice_disposition-status_update :
    (staged : List StagedRow) (e : Invoice) (r : NormalizedInvoiceRow)
    → invoice_disposition staged e r ≡ status_update
    → e.status ≡ normal
unfolding invoice_disposition
invoice_disposition-status_update staged e r h =
    elim (Bool-cases (invoice_business_fields_match staged e r)) [
      | inl match ↦ by_status-status_update e.status r.status (rw match at h)
      | inr differs ↦ absurd (ground (arith, differs, h))
    ]

-- A status update is of a normal invoice with the key of the row.
pub status_update-normal :
    (library : TextLibrary) (staged : List StagedRow) (books : Books) (r : Normalized) (e : Invoice)
    → formal_disposition_for library staged books r ≡ ok (status_update, some e)
    → (s : NormalizedInvoiceRow) × (find (has_key s) books.invoices ≡ some e) × (e.status ≡ normal)
unfolding formal_disposition_for
status_update-normal library staged books (invoice r) e h =
    go (find (has_key r) books.invoices) refl
  where
    go :
        (existing : Option Invoice)
        → find (has_key r) books.invoices ≡ existing
        → (s : NormalizedInvoiceRow) × (find (has_key s) books.invoices ≡ some e)
          × (e.status ≡ normal)
    go none f = absurd (ground (arith, f, h))
    go (some i) f =
        let both : ◌≡◌ {A = Disposition × Option Invoice} (invoice_disposition staged i r, some i)
            (status_update, some e) =
          ok-injective (rw f at h) in
        let found = ap (λ (d : Disposition × Option Invoice). d.1) both in
        let same : i ≡ e = cc in
        let updated = ap (λ (d : Disposition × Option Invoice). d.0) both in
        (
          r,
          f ∙ found,
          ap (λ (x : Invoice). x.status) (sym same)
              ∙ invoice_disposition-status_update staged i r updated,
        )
status_update-normal library staged books (money r) e h =
    let (print, _, h₁) = >>=-eq-ok (fingerprint library r) _ h in
    let impossible = ap (λ (d : Disposition × Option Invoice). d.1) (ok-injective h₁) in cc
