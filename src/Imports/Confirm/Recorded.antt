-- ===== src/Imports/Confirm/Recorded.antt =====
-- A row that `confirm_batch` of apps/imports/services.py has dealt with has a formal record, and the
-- formal records only grow.
use finance_reconciliation.Prelude.{
  ℕ, ◌≡◌, refl, ap, Bool, true, false, ◌||◌, Option, none, some, List, [], ◌∷◌, ◌++◌, any, arith,
  ◌==◌, subst, Prefix-refl, Prefix-append, Prefix-any,
}
use finance_reconciliation.Prelude.Text.{Text, text_eq_refl}
use finance_reconciliation.Accounts.Roles.{Actor}
use finance_reconciliation.Ledger.{Invoice, MoneyTransaction}
use finance_reconciliation.Imports.Rows.{
  NormalizedInvoiceRow, NormalizedTransactionRow, Normalized, invoice, money, ImportBatch,
  StagedRow, day_of,
}
use finance_reconciliation.Imports.Mapping.{TextLibrary, transaction_fingerprint, utc_instant}
use finance_reconciliation.Imports.Matching.{
  resolve_invoice_counterparty, resolve_transaction_counterparty, resolve_funding_account,
}
use finance_reconciliation.Imports.Tables.{
  ok, or_raise, >>=-eq-ok, or_raise-eq-ok, ok-injective, no_such_party, no_such_account, data_error,
  Books, Tables, Surroundings,
}
use finance_reconciliation.Imports.Disposition.{has_key, has_fingerprint, fingerprint}
use finance_reconciliation.Imports.Confirm.Insertions.{
  inserted, known_of, positive_cents, column?, add_invoice, add_transaction,
}
use finance_reconciliation.Imports.Confirm.Posting.{
  post_invoice, post_transaction, post_normalized_row,
}
use finance_reconciliation.Imports.Confirm.Kept.{Kept, Distinct, Grows, Kept-append, Kept-refl}

-- A formal record has the key of the row.
abbrev pub InBooks : TextLibrary → Normalized → Books → Type 0
InBooks library (invoice r) books = any (has_key r) books.invoices ≡ true
InBooks library (money r) books =
    (print : Text) × (transaction_fingerprint library r ≡ some print)
    × (any (has_fingerprint print) books.transactions ≡ true)

Kept-any :
    (r : NormalizedInvoiceRow) (is js : List Invoice)
    → Kept is js
    → any (has_key r) is ≡ true
    → any (has_key r) js ≡ true
Kept-any r [] js k h = cc
Kept-any r (i ∷ is) [] k h = absurd k
Kept-any r (i ∷ is) (j ∷ js) (s, k) h =
    let same : has_key r j ≡ has_key r i = ap (has_key r) s.same in
    ground (arith, same, Kept-any r is js k)

pub InBooks-Grows :
    (library : TextLibrary) (r : Normalized) (a b : Books)
    → Grows a b
    → InBooks library r a
    → InBooks library r b
InBooks-Grows library (invoice r) a b g h = Kept-any r a.invoices b.invoices g.invoices h
InBooks-Grows library (money r) a b g (print, e, h) =
    (print, e, Prefix-any _ a.transactions b.transactions g.transactions h)

any-append_last :
    {A : Type 0} (p : A → Bool) (xs : List A) (x : A) → p x ≡ true → any p (xs ++ x ∷ []) ≡ true
any-append_last p [] x h = ground arith
any-append_last p (y ∷ xs) x h = ground (arith, any-append_last p xs x h)

any-or-left :
    {A : Type 0} (p q : A → Bool) (xs : List A)
    → any (λ x. p x || q x) xs ≡ false
    → any p xs ≡ false
any-or-left p q [] h = refl
any-or-left p q (x ∷ xs) h = ground (arith, any-or-left p q xs)

any-append-none :
    {A : Type 0} (p : A → Bool) (xs : List A) (x : A)
    → any p xs ≡ false
    → p x ≡ false
    → any p (xs ++ x ∷ []) ≡ false
any-append-none p [] x h k = ground arith
any-append-none p (y ∷ xs) x h k = ground (arith, any-append-none p xs x)

Distinct-append :
    (is : List Invoice) (i : Invoice)
    → Distinct is
    → any (λ j. j.id == i.id) is ≡ false
    → Distinct (is ++ i ∷ [])
Distinct-append [] i d h = (refl, tt)
Distinct-append (j ∷ is) i (absent, d) h = (
  any-append-none (λ x. x.id == j.id) is i absent (ground arith),
  Distinct-append is i d (ground arith),
)

-- What an insertion that goes through does.
abbrev pub Adds : TextLibrary → Normalized → Books → Books → Type 0
Adds library r before after = Grows before after × InBooks library r after

inserted-injective : (a b : Books) → inserted a ≡ inserted b → a ≡ b
inserted-injective a b h = cc

add_invoice-Adds :
    (library : TextLibrary) (r : NormalizedInvoiceRow) (i : Invoice) (cents : Option ℕ)
    (before after : Books)
    → has_key r i ≡ true
    → Distinct before.invoices
    → add_invoice before r i cents ≡ inserted after
    → Adds library (invoice r) before after
add_invoice-Adds library r i none before after key d h = cc
add_invoice-Adds library r i (some cents) before after key d h =
    go (any (λ j. j.id == i.id || has_key r j) before.invoices) refl
  where
    go :
        (taken : Bool)
        → any (λ j. j.id == i.id || has_key r j) before.invoices ≡ taken
        → Adds library (invoice r) before after
    go true e = absurd (ground (arith, e, h))
    go false e =
        let added : record before { invoices = before.invoices ++ i ∷ [] } ≡ after =
          inserted-injective _ _ (rw e at h) in
        let unused = any-or-left (λ j. j.id == i.id) (has_key r) before.invoices e in
        subst (Adds library (invoice r) before) added (
          record {
            invoices = Kept-append before.invoices (i ∷ []);
            transactions = Prefix-refl before.transactions;
            distinct = Distinct-append before.invoices i d unused;
          },
          any-append_last (has_key r) before.invoices i key,
        )

add_transaction-Adds :
    (library : TextLibrary) (r : NormalizedTransactionRow) (m : MoneyTransaction) (cents : Option ℕ)
    (before after : Books)
    → transaction_fingerprint library r ≡ some m.fingerprint
    → Distinct before.invoices
    → add_transaction before m cents ≡ inserted after
    → Adds library (money r) before after
add_transaction-Adds library r m none before after key d h = cc
add_transaction-Adds library r m (some cents) before after key d h =
    go (any (λ n. n.id == m.id || has_fingerprint m.fingerprint n) before.transactions) refl
  where
    go :
        (taken : Bool)
        → any (λ n. n.id == m.id || has_fingerprint m.fingerprint n) before.transactions ≡ taken
        → Adds library (money r) before after
    go true e = absurd (ground (arith, e, h))
    go false e =
        let added : record before { transactions = before.transactions ++ m ∷ [] } ≡ after =
          inserted-injective _ _ (rw e at h) in
        subst (Adds library (money r) before) added (
          record {
            invoices = Kept-refl before.invoices;
            transactions = Prefix-append before.transactions (m ∷ []);
            distinct = d;
          },
          (
            m.fingerprint,
            key,
            any-append_last (has_fingerprint m.fingerprint) before.transactions m
                (text_eq_refl m.fingerprint),
          ),
        )

module _ (w : Surroundings) (db : Tables) (batch : ImportBatch) (actor : Actor)
    (fresh now : ℕ) where
  post_invoice-Adds :
      (row : StagedRow) (r : NormalizedInvoiceRow) (before after : Books)
      → Distinct before.invoices
      → post_invoice w db batch actor fresh now row r before ≡ ok (inserted after)
      → Adds w.library (invoice r) before after
  post_invoice-Adds row r before after d h =
      let (party, _, h₁) =
        >>=-eq-ok (or_raise (resolve_invoice_counterparty r db.registers).value no_such_party) _
          h in
      let (direction, _, h₂) = >>=-eq-ok (or_raise (known_of r.direction) data_error) _ h₁ in
      let (status, _, h₃) = >>=-eq-ok (or_raise (known_of r.status) data_error) _ h₂ in
      let (day, _, h₄) = >>=-eq-ok (or_raise (day_of r.issue_date) data_error) _ h₃ in
      let (cents, _, h₅) = >>=-eq-ok (or_raise (w.column r.total_amount) data_error) _ h₄ in
      add_invoice-Adds w.library r _ (positive_cents cents) before after
        (ground (arith, text_eq_refl r.invoice_number, text_eq_refl r.seller_tax_id)) d
        (ok-injective h₅)

  post_transaction-Adds :
      (row : StagedRow) (r : NormalizedTransactionRow) (before after : Books)
      → Distinct before.invoices
      → post_transaction w db batch actor fresh now row r before ≡ ok (inserted after)
      → Adds w.library (money r) before after
  post_transaction-Adds row r before after d h =
      let (account, _, h₁) =
        >>=-eq-ok (or_raise (resolve_funding_account r db.registers).value no_such_account) _ h in
      let found = resolve_transaction_counterparty w.library r db.registers in
      let (party, _, h₂) = >>=-eq-ok (or_raise found.value no_such_party) _ h₁ in
      let (print, e, h₃) = >>=-eq-ok (fingerprint w.library r) _ h₂ in
      let (channel, _, h₄) = >>=-eq-ok (or_raise (known_of r.channel) data_error) _ h₃ in
      let (direction, _, h₅) = >>=-eq-ok (or_raise (known_of r.direction) data_error) _ h₄ in
      let (t, _, h₆) = >>=-eq-ok (or_raise (utc_instant r.occurred_at) data_error) _ h₅ in
      let (cents, _, h₇) = >>=-eq-ok (or_raise (w.column r.amount) data_error) _ h₆ in
      let (balance, _, h₈) =
        >>=-eq-ok (or_raise (column? w.column r.balance_after) data_error) _ h₇ in
      add_transaction-Adds w.library r _ (positive_cents cents) before after (or_raise-eq-ok _ _ e)
        d (ok-injective h₈)

  -- A row that is inserted is in the formal records, which have grown.
  pub post_normalized_row-Adds :
      (row : StagedRow) (r : Normalized) (before after : Books)
      → Distinct before.invoices
      → post_normalized_row w db batch actor fresh now row r before ≡ ok (inserted after)
      → Adds w.library r before after
  unfolding post_normalized_row
  post_normalized_row-Adds row (invoice r) before after d h =
      post_invoice-Adds row r before after d h
  post_normalized_row-Adds row (money r) before after d h =
      post_transaction-Adds row r before after d h
