-- ===== src/Imports/Again/Restaged.antt =====
-- A statement whose rows have been imported: `_prepare_rows` of apps/imports/services.py finds nothing new
-- in a file that yields the same rows.
use finance_reconciliation.Prelude.{
  ℕ, ◌+◌, ◌≡◌, refl, sym, ap, ◌∙◌, inl, inr, Bool, true, false, not, ◌&&◌, Option, none, some, List,
  [], ◌∷◌, arith, ltb, ==_iff, is_some, subst, Bool-cases, All,
}
use finance_reconciliation.Prelude.Text.{Text, text_eq, text_eq_refl}
use finance_reconciliation.Money.Amount.{Amount, decimal, nan, infinity, integer, foreign}
use finance_reconciliation.Imports.Coverage.{SourceKind}
use finance_reconciliation.Imports.Rows.{
  NormalizedTransactionRow, Normalized, invoice, money, ParsedRow, as_decimal, as_decimal?,
  serialize_normalized,
}
use finance_reconciliation.Imports.Mapping.{
  TextLibrary, utc_instant, quantized, fingerprint_at, fingerprint_fields, transaction_fingerprint,
}
use finance_reconciliation.Imports.Matching.{Registers}
use finance_reconciliation.Imports.Tables.{
  ok, raise_if, >>=-eq-ok, >>-eq-ok, ok-injective, too_many_rows, Tables, Surroundings,
}
use finance_reconciliation.Imports.Disposition.{transaction_key}
use finance_reconciliation.Imports.Staging.Prepare.{
  ParserOutput, finished, failed, yields, PreparedRow, Progress, seen, prepared, prepare_staged_row,
  prepare_from,
}
use finance_reconciliation.Imports.Staging.Counts.{no_issues}
use finance_reconciliation.Imports.Again.MoneyRows.{
  is_statement, row_issues, Payment, Booked, MoneyStep, has_issues, again, first,
  prepare_staged_row-MoneyStep,
}

pub text_eq→eq : (s t : Text) → text_eq s t ≡ true → s ≡ t
text_eq→eq [] [] h = refl
text_eq→eq [] (b ∷ t) h = cc
text_eq→eq (a ∷ s) [] h = cc
text_eq→eq (a ∷ s) (b ∷ t) h = ground (arith, ==_iff a b, text_eq→eq s t)

as_decimal-twice : (a : Amount) → as_decimal (as_decimal a) ≡ as_decimal a
as_decimal-twice (decimal z) = refl
as_decimal-twice nan = refl
as_decimal-twice (infinity b) = refl
as_decimal-twice (integer z) = refl
as_decimal-twice foreign = refl

abbrev pub print_is : Text → Option Text → Bool
print_is print none = false
print_is print (some q) = text_eq q print

abbrev pub has_print : TextLibrary → Text → Option Normalized → Bool
has_print library print none = false
has_print library print (some (invoice r)) = false
has_print library print (some (money r)) = print_is print (transaction_fingerprint library r)

-- A staged row that will be posted as a payment with this fingerprint.
abbrev pub is_backing : TextLibrary → Text → PreparedRow → Bool
is_backing library print row =
    no_issues row.issues && not row.is_duplicate && has_print library print row.normalized_data

-- A row keeps its fingerprint when it is stored.
transaction_fingerprint-stored :
    (library : TextLibrary) (r : NormalizedTransactionRow) (balance : Option Amount)
    → transaction_fingerprint library
        (record r { amount = as_decimal r.amount; balance_after = balance })
      ≡ transaction_fingerprint library r
unfolding transaction_fingerprint fingerprint_fields
transaction_fingerprint-stored library r balance =
    ap (λ (a : Amount). fingerprint_at library r (utc_instant r.occurred_at) (quantized a))
      (as_decimal-twice r.amount)

is_backing-prepared :
    (w : Surroundings) (row : ParsedRow) (m : Payment w row)
    → is_backing w.library m.print (prepared row [] false) ≡ true
unfolding serialize_normalized
is_backing-prepared w row m =
    let stored =
      transaction_fingerprint-stored w.library m.r (as_decimal? m.r.balance_after) ∙ m.printed in
    rw (m.normalized, stored) (text_eq_refl m.print)

module _ (w : Surroundings) (kind : SourceKind) (registers : Registers) where
  -- Every payment among the rows of a file has a fingerprint of which `P` holds.
  abbrev pub EachPayment : (Text → Type 0) → ParserOutput → Type 0
  EachPayment P finished = Unit
  EachPayment P (failed failure) = Unit
  EachPayment P (yields row more) =
      (row_issues w kind registers row ≡ [] → (m : Payment w row) → P m.print) × EachPayment P more

Payment-same : (w : Surroundings) (row : ParsedRow) (m n : Payment w row) → n.print ≡ m.print
Payment-same w row m n =
    let r : n.r ≡ m.r = cc in
    let print : some n.print ≡ some m.print =
      sym n.printed ∙ ap (transaction_fingerprint w.library) r ∙ m.printed in
    cc

module _ (w : Surroundings) (kind : SourceKind) (db : Tables) (P : Text → Type 0) where
  -- The prints of the rows before are among those of which `P` holds.
  abbrev pub Known : Progress → Type 0
  Known p = (print : Text) → is_some (seen (transaction_key print) p.seen_rows) ≡ true → P print

  Known-add :
      (p : Progress) (result : PreparedRow × Progress) (print : Text) (r : Normalized)
      → Known p
      → P print
      → result.1.seen_rows ≡ (transaction_key print, r) ∷ p.seen_rows
      → Known result.1
  Known-add p result print r known here e q met = elim (Bool-cases (text_eq print q)) [
    | inl same ↦ subst P (text_eq→eq print q same) here
    | inr other ↦ known q (ground (arith, e, met, other))
  ]

  -- A turn, and the payments of its row.
  step-Each :
      (row : ParsedRow) (p : Progress) (result : PreparedRow × Progress)
      → ((print : Text) → Booked w kind db print db.books → P print)
      → ((print : Text) → is_backing w.library print result.0 ≡ true → P print)
      → Known p
      → MoneyStep w kind db row p result
      → (row_issues w kind db.registers row ≡ [] → (m : Payment w row) → P m.print) × Known result.1
  step-Each row p result booked backed known (has_issues issue issues e s v) = (
    λ clean m. absurd (cc),
    λ print met.
        known print
          (subst (λ (rows : List _). is_some (seen (transaction_key print) rows) ≡ true) s met),
  )
  step-Each row p result booked backed known (again m before s v) =
      let here : P m.print = elim before [ inl b ↦ booked m.print b | inr k ↦ known m.print k ] in
      (
        λ _ n. subst P (sym (Payment-same w row m n)) here,
        Known-add p result m.print (money m.r) known here s,
      )
  step-Each row p result booked backed known (first m clean unbooked f s) =
      let here : P m.print = backed m.print (
        subst (λ (r : PreparedRow). is_backing w.library m.print r ≡ true) (sym f)
          (is_backing-prepared w row m)) in
      (
        λ _ n. subst P (sym (Payment-same w row m n)) here,
        Known-add p result m.print (money m.r) known here s,
      )

  pub prepare_from-Each :
      (limit count : ℕ) (parsed : ParserOutput) (p : Progress)
      (result : List PreparedRow × Progress)
      → is_statement kind ≡ true
      → ((print : Text) → Booked w kind db print db.books → P print)
      → All (λ row. (print : Text) → is_backing w.library print row ≡ true → P print) result.0
      → Known p
      → prepare_from w kind db limit count parsed p ≡ ok result
      → EachPayment w kind db.registers P parsed
  unfolding prepare_from
  prepare_from-Each limit count finished p result s booked backed known h = tt
  prepare_from-Each limit count (failed failure) p result s booked backed known h = tt
  prepare_from-Each limit count (yields row more) p result s booked backed known h =
      let (_, h₁) = >>-eq-ok (raise_if (ltb limit (count + 1)) too_many_rows) _ h in
      let (one, e₁, h₂) = >>=-eq-ok (prepare_staged_row w kind db row p) _ h₁ in
      let (others, e₂, h₃) = >>=-eq-ok (prepare_from w kind db limit (count + 1) more one.1) _ h₂ in
      let (here, rest) =
        subst
          (λ (r : List PreparedRow × Progress).
            All (λ row. (print : Text) → is_backing w.library print row ≡ true → P print) r.0)
          (sym (ok-injective h₃)) backed in
      let (payment, known') =
        step-Each row p one booked here known
          (prepare_staged_row-MoneyStep w kind db row p one s e₁) in
      (payment, prepare_from-Each limit (count + 1) more one.1 others s booked rest known' e₂)

module _ (w : Surroundings) (kind : SourceKind) (db : Tables) where
  step-none_valid :
      (row : ParsedRow) (p : Progress) (result : PreparedRow × Progress)
      → (row_issues w kind db.registers row ≡ []
          → (m : Payment w row) → Booked w kind db m.print db.books)
      → MoneyStep w kind db row p result
      → result.1.valid ≡ p.valid
  step-none_valid row p result each (has_issues issue issues e s v) = v
  step-none_valid row p result each (again m before s v) = v
  step-none_valid row p result each (first m clean unbooked f s) =
      let booked = each clean m in absurd (cc)

  -- Where every payment has a formal record already, no row counts as valid.
  pub prepare_from-none_valid :
      (limit count : ℕ) (parsed : ParserOutput) (p : Progress)
      (result : List PreparedRow × Progress)
      → is_statement kind ≡ true
      → EachPayment w kind db.registers (λ print. Booked w kind db print db.books) parsed
      → prepare_from w kind db limit count parsed p ≡ ok result
      → result.1.valid ≡ p.valid
  unfolding prepare_from
  prepare_from-none_valid limit count finished p result s each h =
      ap (λ (r : List PreparedRow × Progress). r.1.valid) (sym (ok-injective h))
  prepare_from-none_valid limit count (failed failure) p result s each h = cc
  prepare_from-none_valid limit count (yields row more) p result s (one_each, each) h =
      let (_, h₁) = >>-eq-ok (raise_if (ltb limit (count + 1)) too_many_rows) _ h in
      let (one, e₁, h₂) = >>=-eq-ok (prepare_staged_row w kind db row p) _ h₁ in
      let (others, e₂, h₃) = >>=-eq-ok (prepare_from w kind db limit (count + 1) more one.1) _ h₂ in
      let later = prepare_from-none_valid limit (count + 1) more one.1 others s each e₂ in
      let same =
        step-none_valid row p one one_each
          (prepare_staged_row-MoneyStep w kind db row p one s e₁) in
      ap (λ (r : List PreparedRow × Progress). r.1.valid) (sym (ok-injective h₃)) ∙ later ∙ same
