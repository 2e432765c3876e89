-- ===== src/Reporting/Complete.antt =====
-- What `supplier_coverage_as_of` of apps/reporting/queries.py promises when it reports that the material is complete.
use finance_reconciliation.Prelude.{
  ℕ, zero, suc, ◌+◌, ◌-◌, ◌≡◌, ◌≤◌, ◌<◌, refl, sym, ap, ◌∙◌, inl, inr, Bool, true, false, not, ◌&&◌,
  List, [], ◌∷◌, select, any, arith, ◌==◌, ==_iff, Bool-cases, Member, subst,
}
use finance_reconciliation.Imports.Coverage.{
  SourceKind, input_invoice, output_invoice, bank, wechat, kind_eq,
}
use finance_reconciliation.Reporting.Amounts.{Period, Records}
use finance_reconciliation.Reporting.Suppliers.{sort_by}
use finance_reconciliation.Reporting.Imported.{year_of, is_full}
use finance_reconciliation.Reporting.Sorting.{
  select-none, Member-++, Member-select, Member-sort_by, any-sort_by, any-select,
}
use finance_reconciliation.Reporting.Coverage.{
  is_supplier_kind, is_considered, period_order, complete, unregistered, earliest_year, required_in,
  required, is_registered, coverage_of, supplier_coverage_as_of,
}

-- A full period of a year and a source.
abbrev pub has_full : List Period → ℕ → SourceKind → Bool
has_full periods year kind =
    any (λ p. p.year == year && (kind_eq p.source_kind kind && is_full p.status)) periods

has_full-registered :
    (periods : List Period) (year : ℕ) (kind : SourceKind)
    → any (λ p. not (is_full p.status)) periods ≡ false
    → is_registered periods (year, kind) ≡ true
    → has_full periods year kind ≡ true
has_full-registered [] year kind all found = cc
has_full-registered (p ∷ periods) year kind all found =
    ground (arith, all, found, has_full-registered periods year kind)

required_in-Member :
    (year : ℕ) (kind : SourceKind)
    → is_supplier_kind kind ≡ true
    → Member (year, kind) (required_in year)
required_in-Member year bank h = inl refl
required_in-Member year input_invoice h = inr (inl refl)
required_in-Member year wechat h = inr (inr (inl refl))
required_in-Member year output_invoice h = cc

required-Member :
    (n from year : ℕ) (kind : SourceKind)
    → is_supplier_kind kind ≡ true
    → from ≤ year
    → year < from + n
    → Member (year, kind) (required n from)
unfolding required
required-Member zero from year kind h low high = absurd (omega (arith, low, high))
required-Member (suc n) from year kind h low high = elim (Bool-cases (from == year)) [
  | inl e ↦
      Member-++ (required_in from) (required n (from + 1)) (year, kind)
        (inl (
          subst (λ (y : ℕ). Member (y, kind) (required_in from)) ((==_iff from year).0 e)
            (required_in-Member from kind h)))
  | inr e ↦
      let later : from + 1 ≤ year = grind (arith, low, e) in
      Member-++ (required_in from) (required n (from + 1)) (year, kind)
        (inr (required-Member n (from + 1) year kind h later (omega (arith, high))))
]

head_is_in : {A : Type 0} (x : A) (xs : List A) → Member x (x ∷ xs)
head_is_in x xs = inl refl

earliest_year-Member :
    (first p : Period) (rest : List Period)
    → Member p (first ∷ rest)
    → earliest_year first.year rest ≤ p.year
unfolding earliest_year
earliest_year-Member first p [] (inl e) = omega (arith, ap (λ (q : Period). q.year) e)
earliest_year-Member first p [] (inr m) = absurd m
earliest_year-Member first p (q ∷ rest) (inl e) = omega (
  arith,
  earliest_year-Member first first rest (head_is_in first rest),
  ap (λ (q : Period). q.year) e,
)
earliest_year-Member first p (q ∷ rest) (inr (inl e)) = omega (arith, ap (λ (q : Period). q.year) e)
earliest_year-Member first p (q ∷ rest) (inr (inr m)) =
    omega (arith, earliest_year-Member first p rest (inr m))

-- What is left to register, where the answer is `complete`.
none_missing :
    (periods listed : List Period) (missing : List (ℕ × SourceKind))
    → elim missing [ [] ↦ complete periods | e ∷ es ↦ unregistered (e ∷ es) ] ≡ complete listed
    → missing ≡ []
none_missing periods listed [] h = refl
none_missing periods listed (e ∷ es) h = cc

coverage_of-complete :
    (as_of : ℕ) (periods listed : List Period) (p : Period) (year : ℕ) (kind : SourceKind)
    → coverage_of as_of periods ≡ complete listed
    → Member p periods
    → p.year ≤ year
    → year ≤ year_of as_of
    → is_supplier_kind kind ≡ true
    → has_full periods year kind ≡ true
unfolding coverage_of
coverage_of-complete as_of [] listed p year kind e m low high h = absurd m
coverage_of-complete as_of (first ∷ rest) listed p year kind e m low high h =
    elim (Bool-cases (any (λ q. not (is_full q.status)) (first ∷ rest))) [
      | inl partly ↦ let answer = rw partly at e in cc
      | inr all ↦
          let answer = rw all at e in
          let start = earliest_year first.year rest in
          let n = year_of as_of + 1 - start in
          let from_start : start ≤ p.year = earliest_year-Member first p rest m in
          let missing = select (λ e. not (is_registered (first ∷ rest) e)) (required n start) in
          let none_left : missing ≡ [] = none_missing (first ∷ rest) listed missing answer in
          let asked : Member (year, kind) (required n start) =
            required-Member n start year kind h (omega (arith, from_start, low))
              (omega (arith, from_start, low, high)) in
          let found : not (is_registered (first ∷ rest) (year, kind)) ≡ false =
            select-none (λ e. not (is_registered (first ∷ rest) e)) (required n start) (year, kind)
              none_left asked in
          has_full-registered (first ∷ rest) year kind all (ground (arith, found))
    ]

-- If the material on the suppliers is reported as complete on a day, then for every year from that of
-- any period of the suppliers' sources that was to start by the day, up to the year of the day,
-- each of the three sources has a period that is registered as full.
pub supplier_coverage_as_of-complete :
    (records : Records) (as_of : ℕ) (listed : List Period) (p : Period) (year : ℕ)
    (kind : SourceKind)
    → supplier_coverage_as_of records as_of ≡ complete listed
    → Member p records.periods
    → is_considered as_of p ≡ true
    → p.year ≤ year
    → year ≤ year_of as_of
    → is_supplier_kind kind ≡ true
    → has_full records.periods year kind ≡ true
unfolding supplier_coverage_as_of
supplier_coverage_as_of-complete records as_of listed p year kind e m taken low high h =
    let chosen = select (is_considered as_of) records.periods in
    let test = λ (q : Period). q.year == year && (kind_eq q.source_kind kind && is_full q.status) in
    any-select test (is_considered as_of) records.periods (
      sym (any-sort_by period_order test chosen)
      ∙ coverage_of-complete as_of (sort_by period_order chosen) listed p year kind e
          (Member-sort_by period_order chosen p
            (Member-select (is_considered as_of) records.periods p m taken))
          low high h)
