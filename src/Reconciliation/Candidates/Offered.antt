-- ===== src/Reconciliation/Candidates/Offered.antt =====
-- What `transaction_candidates` returns accounts for what is open of the invoice, and no run of payments
-- that settles it exactly is left out.
use finance_reconciliation.Prelude.{
  ℕ, suc, zero, ◌+◌, ◌≡◌, ◌<◌, ap, sym, ◌∙◌, some, List, [], ◌∷◌, ◌++◌, map, arith, find, ◌==◌, ltb,
  All, inl, inr,
}
use finance_reconciliation.Prelude.Int.{ℤ, pos, negsuc}
use finance_reconciliation.Ledger.{Invoice, MoneyTransaction}
use finance_reconciliation.Reconciliation.Result.{
  Result, ok, raise_if, or_raise, >>=-eq-ok, >>-eq-ok, or_raise-eq-ok, ok-injective, does_not_exist,
  bad_date_window,
}
use finance_reconciliation.Reconciliation.Database.{Database, find_invoice}
use finance_reconciliation.Reconciliation.Queries.{invoice_open_amount}
use finance_reconciliation.Reconciliation.Candidates.Windows.{Window}
use finance_reconciliation.Reconciliation.Candidates.Search.{
  Candidate, Available, keep, available, available_transactions_for_invoice, transaction_query,
  exact_candidate, total_open, or_partial, candidates_for, transaction_candidates,
}
use finance_reconciliation.Reconciliation.Candidates.Exact.{
  Among, IsRun, contiguous_windows-IsRun, window, contiguous_windows-Among,
}

keep-positive :
    {A : Type 0} (a : A) (amount : ℤ) (rest : List (Available A))
    → All (λ a. 0 < a.open_amount) rest
    → All (λ a. 0 < a.open_amount) (keep a amount rest)
keep-positive a (pos zero) rest h = h
keep-positive a (pos (suc n)) rest h = (omega arith, h)
keep-positive a (negsuc n) rest h = h

pub available-positive :
    {A : Type 0} (open_amount : A → Result ℤ) (rows : List A) (items : List (Available A))
    → available open_amount rows ≡ ok items
    → All (λ a. 0 < a.open_amount) items
unfolding available
available-positive open_amount [] items h = rw (sym (ok-injective h)) tt
available-positive open_amount (a ∷ rows) items h =
    let (amount, e, h₁) = >>=-eq-ok (open_amount a) _ h in
    let (rest, e', h₂) = >>=-eq-ok (available open_amount rows) _ h₁ in
    rw (sym (ok-injective h₂))
      (keep-positive a amount rest (available-positive open_amount rows rest e'))

-- A candidate accounts for the whole target.
abbrev pub IsBalanced : ℕ → Candidate → Type 0
IsBalanced target c = c.total + c.difference ≡ target

exact-IsBalanced :
    (k target : ℕ) (items : List (Available MoneyTransaction))
    (ws : List (Window (Available MoneyTransaction)))
    → All (IsRun (λ a. a.open_amount) target items) ws
    → All (IsBalanced target) (map (exact_candidate k) ws)
exact-IsBalanced k target items [] h = tt
exact-IsBalanced k target items (w ∷ ws) (p, h) =
    (let e = p.exact in omega (arith, e), exact-IsBalanced k target items ws h)

or_partial-IsBalanced :
    (k target : ℕ) (items : List (Available MoneyTransaction)) (exact : List Candidate)
    → All (IsBalanced target) exact
    → All (IsBalanced target) (or_partial k target items exact)
or_partial-IsBalanced k target items (c ∷ exact) h = h
or_partial-IsBalanced k target [] [] h = tt
or_partial-IsBalanced k target (a ∷ rest) [] h = (omega arith, tt)

candidates_for-IsBalanced :
    (i : Invoice) (target : ℕ) (first last : ℕ) (db : Database) (cs : List Candidate)
    → candidates_for i (pos target) first last db ≡ ok cs
    → All (IsBalanced target) cs
unfolding candidates_for
candidates_for-IsBalanced i zero first last db cs h = rw (sym (ok-injective h)) tt
candidates_for-IsBalanced i (suc n) first last db cs h =
    let (items, e, h₁) = >>=-eq-ok (available_transactions_for_invoice i first last db) _ h in
    rw (sym (ok-injective h₁)) (
      or_partial-IsBalanced i.id (suc n) items _ (
        exact-IsBalanced i.id (suc n) items _
          (contiguous_windows-IsRun (λ a. a.open_amount) (suc n) items)))

find_invoice-id :
    (k : ℕ) (rows : List Invoice) (i : Invoice) → find (λ i. i.id == k) rows ≡ some i → i.id ≡ k
find_invoice-id k [] i h = cc
find_invoice-id k (x ∷ rows) i h = ground (arith, find_invoice-id k rows i)

-- What a search that returned has found.
record Searched (k target first last : ℕ) (db : Database) (cs : List Candidate) : Type 0 where
  invoice : Invoice
  found : find_invoice k db ≡ some invoice
  same : invoice.id ≡ k
  returned : candidates_for invoice (pos target) first last db ≡ ok cs

transaction_candidates-Searched :
    (k target first last : ℕ) (db : Database) (cs : List Candidate)
    → invoice_open_amount k db ≡ ok (pos target)
    → transaction_candidates k first last db ≡ ok cs
    → Searched k target first last db cs
unfolding transaction_candidates
transaction_candidates-Searched k target first last db cs opened h =
    let (in_order, h₁) = >>-eq-ok (raise_if (ltb last first) bad_date_window) _ h in
    let (i, found, h₂) = >>=-eq-ok (or_raise (find_invoice k db) does_not_exist) _ h₁ in
    let (amount, e, h₃) = >>=-eq-ok (invoice_open_amount i.id db) _ h₂ in
    let found_row = or_raise-eq-ok _ _ found in
    let same = find_invoice-id k db.invoices i found_row in
    let amounts : amount ≡ pos target =
      ok-injective (sym e ∙ ap (λ j. invoice_open_amount j db) same ∙ opened) in
    record {
      invoice = i;
      found = found_row;
      same = same;
      returned = ap (λ z. candidates_for i z first last db) (sym amounts) ∙ h₃;
    }

-- Where something is open of an invoice, the total of every candidate that `transaction_candidates`
-- returns and its difference add up to what is open.
transaction_candidates-IsBalanced :
    (k target first last : ℕ) (db : Database) (cs : List Candidate)
    → invoice_open_amount k db ≡ ok (pos target)
    → transaction_candidates k first last db ≡ ok cs
    → All (IsBalanced target) cs
transaction_candidates-IsBalanced k target first last db cs opened h =
    let s = transaction_candidates-Searched k target first last db cs opened h in
    candidates_for-IsBalanced s.invoice target first last db cs s.returned

pub Among-map :
    {A B : Type 0} (f : A → B) (a : A) (xs : List A) → Among a xs → Among (f a) (map f xs)
Among-map f a [] h = absurd h
Among-map f a (x ∷ xs) (inl e) = inl (ap f e)
Among-map f a (x ∷ xs) (inr h) = inr (Among-map f a xs h)

Among-or_partial :
    (c : Candidate) (k target : ℕ) (items : List (Available MoneyTransaction))
    (exact : List Candidate)
    → Among c exact
    → Among c (or_partial k target items exact)
Among-or_partial c k target items (x ∷ exact) h = h
Among-or_partial c k target items [] h = absurd h

candidates_for-offers :
    (i : Invoice) (n first last : ℕ) (db : Database) (cs : List Candidate)
    (before : List (Available MoneyTransaction)) (a : Available MoneyTransaction)
    (rest behind : List (Available MoneyTransaction))
    → candidates_for i (pos (suc n)) first last db ≡ ok cs
    → available_transactions_for_invoice i first last db ≡ ok (before ++ (a ∷ rest) ++ behind)
    → total_open (a ∷ rest) ≡ suc n
    → Among (exact_candidate i.id (window (λ a. a.open_amount) (suc n) a rest)) cs
unfolding candidates_for available_transactions_for_invoice
candidates_for-offers i n first last db cs before a rest behind h listed e =
    let positive = available-positive _ (transaction_query i first last db) _ listed in
    let (items, e', h₁) = >>=-eq-ok (available _ (transaction_query i first last db)) _ h in
    rw (sym (ok-injective h₁), ok-injective (sym e' ∙ listed))
      (Among-or_partial _ i.id (suc n) _ _ (
        Among-map (exact_candidate i.id) _ _
          (contiguous_windows-Among (λ a. a.open_amount) (suc n) before a rest behind positive e)))

-- Every run of available payments, one after another in time, of which is open together just what is
-- open of the invoice, is among the candidates that `transaction_candidates` returns; and for each
-- candidate returned, exact or partial, its total and its difference add up to what is open.
pub transaction_candidates-offers :
    (k n first last : ℕ) (db : Database) (i : Invoice) (cs : List Candidate)
    (before : List (Available MoneyTransaction)) (a : Available MoneyTransaction)
    (rest behind : List (Available MoneyTransaction))
    → find_invoice k db ≡ some i
    → invoice_open_amount k db ≡ ok (pos (suc n))
    → transaction_candidates k first last db ≡ ok cs
    → available_transactions_for_invoice i first last db ≡ ok (before ++ (a ∷ rest) ++ behind)
    → total_open (a ∷ rest) ≡ suc n
    → Among (exact_candidate k (window (λ a. a.open_amount) (suc n) a rest)) cs
      × All (IsBalanced (suc n)) cs
transaction_candidates-offers k n first last db i cs before a rest behind found opened h listed e =
    let s = transaction_candidates-Searched k (suc n) first last db cs opened h in
    let one : s.invoice ≡ i = let f = s.found in cc in
    let same = find_invoice-id k db.invoices i found in
    let returned : candidates_for i (pos (suc n)) first last db ≡ ok cs =
      ap (λ i. candidates_for i (pos (suc n)) first last db) (sym one) ∙ s.returned in
    (
      rw (sym same)
          (candidates_for-offers i n first last db cs before a rest behind returned listed e),
      transaction_candidates-IsBalanced k (suc n) first last db cs opened h,
    )
