-- ===== src/Reconciliation/Candidates/Invoices.antt =====
-- What `invoice_candidates` returns: the runs of invoices that use a payment up, all of them.
use finance_reconciliation.Prelude.{
  ℕ, zero, suc, ◌≡◌, refl, ap, sym, ◌∙◌, Option, none, some, List, [], ◌∷◌, ◌++◌, map, arith, find,
  ◌==◌, ltb, All,
}
use finance_reconciliation.Prelude.Int.{pos}
use finance_reconciliation.Ledger.{Invoice, MoneyTransaction}
use finance_reconciliation.Reconciliation.Result.{
  Result, ok, raise_if, or_raise, >>=-eq-ok, >>-eq-ok, or_raise-eq-ok, ok-injective, does_not_exist,
  bad_date_window,
}
use finance_reconciliation.Reconciliation.Database.{Database, find_transaction}
use finance_reconciliation.Reconciliation.Queries.{invoice_open_amount, transaction_open_amount}
use finance_reconciliation.Reconciliation.Candidates.Windows.{Window}
use finance_reconciliation.Reconciliation.Candidates.Search.{
  Candidate, Available, available, invoice_query, multi_candidate, total_open, invoices_for,
  unless_unknown, invoice_candidates,
}
use finance_reconciliation.Reconciliation.Candidates.Exact.{
  Among, IsRun, contiguous_windows-IsRun, window, contiguous_windows-Among,
}
use finance_reconciliation.Reconciliation.Candidates.Offered.{available-positive, Among-map}

find_transaction-id :
    (k : ℕ) (rows : List MoneyTransaction) (m : MoneyTransaction)
    → find (λ m. m.id == k) rows ≡ some m
    → m.id ≡ k
find_transaction-id k [] m h = cc
find_transaction-id k (x ∷ rows) m h = ground (arith, find_transaction-id k rows m)

-- A candidate uses the whole payment up.
abbrev pub IsExact : ℕ → Candidate → Type 0
IsExact target c = (c.total ≡ target) × (c.difference ≡ 0)

multi-IsExact :
    (k target : ℕ) (items : List (Available Invoice)) (ws : List (Window (Available Invoice)))
    → All (IsRun (λ a. a.open_amount) target items) ws
    → All (IsExact target) (map (multi_candidate k) ws)
multi-IsExact k target items [] h = tt
multi-IsExact k target items (w ∷ ws) (p, h) = ((p.exact, refl), multi-IsExact k target items ws h)

invoices_for-IsExact :
    (m : MoneyTransaction) (target first last : ℕ) (db : Database) (cs : List Candidate)
    → invoices_for m (pos target) first last db ≡ ok cs
    → All (IsExact target) cs
unfolding invoices_for
invoices_for-IsExact m zero first last db cs h = rw (sym (ok-injective h)) tt
invoices_for-IsExact m (suc n) first last db cs h =
    let (items, e, h₁) = >>=-eq-ok (available _ (invoice_query m first last db)) _ h in
    rw (sym (ok-injective h₁)) (
      multi-IsExact m.id (suc n) items _
        (contiguous_windows-IsRun (λ a. a.open_amount) (suc n) items))

unless_unknown-IsExact :
    (target : ℕ) (o : Option ℕ) (rest : Result (List Candidate)) (cs : List Candidate)
    → ((cs : List Candidate) → rest ≡ ok cs → All (IsExact target) cs)
    → unless_unknown o rest ≡ ok cs
    → All (IsExact target) cs
unless_unknown-IsExact target none rest cs k h = rw (sym (ok-injective h)) tt
unless_unknown-IsExact target (some c) rest cs k h = k cs h

-- A search that returned, by its payment.
record Searched (k target first last : ℕ) (db : Database) (cs : List Candidate) : Type 0 where
  money : MoneyTransaction
  found : find_transaction k db ≡ some money
  same : money.id ≡ k
  returned :
      unless_unknown money.counterparty (invoices_for money (pos target) first last db) ≡ ok cs

invoice_candidates-Searched :
    (k target first last : ℕ) (db : Database) (cs : List Candidate)
    → transaction_open_amount k db ≡ ok (pos target)
    → invoice_candidates k first last db ≡ ok cs
    → Searched k target first last db cs
unfolding invoice_candidates
invoice_candidates-Searched k target first last db cs opened h =
    let (in_order, h₁) = >>-eq-ok (raise_if (ltb last first) bad_date_window) _ h in
    let (m, found, h₂) = >>=-eq-ok (or_raise (find_transaction k db) does_not_exist) _ h₁ in
    let (amount, e, h₃) = >>=-eq-ok (transaction_open_amount m.id db) _ h₂ in
    let found_row = or_raise-eq-ok _ _ found in
    let same = find_transaction-id k db.transactions m found_row in
    let amounts : amount ≡ pos target =
      ok-injective (sym e ∙ ap (λ j. transaction_open_amount j db) same ∙ opened) in
    record {
      money = m;
      found = found_row;
      same = same;
      returned =
          ap (λ z. unless_unknown m.counterparty (invoices_for m z first last db)) (sym amounts)
          ∙ h₃;
    }

-- Where something is open of a payment, every candidate that `invoice_candidates` returns has just that
-- as its total, and no difference.
invoice_candidates-IsExact :
    (k target first last : ℕ) (db : Database) (cs : List Candidate)
    → transaction_open_amount k db ≡ ok (pos target)
    → invoice_candidates k first last db ≡ ok cs
    → All (IsExact target) cs
invoice_candidates-IsExact k target first last db cs opened h =
    let s = invoice_candidates-Searched k target first last db cs opened h in
    unless_unknown-IsExact target s.money.counterparty _ cs
      (λ cs. invoices_for-IsExact s.money target first last db cs) s.returned

invoices_for-offers :
    (m : MoneyTransaction) (n first last : ℕ) (db : Database) (cs : List Candidate)
    (before : List (Available Invoice)) (a : Available Invoice)
    (rest behind : List (Available Invoice))
    → invoices_for m (pos (suc n)) first last db ≡ ok cs
    → available (λ i. invoice_open_amount i.id db) (invoice_query m first last db)
      ≡ ok (before ++ (a ∷ rest) ++ behind)
    → total_open (a ∷ rest) ≡ suc n
    → Among (multi_candidate m.id (window (λ a. a.open_amount) (suc n) a rest)) cs
unfolding invoices_for
invoices_for-offers m n first last db cs before a rest behind h listed e =
    let positive = available-positive _ (invoice_query m first last db) _ listed in
    let (items, e', h₁) = >>=-eq-ok (available _ (invoice_query m first last db)) _ h in
    rw (sym (ok-injective h₁), ok-injective (sym e' ∙ listed))
      (Among-map (multi_candidate m.id) _ _
        (contiguous_windows-Among (λ a. a.open_amount) (suc n) before a rest behind positive e))

-- Every run of available invoices, one after another by date, of which is open together just what is
-- open of a payment with a known counterparty, is among the candidates that `invoice_candidates`
-- returns; and each candidate returned has just that as its total, and no difference.
pub invoice_candidates-offers :
    (k n first last counterparty : ℕ) (db : Database) (m : MoneyTransaction) (cs : List Candidate)
    (before : List (Available Invoice)) (a : Available Invoice)
    (rest behind : List (Available Invoice))
    → find_transaction k db ≡ some m
    → m.counterparty ≡ some counterparty
    → transaction_open_amount k db ≡ ok (pos (suc n))
    → invoice_candidates k first last db ≡ ok cs
    → available (λ i. invoice_open_amount i.id db) (invoice_query m first last db)
      ≡ ok (before ++ (a ∷ rest) ++ behind)
    → total_open (a ∷ rest) ≡ suc n
    → Among (multi_candidate k (window (λ a. a.open_amount) (suc n) a rest)) cs
      × All (IsExact (suc n)) cs
invoice_candidates-offers k n first last counterparty db m cs before a rest behind found known
      opened h listed e =
    let s = invoice_candidates-Searched k (suc n) first last db cs opened h in
    let one : s.money ≡ m = let f = s.found in cc in
    let same = find_transaction-id k db.transactions m found in
    let returned : invoices_for m (pos (suc n)) first last db ≡ ok cs =
      ap (λ o. unless_unknown o (invoices_for m (pos (suc n)) first last db)) (sym known)
      ∙ ap (λ m. unless_unknown m.counterparty (invoices_for m (pos (suc n)) first last db))
          (sym one)
      ∙ s.returned in
    (
      rw (sym same)
          (invoices_for-offers m n first last db cs before a rest behind returned listed e),
      invoice_candidates-IsExact k (suc n) first last db cs opened h,
    )
