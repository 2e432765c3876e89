-- ===== src/Imports/Confirm/AccountEntries.antt =====
-- One turn of the loop of `_create_balance_snapshots` of apps/imports/services.py, as it is for the entry
-- of one account.
use finance_reconciliation.Prelude.{
  ℕ, ◌≡◌, refl, ◌⊎◌, inl, inr, Bool, true, false, not, ◌&&◌, ◌||◌, ltb, leb, Option, none, some,
  List, [], ◌∷◌, arith, find, ◌==◌, ==_iff, ==_refl, Member, Bool-cases, if◌then◌else◌,
}
use finance_reconciliation.Imports.Confirm.Snapshots.{Latest, supersedes, keep_latest}

abbrev latest_of : Latest → Option Latest → Option Latest
latest_of c none = some c
latest_of c (some p) = if supersedes c p then some c else some p

-- The entry of an account after a candidate.
abbrev pub after_candidate : ℕ → Option Latest → Option Latest → Option Latest
after_candidate account none o = o
after_candidate account (some c) o = if c.account == account then latest_of c o else o

abbrev pub entry_of : ℕ → List Latest → Option Latest
entry_of account entries = find (λ e. e.account == account) entries

pub entry_of-keep_latest :
    (account : ℕ) (c : Latest) (entries : List Latest)
    → entry_of account (keep_latest c entries)
      ≡ after_candidate account (some c) (entry_of account entries)
entry_of-keep_latest account c [] = refl
entry_of-keep_latest account c (e ∷ entries) =
    go (c.account == e.account) (e.account == account) (supersedes c e) refl refl refl
      (entry_of-keep_latest account c entries)
  where
    c_is :
        (account : ℕ) (mine : Bool)
        → (c.account == e.account) ≡ true
        → (e.account == account) ≡ mine
        → (c.account == account) ≡ mine
    c_is account mine s n = rw ((==_iff c.account e.account).0 s) n

    c_is_not :
        (account : ℕ)
        → (c.account == e.account) ≡ false
        → (e.account == account) ≡ true
        → (c.account == account) ≡ false
    c_is_not account s n = ground (arith, s, n)

    rest : Option Latest
    rest = entry_of account entries

    go :
        (same mine newer : Bool)
        → (c.account == e.account) ≡ same
        → (e.account == account) ≡ mine
        → supersedes c e ≡ newer
        → entry_of account (keep_latest c entries) ≡ after_candidate account (some c) rest
        → entry_of account (
            if same
            then (if newer then c ∷ entries else e ∷ entries)
            else e ∷ keep_latest c entries)
          ≡ (if c.account == account
              then latest_of c (if mine then some e else rest)
              else if mine
              then some e
              else rest)
    go true true true s n k ih = rw (c_is account true s n, k) refl
    go true true false s n k ih = rw (c_is account true s n, n, k) refl
    go true false true s n k ih = rw (c_is account false s n) refl
    go true false false s n k ih = rw (c_is account false s n, n) refl
    go false true newer s n k ih = rw (c_is_not account s n, n) refl
    go false false newer s n k ih = rw n ih

-- A candidate is of another account, or of an earlier instant, or of the same instant and no earlier
-- row.
abbrev pub stays : Latest → Option Latest → Bool
stays e none = true
stays e (some c) =
    not (c.account == e.account)
    || (ltb c.occurred_at e.occurred_at
        || c.occurred_at == e.occurred_at && leb e.row_number c.row_number)

-- The entry of an account has that account.
abbrev pub OfAccount : ℕ → Option Latest → Type 0
OfAccount account none = Unit {0}
OfAccount account (some e) = e.account ≡ account

-- A turn goes on with the entry or the candidate, whichever is later.
pub record Turned (account : ℕ) (oc o : Option Latest) (e : Latest) : Type 0 where
  pub same : e.account ≡ account
  pub kept : stays e o ≡ true
  pub passed : stays e oc ≡ true

pub after_candidate-OfAccount :
    (account : ℕ) (oc o : Option Latest)
    → OfAccount account o
    → OfAccount account (after_candidate account oc o)
after_candidate-OfAccount account none o h = h
after_candidate-OfAccount account (some c) o h =
    go o h (c.account == account) (λ e. (==_iff c.account account).0 e)
  where
    go :
        (o : Option Latest)
        → OfAccount account o
        → (mine : Bool) → (mine ≡ true → c.account ≡ account)
        → OfAccount account (if mine then latest_of c o else o)
    go o h false k = h
    go none h true k = k refl
    go (some p) h true k =
        (elim (supersedes c p) as (λ b. OfAccount account (if b then some c else some p)) [
          | true ↦ k refl
          | false ↦ h
        ])

-- What stays after the turn stayed before it, and the candidate is not later.
pub after_candidate-Turned :
    (account : ℕ) (oc o : Option Latest) (e : Latest)
    → OfAccount account o
    → e.account ≡ account
    → stays e (after_candidate account oc o) ≡ true
    → Turned account oc o e
after_candidate-Turned account none o e mine same h = record {
  same = same;
  kept = h;
  passed = refl;
}
after_candidate-Turned account (some c) none e mine same h = record {
  same = same;
  kept = refl;
  passed = ground (arith, h, same);
}
after_candidate-Turned account (some c) (some p) e mine same h = record {
  same = same;
  kept = ground (arith, h, same, mine);
  passed = ground (arith, h, same, mine);
}

pub after_candidate-from :
    (account : ℕ) (oc o : Option Latest) (e : Latest)
    → after_candidate account oc o ≡ some e
    → (o ≡ some e) ⊎ (oc ≡ some e)
after_candidate-from account none o e h = inl h
after_candidate-from account (some c) none e h = ground (arith, h)
after_candidate-from account (some c) (some p) e h = ground (arith, h)

pub after_candidate-some :
    (account : ℕ) (oc : Option Latest) (p : Latest)
    → (q : Latest) × (after_candidate account oc (some p) ≡ some q)
after_candidate-some account none p = (p, refl)
after_candidate-some account (some c) p = elim (Bool-cases (c.account == account)) [
  | inr other ↦ (p, rw other refl)
  | inl mine ↦ elim (Bool-cases (supersedes c p)) [
    | inl newer ↦ (c, rw (mine, newer) refl)
    | inr older ↦ (p, rw (mine, older) refl)
  ]
]

pub after_candidate-mine :
    (account : ℕ) (c : Latest) (o : Option Latest)
    → c.account ≡ account
    → (q : Latest) × (after_candidate account (some c) o ≡ some q)
after_candidate-mine account c none mine = (c, rw (mine, ==_refl account) refl)
after_candidate-mine account c (some p) mine = after_candidate-some account (some c) p

pub find-Member :
    {A : Type 0} (p : A → Bool) (xs : List A) (x : A) → find p xs ≡ some x → Member x xs
find-Member p [] x h = cc
find-Member p (y ∷ xs) x h = elim (Bool-cases (p y)) [
  | inl hit ↦ inl (ground (arith, hit, h))
  | inr miss ↦ inr (find-Member p xs x (ground (arith, miss, h)))
]
