-- ===== src/Imports/Confirm/Balances.antt =====
-- The balance snapshots that `confirm_batch` of apps/imports/services.py leaves: the latest balance of
-- every account of a bank statement.
use finance_reconciliation.Prelude.{
  ℕ, ◌≡◌, refl, ◌⊎◌, inl, inr, Bool, true, Option, none, some, List, [], ◌∷◌, ◌++◌, find, arith,
  ==_refl, sym, subst, Member, Prefix, Prefix-refl, Prefix-trans, Prefix-append, Prefix-find,
}
use finance_reconciliation.Prelude.Int.{ℤ}
use finance_reconciliation.Imports.Rows.{ImportBatch, as_decimal}
use finance_reconciliation.Imports.Tables.{
  ok, guard, or_raise, >>=-eq-ok, >>-eq-ok, guard-eq-ok, or_raise-eq-ok, ok-injective,
  snapshot_conflict, data_error, AccountBalanceSnapshot, Surroundings,
}
use finance_reconciliation.Imports.Confirm.Snapshots.{
  Latest, is_balance, is_snapshot_at, snapshot_of, same_balance, insert_snapshot, unless_existing,
  create_balance_snapshot, create_each,
}

-- The snapshot of an entry: its balance is the one that the entry has, or the cents that the database
-- keeps of that.
pub record HasSnapshot (w : Surroundings) (e : Latest) (snapshots : List AccountBalanceSnapshot)
    : Type 0 where
  pub snapshot : AccountBalanceSnapshot
  pub found : find (is_snapshot_at e) snapshots ≡ some snapshot
  pub balance :
      (is_balance snapshot.balance (as_decimal e.balance) ≡ true)
      ⊎ (w.column e.balance ≡ some snapshot.balance)

HasSnapshot-Prefix :
    (w : Surroundings) (e : Latest) (xs ys : List AccountBalanceSnapshot)
    → Prefix xs ys
    → HasSnapshot w e xs
    → HasSnapshot w e ys
HasSnapshot-Prefix w e xs ys p h = record {
  snapshot = h.snapshot;
  found = Prefix-find (is_snapshot_at e) xs ys h.snapshot p h.found;
  balance = h.balance;
}

find-append_last :
    {A : Type 0} (p : A → Bool) (xs : List A) (x : A)
    → find p xs ≡ none
    → p x ≡ true
    → find p (xs ++ x ∷ []) ≡ some x
find-append_last p [] x h k = ground arith
find-append_last p (y ∷ xs) x h k = ground (arith, find-append_last p xs x)

-- The other sessions only add snapshots.
pub record KeepsSnapshots (w : Surroundings) : Type 0 where
  pub kept :
      (n : ℕ) (snapshots : List AccountBalanceSnapshot)
      → Prefix snapshots (w.before_snapshot n snapshots)

module _ (w : Surroundings) (batch : ImportBatch) where
  abbrev pub Snaps : Latest → List AccountBalanceSnapshot → List AccountBalanceSnapshot → Type 0
  Snaps e before after = Prefix before after × HasSnapshot w e after

  same_balance-Snaps :
      (e : Latest) (s : AccountBalanceSnapshot) (before after : List AccountBalanceSnapshot)
      → find (is_snapshot_at e) before ≡ some s
      → same_balance w batch e s before ≡ ok after
      → Snaps e before after
  same_balance-Snaps e s before after f h =
      let test = is_balance s.balance (as_decimal e.balance) in
      let (passed, h₁) = >>-eq-ok (guard test snapshot_conflict) _ h in
      subst (Snaps e before) (ok-injective h₁) (
        Prefix-refl before,
        record {
          snapshot = s;
          found = f;
          balance = inl (guard-eq-ok test snapshot_conflict passed);
        },
      )

  insert_snapshot-Snaps :
      (e : Latest) (cents : ℤ) (found : Option AccountBalanceSnapshot)
      (before after : List AccountBalanceSnapshot)
      → w.column e.balance ≡ some cents
      → find (is_snapshot_at e) before ≡ found
      → insert_snapshot w batch e cents found before ≡ ok after
      → Snaps e before after
  insert_snapshot-Snaps e cents none before after k f h = subst (Snaps e before) (ok-injective h) (
    Prefix-append before _,
    record {
      snapshot = snapshot_of batch e cents;
      found =
          find-append_last (is_snapshot_at e) before (snapshot_of batch e cents) f
            (ground (arith, ==_refl e.account, ==_refl e.occurred_at));
      balance = inr k;
    },
  )
  insert_snapshot-Snaps e cents (some s) before after k f h =
      same_balance-Snaps e s before after f h

  unless_existing-Snaps :
      (e : Latest) (found : Option AccountBalanceSnapshot)
      (before after : List AccountBalanceSnapshot)
      → KeepsSnapshots w
      → find (is_snapshot_at e) before ≡ found
      → unless_existing w batch e found before ≡ ok after
      → Snaps e before after
  unless_existing-Snaps e (some s) before after keeps f h = same_balance-Snaps e s before after f h
  unless_existing-Snaps e none before after keeps f h =
      let (cents, k, h₁) = >>=-eq-ok (or_raise (w.column e.balance) data_error) _ h in
      let now = w.before_snapshot e.account before in
      let (grown, snap) =
        insert_snapshot-Snaps e cents (find (is_snapshot_at e) now) now after (or_raise-eq-ok _ _ k)
          refl h₁ in
      (Prefix-trans before now after (keeps.kept e.account before) grown, snap)

  pub create_each-Snaps :
      (entries : List Latest) (before after : List AccountBalanceSnapshot)
      → KeepsSnapshots w
      → create_each w batch entries before ≡ ok after
      → Prefix before after × ((e : Latest) → Member e entries → HasSnapshot w e after)
  unfolding create_each create_balance_snapshot
  create_each-Snaps [] before after keeps h =
      (subst (Prefix before) (ok-injective h) (Prefix-refl before), λ e m. absurd m)
  create_each-Snaps (e ∷ entries) before after keeps h =
      let (between, f, h₁) =
        >>=-eq-ok (unless_existing w batch e (find (is_snapshot_at e) before) before) _ h in
      let (grown, snap) =
        unless_existing-Snaps e (find (is_snapshot_at e) before) before between keeps refl f in
      let (more, rest) = create_each-Snaps entries between after keeps h₁ in
      (
        Prefix-trans before between after grown more,
        λ d m. elim m [
          | inl here ↦
              subst (λ (d : Latest). HasSnapshot w d after) (sym here)
                (HasSnapshot-Prefix w e between after more snap)
          | inr later ↦ rest d later
        ],
      )
