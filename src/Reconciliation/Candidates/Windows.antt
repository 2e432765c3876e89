-- ===== src/Reconciliation/Candidates/Windows.antt =====
-- `_contiguous_windows`. The amounts are those that are open, in cents; the callers pass those above
-- zero only.
use finance_reconciliation.Prelude.{ℕ, ◌+◌, List, [], ◌∷◌, ◌++◌, ltb, ◌==◌, if◌then◌else◌}

-- What is open of a list of items.
abbrev pub open_sum : {A : Type 0} → (A → ℕ) → List A → ℕ
open_sum amount [] = 0
open_sum amount (x ∷ xs) = amount x + open_sum amount xs

-- A run of items that follow one another, with what is open of them.
pub record Window (A : Type 0) : Type 0 where
  pub first : A
  pub rest : List A
  pub total : ℕ

module _ {A : Type 0} (amount : A → ℕ) (target : ℕ) where
  -- The inner loop, once `total` has the items from `first` to the last of `taken`.
  unfoldable pub visit : A → List A → ℕ → List A → List (Window A)
  visit first taken total [] =
      if total == target then record { first = first; rest = taken; total = total } ∷ [] else []
  visit first taken total (y ∷ ys) =
      let more = visit first (taken ++ y ∷ []) (total + amount y) ys in
      let later = if ltb target total then [] else more in
      if total == target
      then record { first = first; rest = taken; total = total } ∷ later
      else later

  -- `_contiguous_windows`
  unfoldable pub contiguous_windows : List A → List (Window A)
  contiguous_windows [] = []
  contiguous_windows (x ∷ xs) = visit x [] (amount x) xs ++ contiguous_windows xs
