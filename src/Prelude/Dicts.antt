-- ===== src/Prelude/Dicts.antt =====
-- A Python dict keyed by identifiers, in insertion order, and the `defaultdict` of running totals.
use Prim.Native.Nat.{ℕ, ◌+◌}
use mathlib.Core.Path.{◌≡◌}
use mathlib.Core.Option.{Option, none, some}
use mathlib.Core.List.{List, [], ◌∷◌}
use native.Mathlib.Omega.{arith}
use finance_reconciliation.Prelude.Tests.{◌==◌, if◌then◌else◌}

abbrev pub Dict {ℓ} : Type ℓ → Type ℓ
Dict V = List (ℕ × V)

module _ {ℓ} {V : Type ℓ} where
  abbrev pub keys : Dict V → List ℕ
  keys [] = []
  keys (entry ∷ d) = entry.0 ∷ keys d

  abbrev pub lookup : ℕ → Dict V → Option V
  lookup k [] = none
  lookup k ((key, value) ∷ d) = let later = lookup k d in if k == key then some value else later

-- `totals[k] += v` on a `defaultdict` of zeros.
abbrev pub add_to : ℕ → ℕ → Dict ℕ → Dict ℕ
add_to k v [] = (k, v) ∷ []
add_to k v ((j, w) ∷ d) =
    let rest = add_to k v d in if k == j then (j, w + v) ∷ d else (j, w) ∷ rest

abbrev pub or_zero : Option ℕ → ℕ
or_zero none = 0
or_zero (some n) = n

abbrev pub total_of : ℕ → Dict ℕ → ℕ
total_of k d = or_zero (lookup k d)

pub total_of-add_to :
    (k j v : ℕ) (d : Dict ℕ) → total_of j (add_to k v d) ≡ total_of j d + (if k == j then v else 0)
total_of-add_to k j v [] = ground arith
total_of-add_to k j v ((i, w) ∷ d) = ground (arith, total_of-add_to k j v d)
