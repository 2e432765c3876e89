-- ===== src/Prelude/Lists.antt =====
-- Lists measured by native numbers, and the searches that a query makes, with Boolean tests.
use Prim.Native.Nat.{ℕ, suc, ◌+◌}
use mathlib.Core.Path.{◌≡◌, refl, sym, ap, ◌∙◌, subst}
use mathlib.Core.Logic.{◌⊎◌, inl, inr}
use mathlib.Core.Bool.{Bool, true, false, ◌&&◌, ◌||◌}
use mathlib.Core.List.{List, [], ◌∷◌, ◌++◌}
use mathlib.Core.Option.{Option, none, some}
use native.Mathlib.Omega.{arith}
use finance_reconciliation.Prelude.Tests.{◌==◌, if◌then◌else◌}

module _ {ℓ} {A : Type ℓ} where
  abbrev pub length : List A → ℕ
  length [] = 0
  length (x ∷ xs) = suc (length xs)

  pub length-append : (xs ys : List A) → length (xs ++ ys) ≡ length xs + length ys
  length-append [] ys = omega arith
  length-append (x ∷ xs) ys = omega (arith, length-append xs ys)

  -- The rows that pass a test, in order.
  abbrev pub select : (A → Bool) → List A → List A
  select p [] = []
  select p (x ∷ xs) = let rest = select p xs in if p x then x ∷ rest else rest

  -- The first row that passes a test.
  abbrev pub find : (A → Bool) → List A → Option A
  find p [] = none
  find p (x ∷ xs) = let rest = find p xs in if p x then some x else rest

  abbrev pub any : (A → Bool) → List A → Bool
  any p [] = false
  any p (x ∷ xs) = p x || any p xs

  abbrev pub all : (A → Bool) → List A → Bool
  all p [] = true
  all p (x ∷ xs) = p x && all p xs

  -- The sum of a column over the rows that pass a test.
  abbrev pub sum_where : (A → Bool) → (A → ℕ) → List A → ℕ
  sum_where p f [] = 0
  sum_where p f (x ∷ xs) = (if p x then f x else 0) + sum_where p f xs

  pub sum_where-append :
      (p : A → Bool) (f : A → ℕ) (xs ys : List A)
      → sum_where p f (xs ++ ys) ≡ sum_where p f xs + sum_where p f ys
  sum_where-append p f [] ys = omega arith
  sum_where-append p f (x ∷ xs) ys = omega (arith, sum_where-append p f xs ys)

  -- A predicate of every member.
  abbrev pub All {κ} : (A → Type κ) → List A → Type κ
  All P [] = Unit
  All P (x ∷ xs) = P x × All P xs

module _ {A : Type 0} where
  abbrev pub Member : A → List A → Type 0
  Member x [] = ⊥
  Member x (y ∷ ys) = (x ≡ y) ⊎ Member x ys

  pub All-Member {κ} : (P : A → Type κ) (xs : List A) (x : A) → All P xs → Member x xs → P x
  All-Member P [] x h m = absurd m
  All-Member P (y ∷ xs) x (h, hs) (inl e) = subst P (sym e) h
  All-Member P (y ∷ xs) x (h, hs) (inr m) = All-Member P xs x hs m

  -- The second list begins with the first.
  abbrev pub Prefix : List A → List A → Type 0
  Prefix [] ys = Unit
  Prefix (x ∷ xs) [] = ⊥
  Prefix (x ∷ xs) (y ∷ ys) = (y ≡ x) × Prefix xs ys

  pub Prefix-refl : (xs : List A) → Prefix xs xs
  Prefix-refl [] = tt
  Prefix-refl (x ∷ xs) = (refl, Prefix-refl xs)

  pub Prefix-trans : (xs ys zs : List A) → Prefix xs ys → Prefix ys zs → Prefix xs zs
  Prefix-trans [] ys zs a b = tt
  Prefix-trans (x ∷ xs) [] zs a b = absurd a
  Prefix-trans (x ∷ xs) (y ∷ ys) [] a b = absurd b
  Prefix-trans (x ∷ xs) (y ∷ ys) (z ∷ zs) (a, as') (b, bs) = (b ∙ a, Prefix-trans xs ys zs as' bs)

  pub Prefix-append : (xs ys : List A) → Prefix xs (xs ++ ys)
  Prefix-append [] ys = tt
  Prefix-append (x ∷ xs) ys = (refl, Prefix-append xs ys)

  pub Prefix-any :
      (p : A → Bool) (xs ys : List A) → Prefix xs ys → any p xs ≡ true → any p ys ≡ true
  Prefix-any p [] ys k h = cc
  Prefix-any p (x ∷ xs) [] k h = absurd k
  Prefix-any p (x ∷ xs) (y ∷ ys) (s, k) h =
      let same : p y ≡ p x = ap p s in ground (arith, same, Prefix-any p xs ys k)

  pub Prefix-find :
      (p : A → Bool) (xs ys : List A) (found : A)
      → Prefix xs ys
      → find p xs ≡ some found
      → find p ys ≡ some found
  Prefix-find p [] ys found k h = cc
  Prefix-find p (x ∷ xs) [] found k h = absurd k
  Prefix-find p (x ∷ xs) (y ∷ ys) found (s, k) h =
      subst (λ (z : A). find p (z ∷ ys) ≡ some found) (sym s)
        (ground (arith, h, Prefix-find p xs ys found k))

-- `k in xs`, for identifiers.
abbrev pub contains : ℕ → List ℕ → Bool
contains k [] = false
contains k (x ∷ xs) = k == x || contains k xs
