-- ===== src/Reporting/Sorting.antt =====
-- Lists that are filtered, sorted or summed up, for the queries of apps/reporting.
use finance_reconciliation.Prelude.{
  ℕ, ◌+◌, ◌≡◌, refl, sym, ap, ◌∙◌, ◌⊎◌, inl, inr, Bool, true, false, ◌||◌, List, [], ◌∷◌, ◌++◌, map,
  select, any, sum_where, arith, All, Member, Bool-cases, if◌then◌else◌,
}
use finance_reconciliation.Reporting.Suppliers.{insert_by, sort_by}

abbrev pub sum_by : {A : Type 0} → (A → ℕ) → List A → ℕ
sum_by f [] = 0
sum_by f (x ∷ xs) = f x + sum_by f xs

module _ {A : Type 0} where
  pub sum_by-append : (f : A → ℕ) (xs ys : List A) → sum_by f (xs ++ ys) ≡ sum_by f xs + sum_by f ys
  sum_by-append f [] ys = omega arith
  sum_by-append f (x ∷ xs) ys = omega (arith, sum_by-append f xs ys)

  sum_by-insert_by :
      (f : A → ℕ) (before : A → A → Bool) (x : A) (xs : List A)
      → sum_by f (insert_by before x xs) ≡ f x + sum_by f xs
  sum_by-insert_by f before x [] = refl
  sum_by-insert_by f before x (y ∷ ys) = ground (arith, sum_by-insert_by f before x ys)

  pub sum_by-sort_by :
      (f : A → ℕ) (before : A → A → Bool) (xs : List A) → sum_by f (sort_by before xs) ≡ sum_by f xs
  sum_by-sort_by f before [] = refl
  sum_by-sort_by f before (x ∷ xs) =
      omega (arith, sum_by-insert_by f before x (sort_by before xs), sum_by-sort_by f before xs)

  pub sum_by-select :
      (f : A → ℕ) (p : A → Bool) (xs : List A) → sum_by f (select p xs) ≡ sum_where p f xs
  sum_by-select f p [] = refl
  sum_by-select f p (x ∷ xs) = ground (arith, sum_by-select f p xs)

  pub sum_by-map :
      {B : Type 0} (f : B → ℕ) (g : A → B) (xs : List A)
      → sum_by f (map g xs) ≡ sum_by (λ x. f (g x)) xs
  sum_by-map f g [] = refl
  sum_by-map f g (x ∷ xs) = omega (arith, sum_by-map f g xs)

  All-insert_by :
      (P : A → Type 0) (before : A → A → Bool) (x : A) (xs : List A)
      → P x
      → All P xs
      → All P (insert_by before x xs)
  All-insert_by P before x [] h hs = (h, tt)
  All-insert_by P before x (y ∷ ys) h (k, ks) = go (before x y) (All-insert_by P before x ys h ks)
    where
      go :
          (first : Bool)
          → All P (insert_by before x ys)
          → All P (if first then x ∷ y ∷ ys else y ∷ insert_by before x ys)
      go true rest = (h, (k, ks))
      go false rest = (k, rest)

  pub All-sort_by :
      (P : A → Type 0) (before : A → A → Bool) (xs : List A) → All P xs → All P (sort_by before xs)
  All-sort_by P before [] h = tt
  All-sort_by P before (x ∷ xs) (h, hs) =
      All-insert_by P before x (sort_by before xs) h (All-sort_by P before xs hs)

pub All-select : {A : Type 0} (p : A → Bool) (xs : List A) → All (λ x. p x ≡ true) (select p xs)
All-select p [] = tt
All-select p (x ∷ xs) = go (p x) refl (All-select p xs)
  where
    go :
        (taken : Bool)
        → p x ≡ taken
        → All (λ x. p x ≡ true) (select p xs)
        → All (λ x. p x ≡ true) (if taken then x ∷ select p xs else select p xs)
    go true e rest = (e, rest)
    go false e rest = rest

pub All-map :
    {A B : Type 0} (P : A → Type 0) (Q : B → Type 0) (f : A → B) (xs : List A)
    → ((x : A) → P x → Q (f x))
    → All P xs
    → All Q (map f xs)
All-map P Q f [] step h = tt
All-map P Q f (x ∷ xs) step (h, hs) = (step x h, All-map P Q f xs step hs)

pub All-++ : {A : Type 0} (P : A → Type 0) (xs ys : List A) → All P xs → All P ys → All P (xs ++ ys)
All-++ P [] ys h k = k
All-++ P (x ∷ xs) ys (h, hs) k = (h, All-++ P xs ys hs k)

pub All-step :
    {A : Type 0} (P Q : A → Type 0) (xs : List A) → ((x : A) → P x → Q x) → All P xs → All Q xs
All-step P Q [] step h = tt
All-step P Q (x ∷ xs) step (h, hs) = (step x h, All-step P Q xs step hs)

-- What is selected has what all had, and passes the test.
pub All-select_both :
    {A : Type 0} (P : A → Type 0) (p : A → Bool) (xs : List A)
    → All P xs
    → All (λ x. P x × (p x ≡ true)) (select p xs)
All-select_both P p [] h = tt
All-select_both P p (x ∷ xs) (h, hs) = go (p x) refl (All-select_both P p xs hs)
  where
    go :
        (taken : Bool)
        → p x ≡ taken
        → All (λ x. P x × (p x ≡ true)) (select p xs)
        → All (λ x. P x × (p x ≡ true)) (if taken then x ∷ select p xs else select p xs)
    go true e rest = ((h, e), rest)
    go false e rest = rest

-- Nothing passes the test, if what passes is nothing.
pub select-none :
    {A : Type 0} (p : A → Bool) (xs : List A) (x : A) → select p xs ≡ [] → Member x xs → p x ≡ false
select-none p [] x none_left m = absurd m
select-none p (y ∷ xs) x none_left m = elim (Bool-cases (p y)) [
  | inl passes ↦ let taken : y ∷ select p xs ≡ [] = rw passes at none_left in cc
  | inr fails ↦
      let rest : select p xs ≡ [] = rw fails at none_left in
      elim m [ inl e ↦ ap p e ∙ fails | inr later ↦ select-none p xs x rest later ]
]

pub Member-++ :
    {A : Type 0} (xs ys : List A) (x : A) → Member x xs ⊎ Member x ys → Member x (xs ++ ys)
Member-++ [] ys x (inr m) = m
Member-++ [] ys x (inl m) = absurd m
Member-++ (z ∷ xs) ys x (inl (inl e)) = inl e
Member-++ (z ∷ xs) ys x (inl (inr m)) = inr (Member-++ xs ys x (inl m))
Member-++ (z ∷ xs) ys x (inr m) = inr (Member-++ xs ys x (inr m))

pub Member-select :
    {A : Type 0} (q : A → Bool) (xs : List A) (x : A)
    → Member x xs
    → q x ≡ true
    → Member x (select q xs)
Member-select q [] x m h = absurd m
Member-select q (y ∷ xs) x (inl e) h =
    let passes : q y ≡ true = ap q (sym e) ∙ h in rw passes (inl e)
Member-select q (y ∷ xs) x (inr m) h = go (q y) (Member-select q xs x m h)
  where
    go :
        (taken : Bool)
        → Member x (select q xs)
        → Member x (if taken then y ∷ select q xs else select q xs)
    go true rest = inr rest
    go false rest = rest

module _ {A : Type 0} (before : A → A → Bool) where
  Member-insert_by :
      (y : A) (xs : List A) (x : A) → (x ≡ y) ⊎ Member x xs → Member x (insert_by before y xs)
  Member-insert_by y [] x (inl e) = inl e
  Member-insert_by y [] x (inr m) = absurd m
  Member-insert_by y (z ∷ xs) x m = go (before y z) m (Member-insert_by y xs x)
    where
      go :
          (first : Bool)
          → (x ≡ y) ⊎ Member x (z ∷ xs)
          → ((x ≡ y) ⊎ Member x xs → Member x (insert_by before y xs))
          → Member x (if first then y ∷ z ∷ xs else z ∷ insert_by before y xs)
      go true among rest = among
      go false (inl e) rest = inr (rest (inl e))
      go false (inr (inl e)) rest = inl e
      go false (inr (inr later)) rest = inr (rest (inr later))

  pub Member-sort_by : (xs : List A) (x : A) → Member x xs → Member x (sort_by before xs)
  Member-sort_by [] x m = absurd m
  Member-sort_by (y ∷ xs) x (inl e) = Member-insert_by y (sort_by before xs) x (inl e)
  Member-sort_by (y ∷ xs) x (inr m) =
      Member-insert_by y (sort_by before xs) x (inr (Member-sort_by xs x m))

  any-insert_by :
      (q : A → Bool) (y : A) (xs : List A) → any q (insert_by before y xs) ≡ (q y || any q xs)
  any-insert_by q y [] = refl
  any-insert_by q y (z ∷ xs) = ground (arith, any-insert_by q y xs)

  pub any-sort_by : (q : A → Bool) (xs : List A) → any q (sort_by before xs) ≡ any q xs
  any-sort_by q [] = refl
  any-sort_by q (x ∷ xs) =
      any-insert_by q x (sort_by before xs) ∙ ap (λ (b : Bool). q x || b) (any-sort_by q xs)

pub any-select :
    {A : Type 0} (q kept : A → Bool) (xs : List A) → any q (select kept xs) ≡ true → any q xs ≡ true
any-select q kept [] h = cc
any-select q kept (x ∷ xs) h = ground (arith, h, any-select q kept xs)
