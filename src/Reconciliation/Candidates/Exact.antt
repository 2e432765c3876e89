-- ===== src/Reconciliation/Candidates/Exact.antt =====
-- The windows are the runs of items that add up to the target, all of them and no other.
use mathlib.Core.List.{append-nil, append_assoc}
use finance_reconciliation.Prelude.{
  ℕ, ◌+◌, ◌≡◌, ◌<◌, refl, ap, sym, ◌∙◌, Bool, true, false, List, [], ◌∷◌, ◌++◌, arith, ltb, ◌==◌,
  All, inl, inr, ◌⊎◌, ==_refl, if◌then◌else◌,
}
use finance_reconciliation.Reconciliation.Candidates.Windows.{
  open_sum, Window, visit, contiguous_windows,
}

-- Membership in a list.
abbrev pub Among : {A : Type 0} → A → List A → Type 0
Among a [] = ⊥
Among a (x ∷ xs) = (a ≡ x) ⊎ Among a xs

Among-left : {A : Type 0} (a : A) (xs ys : List A) → Among a xs → Among a (xs ++ ys)
Among-left a [] ys h = absurd h
Among-left a (x ∷ xs) ys (inl e) = inl e
Among-left a (x ∷ xs) ys (inr h) = inr (Among-left a xs ys h)

Among-right : {A : Type 0} (a : A) (xs ys : List A) → Among a ys → Among a (xs ++ ys)
Among-right a [] ys h = h
Among-right a (x ∷ xs) ys h = inr (Among-right a xs ys h)

All-append : {A : Type 0} (P : A → Type 0) (xs ys : List A) → All P xs → All P ys → All P (xs ++ ys)
All-append P [] ys h k = k
All-append P (x ∷ xs) ys (p, h) k = (p, All-append P xs ys h k)

All-left : {A : Type 0} (P : A → Type 0) (xs ys : List A) → All P (xs ++ ys) → All P xs
All-left P [] ys h = tt
All-left P (x ∷ xs) ys (p, h) = (p, All-left P xs ys h)

All-map :
    {A : Type 0} (P Q : A → Type 0) → ((a : A) → P a → Q a) → (xs : List A) → All P xs → All Q xs
All-map P Q f [] h = tt
All-map P Q f (x ∷ xs) (p, h) = (f x p, All-map P Q f xs h)

All-if_hit :
    {A : Type 0} (P : A → Type 0) (hit : Bool) (w : A) (later : List A)
    → (hit ≡ true → P w)
    → All P later
    → All P (if hit then w ∷ later else later)
All-if_hit P true w later p h = (p refl, h)
All-if_hit P false w later p h = h

All-break :
    {A : Type 0} (P : A → Type 0) (stop : Bool) (more : List A)
    → All P more
    → All P (if stop then [] else more)
All-break P true more h = tt
All-break P false more h = h

module _ {A : Type 0} (amount : A → ℕ) where
  open_sum-append :
      (xs ys : List A) → open_sum amount (xs ++ ys) ≡ open_sum amount xs + open_sum amount ys
  open_sum-append [] ys = omega arith
  open_sum-append (x ∷ xs) ys = omega (arith, open_sum-append xs ys)

  -- A window adds up to the target and is a run of the items.
  pub record IsRun (target : ℕ) (items : List A) (w : Window A) : Type 0 where
    pub exact : w.total ≡ target
    pub adds_up : open_sum amount (w.first ∷ w.rest) ≡ target
    pub before : List A
    pub behind : List A
    pub run : items ≡ before ++ (w.first ∷ w.rest) ++ behind

  hit-IsRun :
      {target : ℕ} (first : A) (taken : List A) (total : ℕ) (behind : List A)
      → total ≡ open_sum amount (first ∷ taken)
      → total ≡ target
      → IsRun target
          (first ∷ taken ++ behind)
          (record { first = first; rest = taken; total = total })
  hit-IsRun first taken total behind e hit = record {
    exact = hit;
    adds_up = sym e ∙ hit;
    before = [];
    behind = behind;
    run = refl;
  }

module _ {A : Type 0} (amount : A → ℕ) (target : ℕ) where
  -- What the inner loop yields starts at `first` and adds up to the target.
  visit-IsRun :
      (first : A) (taken : List A) (total : ℕ) (items : List A)
      → total ≡ open_sum amount (first ∷ taken)
      → All
          (IsRun amount target (first ∷ taken ++ items))
          (visit amount target first taken total items)
  unfolding visit
  visit-IsRun first taken total [] e =
      All-if_hit _ (total == target) _ []
        (λ hit. hit-IsRun amount first taken total [] e (ground arith)) tt
  visit-IsRun first taken total (y ∷ ys) e =
      let here = append_assoc taken (y ∷ []) ys in
      let later =
        visit-IsRun first (taken ++ y ∷ []) (total + amount y) ys
          (omega (arith, e, open_sum-append amount taken (y ∷ []))) in
      All-if_hit _ (total == target) _ _
        (λ hit. hit-IsRun amount first taken total (y ∷ ys) e (ground arith))
        (All-break _ (ltb target total) _ (rw here at later))

  -- A run of the items behind the first is a run of all of them.
  longer :
      (x : A) (items : List A) (w : Window A)
      → IsRun amount target items w
      → IsRun amount target (x ∷ items) w
  longer x items w h = record {
    exact = h.exact;
    adds_up = h.adds_up;
    before = x ∷ h.before;
    behind = h.behind;
    run = ap (λ ys. x ∷ ys) h.run;
  }

  -- Every window that `contiguous_windows` yields is a run of the items that adds up to the target.
  pub contiguous_windows-IsRun :
      (items : List A) → All (IsRun amount target items) (contiguous_windows amount target items)
  unfolding contiguous_windows
  contiguous_windows-IsRun [] = tt
  contiguous_windows-IsRun (x ∷ xs) =
      All-append _ (visit amount target x [] (amount x) xs) _
        (visit-IsRun x [] (amount x) xs (omega arith))
        (All-map _ _ (longer x xs) _ (contiguous_windows-IsRun xs))

  abbrev pub window : A → List A → Window A
  window first rest = record { first = first; rest = rest; total = target }

  hit-Among :
      (first : A) (taken : List A) (total : ℕ) (later : List (Window A))
      → total ≡ target
      → Among (window first taken) (
          if total == target
          then record { first = first; rest = taken; total = total } ∷ later
          else later)
  hit-Among first taken total later hit = rw hit (rw (==_refl target) (inl refl))

  miss-Among :
      (w : Window A) (first : A) (taken : List A) (total : ℕ) (more : List (Window A))
      → total < target
      → Among w more
      → Among w (
          if total == target
          then record { first = first; rest = taken; total = total }
            ∷ (if ltb target total then [] else more)
          else if ltb target total
          then []
          else more)
  miss-Among w first taken total more below h =
      let differs : (total == target) ≡ false = ground arith in
      let goes_on : ltb target total ≡ false = ground arith in rw (differs, goes_on) h

  visit-Among :
      (first : A) (taken : List A) (total : ℕ) (run behind : List A)
      → All (λ a. 0 < amount a) run
      → total + open_sum amount run ≡ target
      → Among (window first (taken ++ run)) (visit amount target first taken total (run ++ behind))
  unfolding visit
  visit-Among first taken total [] [] positive e =
      rw (append-nil taken) (hit-Among first taken total [] (omega (arith, e)))
  visit-Among first taken total [] (y ∷ behind) positive e =
      rw (append-nil taken) (hit-Among first taken total _ (omega (arith, e)))
  visit-Among first taken total (y ∷ run) behind (above, positive) e =
      let here = append_assoc taken (y ∷ []) run in
      let further =
        visit-Among first (taken ++ y ∷ []) (total + amount y) run behind positive
          (omega (arith, e)) in
      miss-Among _ first taken total _ (omega (arith, e, above)) (rw here at further)

  -- Where every item has something open, every run of them that adds up to the target is a window that
  -- `contiguous_windows` yields.
  pub contiguous_windows-Among :
      (before : List A) (first : A) (rest behind : List A)
      → All (λ a. 0 < amount a) (before ++ (first ∷ rest) ++ behind)
      → open_sum amount (first ∷ rest) ≡ target
      → Among
          (window first rest)
          (contiguous_windows amount target (before ++ (first ∷ rest) ++ behind))
  unfolding contiguous_windows
  contiguous_windows-Among [] first rest behind (above, positive) e =
      Among-left _ (visit amount target first [] (amount first) (rest ++ behind)) _
        (visit-Among first [] (amount first) rest behind (All-left _ rest behind positive) e)
  contiguous_windows-Among (x ∷ before) first rest behind (above, positive) e =
      Among-right _ (visit amount target x [] (amount x) _) _
        (contiguous_windows-Among before first rest behind positive e)
