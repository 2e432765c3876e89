-- ===== src/Accounts/Lines.antt =====
-- `readline` and the end of a line, as `_read_one_stdin_password_line` of apps/accounts/bootstrap.py takes
-- it off.
use finance_reconciliation.Prelude.{
  ℕ, zero, suc, ◌≡◌, ◌≤◌, ◌<◌, refl, ap, ◌⊎◌, inl, inr, Bool, false, [], ◌∷◌, ◌++◌, arith, any,
  length, ◌==◌, ==_iff, Bool-cases,
}
use finance_reconciliation.Prelude.Text.{Text}
use finance_reconciliation.Accounts.Password.{read_line, without_end}

abbrev pub has_newline : Text → Bool
has_newline text = any (λ c. c == 10) text

abbrev pub ends_with_return : Text → Bool
ends_with_return [] = false
ends_with_return (c ∷ []) = c == 13
ends_with_return (c ∷ d ∷ text) = ends_with_return (d ∷ text)

-- What `without_end` makes of the three forms of a line.
pub without_end-bare : (p : Text) → has_newline p ≡ false → without_end p ≡ p
unfolding without_end
without_end-bare [] h = refl
without_end-bare (c ∷ []) h = ground (arith, h)
without_end-bare (c ∷ d ∷ []) h = ground (arith, h)
without_end-bare (c ∷ d ∷ e ∷ p) h =
    ap (λ (t : Text). c ∷ t) (without_end-bare (d ∷ e ∷ p) (ground (arith, h)))

pub without_end-newline : (p : Text) → ends_with_return p ≡ false → without_end (p ++ 10 ∷ []) ≡ p
unfolding without_end
without_end-newline [] h = refl
without_end-newline (c ∷ []) h = ground (arith, h)
without_end-newline (c ∷ d ∷ []) h = ap (λ (t : Text). c ∷ t) (without_end-newline (d ∷ []) h)
without_end-newline (c ∷ d ∷ e ∷ p) h = ap (λ (t : Text). c ∷ t) (without_end-newline (d ∷ e ∷ p) h)

pub without_end-return : (p : Text) → without_end (p ++ 13 ∷ 10 ∷ []) ≡ p
unfolding without_end
without_end-return [] = refl
without_end-return (c ∷ []) = refl
without_end-return (c ∷ d ∷ []) = ap (λ (t : Text). c ∷ t) (without_end-return (d ∷ []))
without_end-return (c ∷ d ∷ e ∷ p) = ap (λ (t : Text). c ∷ t) (without_end-return (d ∷ e ∷ p))

-- The line that `readline` returns is the input, and ends at its first `\n`.
pub read_line-append :
    (n : ℕ) (input : Text) → (read_line n input).0 ++ (read_line n input).1 ≡ input
unfolding read_line
read_line-append zero input = refl
read_line-append (suc n) [] = refl
read_line-append (suc n) (c ∷ input) = elim (Bool-cases (c == 10)) [
  | inl end ↦ rw end refl
  | inr other ↦ rw other (ap (λ (rest : Text). c ∷ rest) (read_line-append n input))
]

-- A text with no `\n`, or with one at its end.
abbrev pub IsLine : Text → Type 0
IsLine line = (q : Text) × (has_newline q ≡ false) × ((line ≡ q) ⊎ (line ≡ q ++ 10 ∷ []))

IsLine-more : (c : ℕ) (line : Text) → (c == 10) ≡ false → IsLine line → IsLine (c ∷ line)
IsLine-more c line h (q, clean, inl e) = (c ∷ q, rw h clean, inl (ap (λ (t : Text). c ∷ t) e))
IsLine-more c line h (q, clean, inr e) = (c ∷ q, rw h clean, inr (ap (λ (t : Text). c ∷ t) e))

pub read_line-IsLine : (n : ℕ) (input : Text) → IsLine (read_line n input).0
unfolding read_line
read_line-IsLine zero input = ([], refl, inl refl)
read_line-IsLine (suc n) [] = ([], refl, inl refl)
read_line-IsLine (suc n) (c ∷ input) = elim (Bool-cases (c == 10)) [
  | inl end ↦ rw end ([], refl, inr (ap (λ (c : ℕ). c ∷ []) ((==_iff c 10).0 end)))
  | inr other ↦ rw other (IsLine-more c _ other (read_line-IsLine n input))
]

-- Enough characters read all of a line.
pub read_line-bare :
    (n : ℕ) (p : Text) → has_newline p ≡ false → length p ≤ n → read_line n p ≡ (p, [])
unfolding read_line
read_line-bare zero [] h k = refl
read_line-bare zero (c ∷ p) h k = absurd (omega (arith, k))
read_line-bare (suc n) [] h k = refl
read_line-bare (suc n) (c ∷ p) h k =
    let rest = read_line-bare n p (ground (arith, h)) (omega (arith, k)) in
    let other : (c == 10) ≡ false = ground (arith, h) in rw (other, rest) refl

pub read_line-newline :
    (n : ℕ) (p : Text)
    → has_newline p ≡ false
    → length p < n
    → read_line n (p ++ 10 ∷ []) ≡ (p ++ 10 ∷ [], [])
unfolding read_line
read_line-newline zero p h k = absurd (omega (arith, k))
read_line-newline (suc n) [] h k = refl
read_line-newline (suc n) (c ∷ p) h k =
    let rest = read_line-newline n p (ground (arith, h)) (omega (arith, k)) in
    let other : (c == 10) ≡ false = ground (arith, h) in rw (other, rest) refl
