-- ===== src/Accounts/OneLine.antt =====
-- `_read_one_stdin_password_line` of apps/accounts/bootstrap.py: the input and the password.
use finance_reconciliation.Prelude.{
  ℕ, ◌+◌, ◌≡◌, ◌↔◌, ◌≤◌, refl, sym, ap, ◌∙◌, ◌⊎◌, inl, inr, true, false, [], ◌∷◌, ◌++◌, arith,
  length, leb, leb→le, ==_iff, Bool-cases, subst,
}
use mathlib.Core.List.{append-nil, append_assoc}
use finance_reconciliation.Prelude.Text.{Text, is_empty}
use finance_reconciliation.Prelude.Outcome.{
  Outcome, ok, guard, ◌>>◌, guard-eq-ok, >>-eq-ok, ok-injective,
}
use finance_reconciliation.Accounts.Password.{
  PasswordFailure, too_long, not_one_line, max_bytes, encoded_length, read_line, without_end,
  read_one_line,
}
use finance_reconciliation.Accounts.Lines.{
  IsLine, ends_with_return, has_newline, read_line-IsLine, read_line-append, read_line-bare,
  read_line-newline, without_end-bare, without_end-newline, without_end-return,
}

-- The input is a text with no `\n` and the end of its line: none, `\n` where the text does not end
-- with `\r`, or `\r\n`.
abbrev pub EndsAs : Text → Text → Type 0
EndsAs text input =
    (has_newline text ≡ false)
    × ((input ≡ text)
        ⊎ (((input ≡ text ++ 10 ∷ []) × (ends_with_return text ≡ false))
            ⊎ (input ≡ text ++ 13 ∷ 10 ∷ [])))

-- A text that ends with `\r` is that after another.
ends_with_return-split : (q : Text) → ends_with_return q ≡ true → (p : Text) × (q ≡ p ++ 13 ∷ [])
ends_with_return-split [] h = cc
ends_with_return-split (c ∷ []) h = ([], ap (λ (c : ℕ). c ∷ []) ((==_iff c 13).0 h))
ends_with_return-split (c ∷ d ∷ q) h =
    let (p, e) = ends_with_return-split (d ∷ q) h in (c ∷ p, ap (λ (t : Text). c ∷ t) e)

has_newline-left : (p q : Text) → has_newline (p ++ q) ≡ false → has_newline p ≡ false
has_newline-left [] q h = refl
has_newline-left (c ∷ p) q h = ground (arith, h, has_newline-left p q)

without_end-EndsAs : (line : Text) → IsLine line → EndsAs (without_end line) line
without_end-EndsAs line (q, clean, inl e) = rw (e, without_end-bare q clean) (clean, inl refl)
without_end-EndsAs line (q, clean, inr e) = elim (Bool-cases (ends_with_return q)) [
  | inr other ↦ rw (e, without_end-newline q other) (clean, inr (inl (refl, other)))
  | inl return ↦
      let (p, f) = ends_with_return-split q return in
      let whole : line ≡ p ++ 13 ∷ 10 ∷ [] =
        e ∙ ap (λ (q : Text). q ++ 10 ∷ []) f ∙ append_assoc p (13 ∷ []) (10 ∷ []) in
      rw (whole, without_end-return p)
        (
          has_newline-left p (13 ∷ []) (subst (λ (q : Text). has_newline q ≡ false) f clean),
          inr (inr refl),
        )
]

is_empty-eq : (t : Text) → is_empty t ≡ true → t ≡ []
is_empty-eq [] h = refl
is_empty-eq (c ∷ t) h = cc

length-encoded_length : (p : Text) → length p ≤ encoded_length p
unfolding encoded_length
length-encoded_length [] = omega arith
length-encoded_length (c ∷ p) = ground (arith, length-encoded_length p)

has_newline-return : (p : Text) → has_newline p ≡ false → has_newline (p ++ 13 ∷ []) ≡ false
has_newline-return [] h = refl
has_newline-return (c ∷ p) h = ground (arith, h, has_newline-return p)

length-return : (p : Text) → length (p ++ 13 ∷ []) ≡ length p + 1
length-return [] = refl
length-return (c ∷ p) = let longer = length-return p in omega (arith, longer)

-- The whole of an input that ends as a line is read, and its text is left.
EndsAs-read_line :
    (text input : Text)
    → EndsAs text input
    → length text ≤ max_bytes
    → (read_line (max_bytes + 3) input ≡ (input, [])) × (without_end input ≡ text)
EndsAs-read_line text input (clean, inl e) short =
    rw e (
      read_line-bare (max_bytes + 3) text clean (omega (arith, short)),
      without_end-bare text clean,
    )
EndsAs-read_line text input (clean, inr (inl (e, other))) short = rw e (
  read_line-newline (max_bytes + 3) text clean (omega (arith, short)),
  without_end-newline text other,
)
EndsAs-read_line text input (clean, inr (inr e)) short = rw e (
  rw (sym (append_assoc text (13 ∷ []) (10 ∷ []))) (
      read_line-newline (max_bytes + 3) (text ++ 13 ∷ []) (has_newline-return text clean)
        (let longer = length-return text in omega (arith, short, longer))),
  without_end-return text,
)

-- What is done with the line that was read, and what is left.
abbrev judged : Text × Text → Outcome PasswordFailure Text
judged (line, rest) =
    guard (leb (encoded_length (without_end line)) max_bytes) too_long
    >> (guard (is_empty rest) not_one_line >> ok (without_end line))

judged-ok :
    (input password : Text)
    → without_end input ≡ password
    → encoded_length password ≤ max_bytes
    → judged (input, []) ≡ ok password
judged-ok input password e short =
    let test : leb (encoded_length password) max_bytes ≡ true = ground (arith, short) in
    rw (e, test) refl

-- What `_read_one_stdin_password_line` returns, and when: it returns a text just when the input is
-- that text, with no `\n` in it, and the end of a line or none, where a `\r` before the `\n` is part
-- of the end; and the text has at most 4096 bytes.
pub read_one_line-EndsAs :
    (input password : Text)
    → (read_one_line input ≡ ok password)
      ↔ (EndsAs password input × (encoded_length password ≤ max_bytes))
unfolding read_one_line
read_one_line-EndsAs input password = (
  λ h.
      let line = (read_line (max_bytes + 3) input).0 in
      let rest = (read_line (max_bytes + 3) input).1 in
      let (short, h₁) =
        >>-eq-ok (guard (leb (encoded_length (without_end line)) max_bytes) too_long) _ h in
      let (ended, h₂) = >>-eq-ok (guard (is_empty rest) not_one_line) _ h₁ in
      let fits = leb→le _ _ (guard-eq-ok _ _ short) in
      let all : line ≡ input =
        sym (append-nil line)
        ∙ ap (λ (rest : Text). line ++ rest) (sym (is_empty-eq rest (guard-eq-ok _ _ ended)))
        ∙ read_line-append (max_bytes + 3) input in
      let form = without_end-EndsAs line (read_line-IsLine (max_bytes + 3) input) in
      rw (sym (ok-injective h₂)) (subst (λ (t : Text). EndsAs (without_end line) t) all form, fits),
  λ (form, short).
      let shorter : length password ≤ max_bytes =
        (let fewer = length-encoded_length password in omega (arith, fewer, short)) in
      let (read, text) = EndsAs-read_line password input form shorter in
      ap judged read ∙ judged-ok input password text short,
)
