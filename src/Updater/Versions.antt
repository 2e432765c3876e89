-- ===== src/Updater/Versions.antt =====
-- `version_key` of updater/types.py.
use finance_reconciliation.Prelude.{
  ℕ, ◌+◌, ◌-◌, ◌*◌, Bool, ◌&&◌, ◌||◌, Option, none, some, [], ◌∷◌, ltb, leb, ◌==◌, if◌then◌else◌,
}
use finance_reconciliation.Prelude.Text.{Text}

abbrev pub is_digit : ℕ → Bool
is_digit c = leb 48 c && leb c 57

-- The value of a run of digits, and what follows it.
unfoldable pub read_digits : ℕ → Text → ℕ × Text
read_digits value [] = (value, [])
read_digits value (c ∷ rest) =
    let more = read_digits (value * 10 + (c - 48)) rest in
    if is_digit c then more else (value, c ∷ rest)

-- `(0|[1-9][0-9]*)`
unfoldable pub read_number : Text → Option (ℕ × Text)
read_number [] = none
read_number (c ∷ rest) =
    if c == 48
    then some (0, rest)
    else if is_digit c
    then some (read_digits (c - 48) rest)
    else none

-- The character of that code.
unfoldable pub expect : ℕ → Text → Option Text
expect code [] = none
expect code (c ∷ rest) = if c == code then some rest else none

abbrev pub then_read : Option Text → Option (ℕ × Text)
then_read none = none
then_read (some rest) = read_number rest

abbrev pub pair_up : ℕ → ℕ → Option (ℕ × Text) → Option (ℕ × ℕ × ℕ)
pair_up major minor none = none
pair_up major minor (some (patch, [])) = some (major, minor, patch)
pair_up major minor (some (patch, c ∷ rest)) = none

abbrev pub third : ℕ → Option (ℕ × Text) → Option (ℕ × ℕ × ℕ)
third major none = none
third major (some (minor, rest)) = pair_up major minor (then_read (expect 46 rest))

abbrev pub second : Option (ℕ × Text) → Option (ℕ × ℕ × ℕ)
second none = none
second (some (major, rest)) = third major (then_read (expect 46 rest))

-- `version_key`; `none` where it raises `ValueError`.
unfoldable pub version_key : Text → Option (ℕ × ℕ × ℕ)
version_key value = second (then_read (expect 118 value))

-- `a > b` of two such tuples
unfoldable pub is_later : ℕ × ℕ × ℕ → ℕ × ℕ × ℕ → Bool
is_later (a, b, c) (x, y, z) = ltb x a || a == x && (ltb y b || b == y && ltb z c)

-- `version_key(target) > version_key(current)`
unfoldable pub is_newer : Text → Text → Option Bool
is_newer target current = elim (version_key target) [
  | none ↦ none
  | some t ↦ elim (version_key current) [ none ↦ none | some c ↦ some (is_later t c) ]
]
