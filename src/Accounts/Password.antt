-- ===== src/Accounts/Password.antt =====
-- How apps/accounts/bootstrap.py reads the password: `_read_password` and
-- `_read_one_stdin_password_line`.
use finance_reconciliation.Prelude.{
  ℕ, zero, suc, ◌+◌, Bool, not, ◌&&◌, [], ◌∷◌, ltb, leb, ◌==◌, if◌then◌else◌,
}
use finance_reconciliation.Prelude.Text.{Text, is_empty}
use finance_reconciliation.Prelude.Outcome.{Outcome, ok, guard, raise_if, ◌>>◌}

-- `CommandError` by its message.
pub data PasswordFailure : Type 0 where
  stdin_required too_long not_one_line : PasswordFailure

abbrev pub max_bytes : ℕ
max_bytes = 4096

-- The bytes of a character in UTF-8.
abbrev bytes_of : ℕ → ℕ
bytes_of c = if ltb c 128 then 1 else if ltb c 2048 then 2 else if ltb c 65536 then 3 else 4

-- `len(text.encode("utf-8"))`
unfoldable pub encoded_length : Text → ℕ
encoded_length [] = 0
encoded_length (c ∷ text) = bytes_of c + encoded_length text

-- `readline` of so many characters: the line with its `\n`, if that is read, and what is left.
unfoldable pub read_line : ℕ → Text → Text × Text
read_line zero input = ([], input)
read_line (suc n) [] = ([], [])
read_line (suc n) (c ∷ input) =
    let more = read_line n input in if c == 10 then (c ∷ [], input) else (c ∷ more.0, more.1)

-- `line[:-1].removesuffix("\r")` where the line ends with `\n`, else the line.
unfoldable pub without_end : Text → Text
without_end [] = []
without_end (c ∷ []) = if c == 10 then [] else c ∷ []
without_end (c ∷ d ∷ []) = if d == 10 then if c == 13 then [] else c ∷ [] else c ∷ d ∷ []
without_end (c ∷ d ∷ e ∷ line) = c ∷ without_end (d ∷ e ∷ line)

-- `_read_one_stdin_password_line`
unfoldable pub read_one_line : Text → Outcome PasswordFailure Text
unfolding read_line without_end encoded_length
read_one_line input =
    let (line, rest) = read_line (max_bytes + 3) input in
    let password = without_end line in
    guard (leb (encoded_length password) max_bytes) too_long
    >> (guard (is_empty rest) not_one_line >> ok password)

-- `_read_password`; `environment` is what the variable has, empty where there is none.
unfoldable pub read_password : Bool → Bool → Text → Text → Outcome PasswordFailure Text
unfolding read_one_line
read_password from_stdin required input environment =
    raise_if (required && not from_stdin) stdin_required
    >> (if from_stdin then read_one_line input else ok environment)
