-- ===== src/Accounts/Tests.antt =====
-- Instances of the theorems on roles, and a run of the bootstrap.
use finance_reconciliation.Prelude.{
  ◌↔◌, if◌then◌else◌, ◌==◌, none, ◌≡◌, refl, true, false, some, [], ◌∷◌, ◌++◌, ◌≤◌,
}
use finance_reconciliation.Accounts.Roles.{finance, owner, business, Directory, assign_role}
use finance_reconciliation.Prelude.Text.{codes, strip}
use finance_reconciliation.Prelude.Outcome.{ok, err}
use finance_reconciliation.Accounts.Bootstrap.{
  BootstrapChanges, System, Options, Django, bootstrap_role_user,
}
use finance_reconciliation.Accounts.Bootstrapped.{HasOnly, IsNamed, bootstrap_role_user-HasOnly}
use finance_reconciliation.Accounts.Password.{
  not_one_line, max_bytes, encoded_length, read_line, without_end, read_one_line,
}
use finance_reconciliation.Accounts.OneLine.{EndsAs, read_one_line-EndsAs}

abbrev before : Directory
before = record { users = 1 ∷ 2 ∷ []; memberships = (1, business owner) ∷ (2, business owner) ∷ [] }

abbrev after : Directory
after = record {
  users = 1 ∷ 2 ∷ [];
  memberships = (2, business owner) ∷ (1, business finance) ∷ [];
}

assign_role-before : assign_role 1 finance before ≡ some after
unfolding assign_role
assign_role-before = refl

-- Django as it is of no consequence here: the database is locked at the first attempt.
abbrev locked_once : Django
locked_once = record {
  normalize_username = λ t. t;
  accepts_username = λ t. true;
  accepts_password = λ p t. true;
  make_password = λ p. p;
  before_save = λ n s. s;
  raises = λ n. if n == 0 then some true else none;
}

abbrev first_owner : Options
first_owner = record {
  role = owner;
  username = codes "boss";
  password_stdin = true;
  password_from_stdin_only = true;
  input = codes "secret\n";
  environment = [];
  reset_password = false;
  strict_username = true;
  reject_other_business_role = true;
}

abbrev nobody : System
nobody = record { users = []; directory = record { users = []; memberships = [] }; audit = [] }

abbrev changes : BootstrapChanges
changes = record { user = 3; created = true; role_assigned = true; password_reset = false }

abbrev boss : System
boss = record {
  users = record { id = 3; username = codes "boss"; password = codes "secret" } ∷ [];
  directory = record { users = 3 ∷ []; memberships = (3, business owner) ∷ [] };
  audit = changes ∷ [];
}

bootstrap_role_user-boss : bootstrap_role_user locked_once first_owner 3 nobody ≡ ok (boss, changes)
unfolding bootstrap_role_user strip
bootstrap_role_user-boss = refl

bootstrap_role_user-HasOnly_example :
    HasOnly 3 owner boss.directory × IsNamed (codes "boss") 3 boss.users
unfolding strip
bootstrap_role_user-HasOnly_example =
    bootstrap_role_user-HasOnly locked_once first_owner 3 nobody (boss, changes)
      bootstrap_role_user-boss

-- A line with the end that a terminal of another system gives it.
read_one_line-typed : read_one_line (codes "secret" ++ 13 ∷ 10 ∷ []) ≡ ok (codes "secret")
unfolding read_one_line read_line without_end encoded_length
read_one_line-typed = refl

read_one_line-EndsAs_example :
    (read_one_line (codes "secret" ++ 13 ∷ 10 ∷ []) ≡ ok (codes "secret")) ↔ (
      EndsAs (codes "secret") (codes "secret" ++ 13 ∷ 10 ∷ [])
      × (encoded_length (codes "secret") ≤ max_bytes))
read_one_line-EndsAs_example =
    read_one_line-EndsAs (codes "secret" ++ 13 ∷ 10 ∷ []) (codes "secret")

-- A second line is refused.
read_one_line-two : read_one_line (codes "a" ++ 10 ∷ codes "b") ≡ err not_one_line
unfolding read_one_line-typed
read_one_line-two = refl
