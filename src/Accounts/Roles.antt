-- ===== src/Accounts/Roles.antt =====
-- `Role`, `assign_role`, `user_has_role` and `require_finance_actor` of apps/accounts/roles.py.
use finance_reconciliation.Prelude.{
  ℕ, Bool, true, false, not, ◌&&◌, Option, none, some, List, [], ◌∷◌, ◌++◌, contains, any, select,
  ◌==◌, if◌then◌else◌,
}

pub data Role : Type 0 where
  finance owner : Role

-- A group's name: a business role's, or any other.
pub data GroupName : Type 0 where
  business : Role → GroupName
  other : ℕ → GroupName

-- The rows of the user table (by primary key) and of the table that joins users and groups.
pub record Directory : Type 0 where
  pub users : List ℕ
  pub memberships : List (ℕ × GroupName)

-- What a caller passes as `actor`: whether it is an instance of the user model, its primary key,
-- and `_state.adding`.
pub record Actor : Type 0 where
  pub is_user : Bool
  pub pk : Option ℕ
  pub adding : Bool

abbrev pub role_eq : Role → Role → Bool
role_eq finance finance = true
role_eq owner owner = true
role_eq finance owner = false
role_eq owner finance = false

abbrev pub names_role : Role → GroupName → Bool
names_role r (business s) = role_eq r s
names_role r (other n) = false

-- `role.value in set(user.groups.filter(name__in=…).values_list("name"))`
abbrev pub in_group : Role → ℕ → Directory → Bool
in_group r user dir = any (λ m. m.0 == user && names_role r m.1) dir.memberships

-- `user_has_role`, of a user who is authenticated, as an instance of the user model always is.
-- A user who is an owner too does not count as finance staff.
unfoldable pub user_has_role : ℕ → Role → Directory → Bool
user_has_role user finance dir =
    if in_group owner user dir then false else in_group finance user dir
user_has_role user owner dir = in_group owner user dir

-- The row that `user.groups.remove(…)` takes out: the user's membership of another business role.
abbrev pub is_other_role : ℕ → Role → ℕ × GroupName → Bool
is_other_role user r (u, business s) = u == user && not (role_eq r s)
is_other_role user r (u, other n) = false

-- `assign_role`; `none` where the user's row is missing (`DoesNotExist`). `groups.add` of a group
-- that the user is in already adds no row.
unfoldable pub assign_role : ℕ → Role → Directory → Option Directory
assign_role user r dir =
    let kept = select (λ m. not (is_other_role user r m)) dir.memberships in
    let removed = record dir { memberships = kept } in
    if contains user dir.users
    then some (
        if in_group r user removed
        then removed
        else record dir { memberships = kept ++ (user, business r) ∷ [] })
    else none

-- The last two tests of `require_finance_actor`.
abbrev pub saved_finance_user : Option ℕ → Directory → Bool
saved_finance_user none dir = false
saved_finance_user (some user) dir = contains user dir.users && user_has_role user finance dir

-- `require_finance_actor`: whether it returns, rather than raise `PermissionDenied`.
unfoldable pub is_finance_actor : Actor → Directory → Bool
unfolding user_has_role
is_finance_actor actor dir = actor.is_user && not actor.adding && saved_finance_user actor.pk dir
