-- ===== src/Accounts/Exclusive.antt =====
-- The two business roles exclude one another, and an assignment decides between them.
use finance_reconciliation.Prelude.{
  ℕ, ◌≡◌, ◌≢◌, refl, Bool, true, false, not, ◌&&◌, ◌||◌, some, List, [], ◌∷◌, ◌++◌, arith, any,
  select, ◌==◌,
}
use finance_reconciliation.Accounts.Roles.{
  Role, finance, owner, GroupName, business, other, Directory, names_role, in_group, user_has_role,
  is_other_role, assign_role,
}

abbrev pub other_role : Role → Role
other_role finance = owner
other_role owner = finance

abbrev holds : Role → ℕ → List (ℕ × GroupName) → Bool
holds r user ms = any (λ m. m.0 == user && names_role r m.1) ms

abbrev without : Role → ℕ → List (ℕ × GroupName) → List (ℕ × GroupName)
without r user ms = select (λ m. not (is_other_role user r m)) ms

-- After the removal the user holds no other business role.
holds-without_other :
    (r : Role) (user : ℕ) (ms : List (ℕ × GroupName))
    → holds (other_role r) user (without r user ms) ≡ false
holds-without_other r user [] = refl
holds-without_other finance user ((u, business s) ∷ ms) =
    ground (arith, holds-without_other finance user ms)
holds-without_other owner user ((u, business s) ∷ ms) =
    ground (arith, holds-without_other owner user ms)
holds-without_other r user ((u, other n) ∷ ms) = ground (arith, holds-without_other r user ms)

holds-without_ne :
    (r s : Role) (user who : ℕ) (ms : List (ℕ × GroupName))
    → who ≢ user
    → holds s who (without r user ms) ≡ holds s who ms
holds-without_ne r s user who [] ne = refl
holds-without_ne r s user who ((u, business t) ∷ ms) ne =
    ground (arith, holds-without_ne r s user who ms ne)
holds-without_ne r s user who ((u, other n) ∷ ms) ne =
    ground (arith, holds-without_ne r s user who ms ne)

holds-append :
    (r : Role) (user : ℕ) (ms : List (ℕ × GroupName)) (m : ℕ × GroupName)
    → holds r user (ms ++ m ∷ []) ≡ (holds r user ms || (m.0 == user && names_role r m.1))
holds-append r user [] m = ground arith
holds-append r user (n ∷ ms) m = ground (arith, holds-append r user ms m)

-- `assign_role` makes the user a holder of the role and of no other business role.
pub assign_role-decides :
    (user : ℕ) (r : Role) (dir dir' : Directory)
    → assign_role user r dir ≡ some dir'
    → (user_has_role user r dir' ≡ true) × (user_has_role user (other_role r) dir' ≡ false)
unfolding assign_role user_has_role
assign_role-decides user finance dir dir' h = ground (
  arith,
  holds-without_other finance user dir.memberships,
  holds-append finance user (without finance user dir.memberships) (user, business finance),
  holds-append owner user (without finance user dir.memberships) (user, business finance),
)
assign_role-decides user owner dir dir' h = ground (
  arith,
  holds-without_other owner user dir.memberships,
  holds-append finance user (without owner user dir.memberships) (user, business owner),
  holds-append owner user (without owner user dir.memberships) (user, business owner),
)

in_group-assign_role_ne :
    (user who : ℕ) (r t : Role) (dir dir' : Directory)
    → who ≢ user
    → assign_role user r dir ≡ some dir'
    → in_group t who dir' ≡ in_group t who dir
unfolding assign_role
in_group-assign_role_ne user who r t dir dir' ne h = ground (
  arith,
  holds-without_ne r t user who dir.memberships ne,
  holds-append t who (without r user dir.memberships) (user, business r),
)

-- An assignment to one user leaves the roles of every other user as they were.
pub assign_role-others :
    (user who : ℕ) (r s : Role) (dir dir' : Directory)
    → who ≢ user
    → assign_role user r dir ≡ some dir'
    → user_has_role who s dir' ≡ user_has_role who s dir
unfolding user_has_role
assign_role-others user who r finance dir dir' ne h = ground (
  arith,
  in_group-assign_role_ne user who r finance dir dir' ne h,
  in_group-assign_role_ne user who r owner dir dir' ne h,
)
assign_role-others user who r owner dir dir' ne h =
    in_group-assign_role_ne user who r owner dir dir' ne h

-- Nobody counts as finance staff and as an owner at once.
pub user_has_role-exclusive :
    (user : ℕ) (dir : Directory)
    → user_has_role user finance dir ≡ true
    → user_has_role user owner dir ≡ false
unfolding user_has_role
user_has_role-exclusive user dir h = ground arith
