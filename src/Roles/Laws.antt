-- ===== src/Roles/Laws.antt =====
-- Who passes the guards of the routes.
use generic_ecommerce_store.Common.{
  inl, inr, refl, List, [], ◌∷◌, IsIn, any, ℕ, ◌≡◌, ◌⊎◌, ◌↔◌, Option, none, some, arith, true,
}
use generic_ecommerce_store.Roles.{
  RoleName, employee, management, admin, super_admin, Role, bare, at_store, name_of, store_of,
  grants, store_matches, same_role, refuse, next, authorize, authorize_employee,
  authorize_management, authorize_admin, require_super_admin, has_role,
}

same_role_iff : (a b : RoleName) → (same_role a b ≡ true) ↔ (a ≡ b)
same_role_iff a b = (same_role-eq a b, λ e. rw e (same_role-self b))
  where
    same_role-self : (b : RoleName) → same_role b b ≡ true
    same_role-self b = ground arith

    same_role-eq : (a b : RoleName) → same_role a b ≡ true → a ≡ b
    same_role-eq a b h = ground arith

-- The store of a role: a null or zero store stands for all stores.
abbrev pub HoldsAt : Option ℕ → Role → Type 0
HoldsAt acting r =
    (store_of r ≡ none)
    ⊎ (store_of r ≡ some 0)
    ⊎ ((s : ℕ) × (acting ≡ some s) × (store_of r ≡ some s))

-- Some role of the list is SUPER_ADMIN, or is among the allowed names and holds at the acting store.
abbrev pub Granted : List RoleName → Option ℕ → List Role → Type 0
Granted allowed acting [] = ⊥
Granted allowed acting (r ∷ roles) =
    ((name_of r ≡ super_admin) ⊎ (IsIn (name_of r) allowed × HoldsAt acting r))
    ⊎ Granted allowed acting roles

any-IsIn :
    (name : RoleName) (allowed : List RoleName)
    → (any (λ a. same_role a name) allowed ≡ true) ↔ IsIn name allowed
any-IsIn name [] = (λ h. absurd (cc), λ h. absurd h)
any-IsIn name (a ∷ allowed) = ground (arith, same_role_iff a name, any-IsIn name allowed)

store_matches_iff :
    (r : Role) (acting : Option ℕ) → (store_matches (store_of r) acting ≡ true) ↔ HoldsAt acting r
store_matches_iff (bare r) acting = ground arith
store_matches_iff (at_store r none) acting = ground arith
store_matches_iff (at_store r (some s)) none = ground arith
store_matches_iff (at_store r (some s)) (some a) = (λ h. ground arith, λ h. ground arith)

any-Granted :
    (allowed : List RoleName) (acting : Option ℕ) (roles : List Role)
    → (any (grants allowed acting) roles ≡ true) ↔ Granted allowed acting roles
any-Granted allowed acting [] = (λ h. absurd (cc), λ h. absurd h)
any-Granted allowed acting (r ∷ roles) = ground (
  arith,
  any-IsIn (name_of r) allowed,
  store_matches_iff r acting,
  same_role_iff (name_of r) super_admin,
  any-Granted allowed acting roles,
)

-- A guard passes a request exactly when its user is known and has SUPER_ADMIN, or one of the
-- allowed roles at the acting store or at all stores; it answers 401 exactly when there is no user.
pub authorize_iff :
    (allowed : List RoleName) (user : Option (List Role)) (acting : Option ℕ)
    → ((authorize allowed user acting ≡ next)
        ↔ ((roles : List Role) × (user ≡ some roles) × Granted allowed acting roles))
      × ((authorize allowed user acting ≡ refuse 401) ↔ (user ≡ none))
unfolding authorize
authorize_iff allowed none acting = ground arith
authorize_iff allowed (some roles) acting = (
  (
    λ h. (roles, refl, (any-Granted allowed acting roles).0 (ground arith)),
    λ (given, same, granted).
        let e : roles ≡ given = cc in rw ((any-Granted allowed acting roles).1 (rw e granted)) refl,
  ),
  ground arith,
)

Granted-mono :
    (few many : List RoleName) (acting : Option ℕ) (roles : List Role)
    → ((name : RoleName) → IsIn name few → IsIn name many)
    → Granted few acting roles
    → Granted many acting roles
Granted-mono few many acting [] sub g = g
Granted-mono few many acting (r ∷ roles) sub (inl (inl h)) = inl (inl h)
Granted-mono few many acting (r ∷ roles) sub (inl (inr (m, h))) = inl (inr (sub (name_of r) m, h))
Granted-mono few many acting (r ∷ roles) sub (inr g) =
    inr (Granted-mono few many acting roles sub g)

authorize_mono :
    (few many : List RoleName) (user : Option (List Role)) (acting : Option ℕ)
    → ((name : RoleName) → IsIn name few → IsIn name many)
    → authorize few user acting ≡ next
    → authorize many user acting ≡ next
authorize_mono few many user acting sub h =
    let (roles, e, g) = (authorize_iff few user acting).0.0 h in
    (authorize_iff many user acting).0.1 (roles, e, Granted-mono few many acting roles sub g)

-- Whoever passes the guard for ADMIN passes the one for MANAGEMENT, and whoever passes that passes
-- the one for EMPLOYEE.
pub authorize_nested :
    (user : Option (List Role)) (acting : Option ℕ)
    → (authorize_admin user acting ≡ next → authorize_management user acting ≡ next)
      × (authorize_management user acting ≡ next → authorize_employee user acting ≡ next)
unfolding authorize_admin authorize_management authorize_employee
authorize_nested user acting = (
  authorize_mono (admin ∷ []) (management ∷ admin ∷ []) user acting (λ name h. ground arith),
  authorize_mono (management ∷ admin ∷ []) (employee ∷ management ∷ admin ∷ []) user acting
      (λ name h. ground arith),
)

-- `requireSuperAdmin` passes exactly the users that have SUPER_ADMIN: ADMIN alone is refused.
pub require_super_admin_iff :
    (roles : List Role)
    → (require_super_admin (some roles) ≡ next) ↔ (has_role roles super_admin ≡ true)
unfolding require_super_admin has_role
require_super_admin_iff roles = ground arith
