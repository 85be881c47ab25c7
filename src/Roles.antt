-- ===== src/Roles.antt =====
-- backend/src/constants/roles.ts and middleware/role.middleware.ts: the roles and the guards of the
-- routes. A role of a user is a name with the store that it holds at; a legacy role is a bare name.
mod Laws
mod Tests
use generic_ecommerce_store.Common.{
  ℕ, zero, suc, Bool, true, false, ◌&&◌, ◌||◌, Option, none, some, List, [], ◌∷◌, ◌==◌,
  if◌then◌else◌, any,
}

pub data RoleName : Type 0 where
  guest customer employee management admin delivery_driver vip super_admin : RoleName

-- The position in ROLE_NAMES, by which names are compared.
abbrev pub role_index : RoleName → ℕ
role_index guest = 0
role_index customer = 1
role_index employee = 2
role_index management = 3
role_index admin = 4
role_index delivery_driver = 5
role_index vip = 6
role_index super_admin = 7

-- `===` on role names
abbrev pub same_role : RoleName → RoleName → Bool
same_role a b = role_index a == role_index b

-- `string | { name; storeId }`
pub data Role : Type 0 where
  bare : RoleName → Role
  at_store : RoleName → Option ℕ → Role

abbrev pub name_of : Role → RoleName
name_of (bare r) = r
name_of (at_store r s) = r

-- `typeof r === 'string' ? null : r.storeId`
abbrev pub store_of : Role → Option ℕ
store_of (bare r) = none
store_of (at_store r s) = s

unfoldable pub has_role : List Role → RoleName → Bool
has_role roles target = any (λ r. same_role (name_of r) target) roles

unfoldable pub has_any_role : List Role → List RoleName → Bool
unfolding has_role
has_any_role roles targets = any (λ role. has_role roles role) targets

-- `storeId === null || storeId === 0 || storeId === actingStore`; the acting store is null if none.
abbrev pub store_matches : Option ℕ → Option ℕ → Bool
store_matches none acting = true
store_matches (some s) none = s == 0
store_matches (some s) (some a) = s == 0 || s == a

-- The test that `authorize` makes of each role.
abbrev pub grants : List RoleName → Option ℕ → Role → Bool
grants allowed acting r =
    (any (λ a. same_role a (name_of r)) allowed || same_role (name_of r) super_admin)
    && (store_matches (store_of r) acting || same_role (name_of r) super_admin)

-- What a guard does with a request: the status of a refusal, or the next handler.
pub data Verdict : Type 0 where
  refuse : ℕ → Verdict
  next : Verdict

-- `authorize(...allowedRoles)`; the user's roles are none where the request has no user.
unfoldable pub authorize : List RoleName → Option (List Role) → Option ℕ → Verdict
authorize allowed none acting = refuse 401
authorize allowed (some roles) acting =
    if any (grants allowed acting) roles then next else refuse 403

unfoldable pub authorize_employee : Option (List Role) → Option ℕ → Verdict
unfolding authorize
authorize_employee = authorize (employee ∷ management ∷ admin ∷ [])

unfoldable pub authorize_management : Option (List Role) → Option ℕ → Verdict
unfolding authorize
authorize_management = authorize (management ∷ admin ∷ [])

unfoldable pub authorize_admin : Option (List Role) → Option ℕ → Verdict
unfolding authorize
authorize_admin = authorize (admin ∷ [])

unfoldable pub require_super_admin : Option (List Role) → Verdict
require_super_admin none = refuse 401
require_super_admin (some roles) =
    if any (λ r. same_role (name_of r) super_admin) roles then next else refuse 403
