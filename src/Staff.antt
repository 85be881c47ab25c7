-- ===== src/Staff.antt =====
-- backend/src/services/staffAssignment.service.ts: at which stores a member of staff holds which roles.
-- The grouping of the answer by role is left out.
pub mod Replaced
mod Tests
use text.Mathlib.Text.{◌==◌ as str_eq}
use generic_ecommerce_store.Common.{
  ℕ, zero, suc, Bool, Option, none, some, List, [], ◌∷◌, ◌++◌, map, String, ltb, ◌==◌, ◌&&◌, ◌||◌,
  not, if◌then◌else◌, true, false,
}
use generic_ecommerce_store.Common.Lists.{any, find?, keep, length}
use generic_ecommerce_store.Approval.{RoleRow}

-- A store id of the request: `none` is a number that is negative or no integer.
pub data StoreIds : Type 0 where
  all_stores : StoreIds
  listed : List (Option ℕ) → StoreIds

-- `StoreRoleInput`
pub record StoreRoleInput : Type 0 where
  pub role_name : String
  pub store_ids : StoreIds

-- A row of `user_roles`.
pub record Assigned : Type 0 where
  pub user_id : ℕ
  pub role_id : ℕ
  pub tenant_id : Option ℕ
  pub store_id : Option ℕ

-- The users and the stores with their tenant.
pub record Tables : Type 0 where
  pub users : List (ℕ × ℕ)
  pub stores : List (ℕ × ℕ)
  pub roles : List RoleRow
  pub user_roles : List Assigned

-- What `setUserRoleAssignments` throws; the last is a broken unique constraint, which ends in a 500.
pub data StaffError : Type 0 where
  user_missing unknown_role role_missing no_stores invalid_store : StaffError
  mixed_sentinel store_missing unique_constraint : StaffError

pub data Attempt (A : Type 0) : Type 0 where
  fails : StaffError → Attempt A
  gives : A → Attempt A

-- `ROLE_NAMES`
abbrev role_names : List String
role_names =
    "GUEST" ∷ "CUSTOMER" ∷ "EMPLOYEE" ∷ "MANAGEMENT" ∷ "ADMIN" ∷ "DELIVERY_DRIVER" ∷ "VIP"
    ∷ "SUPER_ADMIN" ∷ []

abbrev is_role_name : String → Bool
is_role_name name = any (λ n. str_eq n name) role_names

-- The ids, if all are valid.
abbrev valid_ids : List (Option ℕ) → Option (List ℕ)
valid_ids [] = some []
valid_ids (none ∷ ids) = none
valid_ids (some n ∷ ids) = elim (valid_ids ids) [ none ↦ none | some ns ↦ some (n ∷ ns) ]

abbrev has : List ℕ → ℕ → Bool
has ns n = any (λ m. m == n) ns

-- `[...new Set(rawIds)]`
abbrev unique_from : List ℕ → List ℕ → List ℕ
unique_from seen [] = []
unique_from seen (n ∷ ns) =
    let with_n = unique_from (n ∷ seen) ns in
    let without = unique_from seen ns in if has seen n then without else n ∷ with_n

abbrev is_pair : ℕ → ℕ → ℕ × ℕ → Bool
is_pair a b (c, d) = c == a && d == b

-- A real store id belongs to the tenant; 0 stands for all stores.
abbrev pub is_own_store : Tables → ℕ → ℕ → Bool
is_own_store t tenant zero = true
is_own_store t tenant (suc n) = any (is_pair (suc n) tenant) t.stores

abbrev pub check_ids : Tables → ℕ → List ℕ → Attempt (List ℕ)
check_ids t tenant ids =
    if has ids 0 && ltb 1 (length ids)
    then fails mixed_sentinel
    else if any (λ n. not (is_own_store t tenant n)) ids
    then fails store_missing
    else gives ids

abbrev pub check_listed : Tables → ℕ → Option (List ℕ) → Attempt (List ℕ)
check_listed t tenant none = fails invalid_store
check_listed t tenant (some ids) = check_ids t tenant (unique_from [] ids)

-- The store ids of one assignment.
abbrev pub resolve_ids : Tables → ℕ → StoreIds → Attempt (List ℕ)
resolve_ids t tenant all_stores = gives (0 ∷ [])
resolve_ids t tenant (listed []) = fails no_stores
resolve_ids t tenant (listed (id ∷ ids)) = check_listed t tenant (valid_ids (id ∷ ids))

-- The rows that one assignment gives.
abbrev pub rows_for : ℕ → ℕ → ℕ → List ℕ → List Assigned
rows_for user tenant role [] = []
rows_for user tenant role (s ∷ ss) =
    record { user_id = user; role_id = role; tenant_id = some tenant; store_id = some s }
    ∷ rows_for user tenant role ss

-- The ids of the named roles, and the new rows.
abbrev pub Processed : Type 0
Processed = List ℕ × List Assigned

abbrev pub add_processed : ℕ → ℕ → ℕ → List ℕ → Attempt Processed → Attempt Processed
add_processed user tenant role ids (fails e) = fails e
add_processed user tenant role ids (gives (roles, rows)) =
    gives (role ∷ roles, rows_for user tenant role ids ++ rows)

abbrev pub process_ids : ℕ → ℕ → ℕ → Attempt (List ℕ) → Attempt Processed → Attempt Processed
process_ids user tenant role (fails e) rest = fails e
process_ids user tenant role (gives ids) rest = add_processed user tenant role ids rest

abbrev pub process_role :
    Tables → ℕ → ℕ → StoreIds → Option RoleRow → Attempt Processed → Attempt Processed
process_role t user tenant ids none rest = fails role_missing
process_role t user tenant ids (some role) rest =
    process_ids user tenant role.id (resolve_ids t tenant ids) rest

-- The loop over the assignments: the first error ends it.
unfoldable pub process : Tables → ℕ → ℕ → List StoreRoleInput → Attempt Processed
process t user tenant [] = gives ([], [])
process t user tenant (a ∷ later) =
    let rest = process t user tenant later in
    if not (is_role_name a.role_name)
    then fails unknown_role
    else process_role t user tenant a.store_ids (find? (λ r. str_eq r.name a.role_name) t.roles)
        rest

abbrev same_number : Option ℕ → Option ℕ → Bool
same_number none other = false
same_number (some a) none = false
same_number (some a) (some b) = a == b

abbrev clashes : Assigned → Assigned → Bool
clashes a b =
    a.user_id == b.user_id && (a.role_id == b.role_id && same_number a.store_id b.store_id)

-- `createMany`, with the unique constraint on user, role and store.
abbrev pub create_rows : List Assigned → List Assigned → Option (List Assigned)
create_rows [] table = some table
create_rows (a ∷ later) table =
    let rest = create_rows later (table ++ a ∷ []) in if any (clashes a) table then none else rest

-- The rows that the deletion takes.
abbrev pub is_replaced : ℕ → ℕ → List ℕ → Assigned → Bool
is_replaced user tenant roles a =
    a.user_id == user && (same_number a.tenant_id (some tenant) && has roles a.role_id)

abbrev pub replace_rows : Tables → Option (List Assigned) → Attempt Tables
replace_rows t none = fails unique_constraint
replace_rows t (some rows) = gives (record t { user_roles = rows })

-- The transaction.
abbrev pub replace : Tables → ℕ → ℕ → Attempt Processed → Attempt Tables
replace t user tenant (fails e) = fails e
replace t user tenant (gives (roles, rows)) =
    replace_rows t
      (create_rows rows (keep (λ a. not (is_replaced user tenant roles a)) t.user_roles))

unfoldable pub set_user_role_assignments : Tables → ℕ → ℕ → List StoreRoleInput → Attempt Tables
unfolding process
set_user_role_assignments t user tenant assignments =
    if any (is_pair user tenant) t.users
    then replace t user tenant (process t user tenant assignments)
    else fails user_missing
