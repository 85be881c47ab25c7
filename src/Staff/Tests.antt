-- ===== src/Staff/Tests.antt =====
-- A driver of tenant 1 who gets two stores in place of one.
use generic_ecommerce_store.Common.{ℕ, some, List, [], ◌∷◌, refl}
use generic_ecommerce_store.Staff.{StoreRoleInput, Tables, Assigned, listed}
use generic_ecommerce_store.Staff.Replaced.{Replaced, set_user_role_assignments-Replaced}

abbrev driving : ℕ → Assigned
driving store = record { user_id = 4; role_id = 6; tenant_id = some 1; store_id = some store }

abbrev tables : Tables
tables = record {
  users = (4, 1) ∷ [];
  stores = (2, 1) ∷ (3, 1) ∷ [];
  roles = record { id = 6; name = "DELIVERY_DRIVER" } ∷ [];
  user_roles = driving 5 ∷ record (driving 5) { role_id = 7 } ∷ [];
}

abbrev inputs : List StoreRoleInput
inputs =
    record { role_name = "DELIVERY_DRIVER"; store_ids = listed (some 2 ∷ some 3 ∷ some 2 ∷ []) }
    ∷ []

abbrev after : Tables
after = record tables {
  user_roles = record (driving 5) { role_id = 7 } ∷ driving 2 ∷ driving 3 ∷ [];
}

set_user_role_assignments-Replaced_example : Replaced tables 4 1 inputs after
unfolding generic_ecommerce_store.Staff.set_user_role_assignments
set_user_role_assignments-Replaced_example =
    set_user_role_assignments-Replaced tables 4 1 inputs after refl
