-- ===== src/Roles/Tests.antt =====
-- Guards asked by concrete users.
use generic_ecommerce_store.Common.{◌≡◌, ◌↔◌, none, some, [], ◌∷◌, List}
use generic_ecommerce_store.Roles.{Role, at_store, employee, management, next, refuse, authorize}
use generic_ecommerce_store.Roles.Laws.{Granted, authorize_iff}

-- A manager of store 4.
abbrev manager : List Role
manager = at_store management (some 4) ∷ []

authorize_iff_example :
    ((authorize (employee ∷ management ∷ []) (some manager) (some 4) ≡ next) ↔ (
      (roles : List Role) × (some manager ≡ some roles)
      × Granted (employee ∷ management ∷ []) (some 4) roles))
    × ((authorize (employee ∷ management ∷ []) (some manager) (some 4) ≡ refuse 401)
        ↔ (some manager ≡ none))
authorize_iff_example = authorize_iff (employee ∷ management ∷ []) (some manager) (some 4)
