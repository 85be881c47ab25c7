-- ===== src/Tenancy/Tests.antt =====
-- Queries of store 5 of tenant 3, on a table of stores.
use generic_ecommerce_store.Common.{◌≡◌, some, ◌⊎◌, refl, true, false}
use generic_ecommerce_store.Tenancy.{
  TenantContext, Fields, field, end, number, scalar, object, get_field,
}
use generic_ecommerce_store.Tenancy.Interceptor.{
  upsert, find_unique, find_first, query, missing_store_context, needs_store, all_operations,
}
use generic_ecommerce_store.Tenancy.Scoped.{IsHeld, all_operations-IsHeld, all_operations-upsert}

abbrev ctx : TenantContext
ctx = record { tenant_id = 3; store_id = some 5; is_default_store = false }

-- A caller that names another tenant.
abbrev args : Fields
args =
    field "where" (object (field "id" (number 7) (field "tenantId" (number 4) end)))
      (field "data" (object (field "note" (scalar "late") end)) end)

all_operations-IsHeld_example :
    (a : Fields) × (w : Fields) × (all_operations true (some ctx) "orders" find_unique args
      ≡ query find_first a)
    × (get_field "where" a ≡ object w)
    × IsHeld "orders" ctx w
unfolding generic_ecommerce_store.Tenancy.is_unscoped
all_operations-IsHeld_example = all_operations-IsHeld true ctx "orders" args find_unique refl refl

all_operations-upsert_example :
    (all_operations true (some ctx) "orders" upsert args ≡ missing_store_context)
      × (needs_store "orders" ctx ≡ true)
    ⊎ ((a : Fields) × (new : Fields) × (changed : Fields) × (all_operations true
            (some ctx)
            "orders"
            upsert
            args
          ≡ query upsert a)
        × (get_field "create" a ≡ object new)
        × IsHeld "orders" ctx new
        × (get_field "update" a ≡ object changed)
        × IsHeld "orders" ctx changed
        × (get_field "where" a ≡ get_field "where" args))
unfolding generic_ecommerce_store.Tenancy.is_unscoped
all_operations-upsert_example = all_operations-upsert true ctx "orders" args refl
