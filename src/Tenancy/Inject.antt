-- ===== src/Tenancy/Inject.antt =====
-- backend/src/config/database.ts: injectNestedRelations and applyInjectionToRelation. The code stamps
-- a nested row and then looks inside it; here the inside comes first, which is the same since the
-- stamps are no objects. Lists of rows hold rows, not lists.
use text.Mathlib.Text.{◌==◌ as str_eq}
use generic_ecommerce_store.Common.{
  ℕ, Bool, Option, none, some, List, [], ◌∷◌, String, if◌then◌else◌, not, ◌==◌, ◌||◌, true, false,
}
use generic_ecommerce_store.Tenancy.{
  Value, undefined, number, object, array, Items, nil, cons, Fields, end, field, get_field,
  set_field, includes, real_store,
}

abbrev pub tenant_scoped_fields : List String
tenant_scoped_fields =
    "variants" ∷ "images" ∷ "quantityOptions" ∷ "priceBreaks" ∷ "storeCreditTransactions" ∷ "roles"
    ∷ "user" ∷ []

abbrev pub store_scoped_fields : List String
store_scoped_fields =
    "items" ∷ "payments" ∷ "statusEvents" ∷ "posOutbox" ∷ "posMappings" ∷ "order" ∷ []

-- `if (storeId != null && storeId !== 0) item.storeId = storeId`
abbrev pub stamp_store : Option ℕ → Fields → Fields
stamp_store none fs = fs
stamp_store (some n) fs = set_field "storeId" (number n) fs

abbrev pub stamp : ℕ → Option ℕ → Fields → Fields
stamp tenant store fs = stamp_store (real_store store) (set_field "tenantId" (number tenant) fs)

-- A row of `createMany`, which is not looked into.
abbrev stamp_row : ℕ → Option ℕ → Value → Value
stamp_row t s (object fs) = object (stamp t s fs)
stamp_row t s other = other

stamp_rows : ℕ → Option ℕ → Items → Items
stamp_rows t s nil = nil
stamp_rows t s (cons v vs) = cons (stamp_row t s v) (stamp_rows t s vs)

stamp_list : ℕ → Option ℕ → Value → Value
unfolding stamp_rows
stamp_list t s (array vs) = array (stamp_rows t s vs)
stamp_list t s other = stamp_row t s other

-- The `data` of `createMany`.
stamp_data : ℕ → Option ℕ → Fields → Fields
unfolding stamp_list
stamp_data t s end = end
stamp_data t s (field k v fs) =
    field k (if str_eq k "data" then stamp_list t s v else v) (stamp_data t s fs)

stamp_many : ℕ → Option ℕ → Value → Value
unfolding stamp_data
stamp_many t s (object fs) = object (stamp_data t s fs)
stamp_many t s other = other

-- `updateItem.data` is an object.
abbrev has_data : Fields → Bool
has_data fs = elim (get_field "data" fs) [ undefined ↦ false | number n ↦ not (n == 0) | _ ↦ true ]

unfoldable mutual
  unfolding stamp_many

  -- `injectNestedRelations`
  pub inject : ℕ → Option ℕ → Value → Value
  inject t s (object fs) = object (inject_fields t s fs)
  inject t s (array vs) = array (inject_items t s vs)
  inject t s other = other

  pub inject_items : ℕ → Option ℕ → Items → Items
  inject_items t s nil = nil
  inject_items t s (cons v vs) = cons (inject t s v) (inject_items t s vs)

  pub inject_fields : ℕ → Option ℕ → Fields → Fields
  inject_fields t s end = end
  inject_fields t s (field k v fs) =
      field k
        (if includes tenant_scoped_fields k
          then apply t none v
          else if includes store_scoped_fields k
          then apply t s v
          else inject t s v)
        (inject_fields t s fs)

  -- `applyInjectionToRelation`
  pub apply : ℕ → Option ℕ → Value → Value
  apply t s (object fs) = object (apply_fields t s fs)
  apply t s other = other

  pub apply_fields : ℕ → Option ℕ → Fields → Fields
  apply_fields t s end = end
  apply_fields t s (field k v fs) =
      field k
        (if str_eq k "create"
          then created t s v
          else if str_eq k "createMany"
          then stamp_many t s v
          else if str_eq k "update"
          then updated t s v
          else if str_eq k "upsert"
          then upserted t s v
          else v)
        (apply_fields t s fs)

  -- A row, stamped inside and outside.
  pub row : ℕ → Option ℕ → Value → Value
  row t s (object fs) = object (stamp t s (inject_fields t s fs))
  row t s other = other

  -- The value of `create`: one row or a list of rows.
  pub created : ℕ → Option ℕ → Value → Value
  created t s (array vs) = array (created_items t s vs)
  created t s (object fs) = object (stamp t s (inject_fields t s fs))
  created t s other = other

  pub created_items : ℕ → Option ℕ → Items → Items
  created_items t s nil = nil
  created_items t s (cons v vs) = cons (row t s v) (created_items t s vs)

  -- The value of `update`, whose rows may stand in a field `data`.
  pub updated : ℕ → Option ℕ → Value → Value
  updated t s (array vs) = array (updated_items t s vs)
  updated t s (object fs) =
      object
        (if has_data fs then rows_at "data" "data" t s fs else stamp t s (inject_fields t s fs))
  updated t s other = other

  pub updated_items : ℕ → Option ℕ → Items → Items
  updated_items t s nil = nil
  updated_items t s (cons (object fs) vs) =
      cons
        (object
          (if has_data fs then rows_at "data" "data" t s fs else stamp t s (inject_fields t s fs)))
        (updated_items t s vs)
  updated_items t s (cons v vs) = cons v (updated_items t s vs)

  -- The rows at two keys of an object.
  pub rows_at : String → String → ℕ → Option ℕ → Fields → Fields
  rows_at a b t s end = end
  rows_at a b t s (field k v fs) =
      field k (if str_eq k a || str_eq k b then row t s v else v) (rows_at a b t s fs)

  -- The value of `upsert`.
  pub upserted : ℕ → Option ℕ → Value → Value
  upserted t s (array vs) = array (upserted_items t s vs)
  upserted t s (object fs) = object (rows_at "create" "update" t s fs)
  upserted t s other = other

  pub upserted_items : ℕ → Option ℕ → Items → Items
  upserted_items t s nil = nil
  upserted_items t s (cons (object fs) vs) =
      cons (object (rows_at "create" "update" t s fs)) (upserted_items t s vs)
  upserted_items t s (cons v vs) = cons v (upserted_items t s vs)
