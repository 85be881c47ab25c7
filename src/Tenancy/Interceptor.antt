-- ===== src/Tenancy/Interceptor.antt =====
-- backend/src/config/database.ts: the interceptor of the scoped client, `$allOperations`, as a function
-- from a query to the query that is run in its place.
use text.Mathlib.Text.{◌==◌ as str_eq}
use generic_ecommerce_store.Common.{
  ℕ, Bool, Option, none, some, String, if◌then◌else◌, ◌==◌, ◌&&◌, true, false,
}
use generic_ecommerce_store.Common.Lists.{any}
use generic_ecommerce_store.Text.{codes}
use generic_ecommerce_store.Tenancy.{
  Value, undefined, object, array, Items, nil, cons, Fields, end, field, get_field, set_field,
  real_store, is_unscoped, is_store_scoped, TenantContext,
}
use generic_ecommerce_store.Tenancy.Inject.{stamp, inject_fields, inject}

-- The operations of a Prisma model.
pub data Operation : Type 0 where
  create update upsert create_many : Operation
  find_first find_first_or_throw find_many update_many delete delete_many : Operation
  count aggregate group_by find_unique find_unique_or_throw : Operation
  create_many_and_return update_many_and_return : Operation

-- What is run, or the error that is thrown.
pub data Query : Type 0 where
  query : Operation → Fields → Query
  missing_tenant_context missing_store_context : Query

-- The store that a query on the table is held to.
abbrev pub held_store : String → TenantContext → Option ℕ
held_store table ctx = if is_store_scoped table then real_store ctx.store_id else none

-- The tenant, and the store where the table has one, set in a `where` or a row.
abbrev pub scoped : String → TenantContext → Fields → Fields
scoped table ctx fs = stamp ctx.tenant_id (held_store table ctx) fs

-- `args[key] || {}`
abbrev pub object_at : String → Fields → Fields
object_at key args = elim (get_field key args) [ object fs ↦ fs | _ ↦ end ]

-- A row that is written, with its nested rows.
abbrev pub scoped_row : String → TenantContext → Fields → Fields
scoped_row table ctx fs = inject_fields ctx.tenant_id ctx.store_id (scoped table ctx fs)

abbrev pub scoped_rows : String → TenantContext → Items → Items
scoped_rows table ctx nil = nil
scoped_rows table ctx (cons (object fs) vs) =
    cons (object (scoped_row table ctx fs)) (scoped_rows table ctx vs)
scoped_rows table ctx (cons v vs) = cons v (scoped_rows table ctx vs)

-- The `data` of `createMany`: one row or a list.
abbrev pub scoped_data : String → TenantContext → Value → Value
scoped_data table ctx (array vs) = array (scoped_rows table ctx vs)
scoped_data table ctx (object fs) = object (scoped_row table ctx fs)
scoped_data table ctx other = other

-- A creation is refused without a store where the table needs one.
abbrev pub needs_store : String → TenantContext → Bool
needs_store table ctx =
    is_store_scoped table && elim (real_store ctx.store_id) [ none ↦ true | some n ↦ false ]

-- Step 2 for the operations with a filter.
abbrev pub filtered : String → TenantContext → Fields → Fields
filtered table ctx args =
    set_field "where" (object (scoped table ctx (object_at "where" args))) args

-- `if (anyArgs.data) injectNestedRelations(anyArgs.data, ctx)`
abbrev pub with_nested : TenantContext → Fields → Fields
with_nested ctx args = elim (get_field "data" args) [
  | undefined ↦ args
  | v ↦ set_field "data" (inject ctx.tenant_id ctx.store_id v) args
]

abbrev has_underscore : String → Bool
has_underscore key = any (λ c. c == b'_') (codes key)

-- `Object.assign(acc, inner)`
abbrev assign : Fields → Fields → Fields
assign acc end = acc
assign acc (field k v fs) = assign (set_field k v acc) fs

abbrev remove : String → Fields → Fields
remove key end = end
remove key (field k v fs) = if str_eq k key then fs else field k v (remove key fs)

-- One key of a compound unique `where`: its fields move up.
abbrev flatten_key : String → Value → Fields → Fields
flatten_key k (object inner) acc = if has_underscore k then remove k (assign acc inner) else acc
flatten_key k other acc = acc

abbrev flatten_keys : Fields → Fields → Fields
flatten_keys end acc = acc
flatten_keys (field k v rest) acc = flatten_keys rest (flatten_key k (get_field k acc) acc)

abbrev pub flatten : Fields → Fields
flatten fs = flatten_keys fs fs

-- The arguments of the `findFirst` that a unique lookup becomes; that call is intercepted again.
abbrev pub redirected : String → TenantContext → Fields → Fields
redirected table ctx args =
    set_field "where" (object (scoped table ctx (flatten (object_at "where" args)))) args

abbrev pub with_create : String → TenantContext → Fields → Fields
with_create table ctx args =
    set_field "data" (object (scoped_row table ctx (object_at "data" args))) args

abbrev pub with_upsert : String → TenantContext → Fields → Fields
with_upsert table ctx args =
    set_field "update" (object (scoped_row table ctx (object_at "update" args)))
      (set_field "create" (object (scoped_row table ctx (object_at "create" args))) args)

abbrev pub with_create_many : String → TenantContext → Fields → Fields
with_create_many table ctx args = elim (get_field "data" args) [
  | undefined ↦ args
  | v ↦ set_field "data" (scoped_data table ctx v) args
]

abbrev pub unless_storeless : String → TenantContext → Query → Query
unless_storeless table ctx q = if needs_store table ctx then missing_store_context else q

-- With a tenant context.
unfoldable pub rewrite : String → TenantContext → Operation → Fields → Query
unfolding is_store_scoped inject inject_fields
rewrite table ctx create args =
    unless_storeless table ctx (query create (with_create table ctx args))
rewrite table ctx update args = query update (filtered table ctx (with_nested ctx args))
rewrite table ctx upsert args =
    unless_storeless table ctx (query upsert (with_upsert table ctx args))
rewrite table ctx create_many args =
    unless_storeless table ctx (query create_many (with_create_many table ctx args))
rewrite table ctx find_unique args =
    query find_first (filtered table ctx (redirected table ctx args))
rewrite table ctx find_unique_or_throw args =
    query find_first_or_throw (filtered table ctx (redirected table ctx args))
rewrite table ctx create_many_and_return args = query create_many_and_return args
rewrite table ctx update_many_and_return args = query update_many_and_return args
rewrite table ctx operation args = query operation (filtered table ctx args)

-- Without one: `strict` says that this is production or a test run.
abbrev pub without_context : Bool → Operation → Fields → Query
without_context strict operation args =
    if strict then missing_tenant_context else query operation args

unfoldable pub all_operations : Bool → Option TenantContext → String → Operation → Fields → Query
unfolding is_unscoped rewrite
all_operations strict none table operation args =
    if is_unscoped table then query operation args else without_context strict operation args
all_operations strict (some ctx) table operation args =
    if is_unscoped table then query operation args else rewrite table ctx operation args
