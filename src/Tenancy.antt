-- ===== src/Tenancy.antt =====
-- backend/src/config/tenantScope.ts, tenantContext.ts and the values that database.ts rewrites: the
-- arguments of a query are an object of JavaScript, fields in their order.
pub mod Inject
pub mod Interceptor
pub mod Scoped
mod Tests
use text.Mathlib.Text.{◌==◌ as str_eq}
use text.Mathlib.TextEquality.{eq_iff}
use generic_ecommerce_store.Common.{
  ℕ, zero, suc, ◌≡◌, refl, Bool, Option, none, some, List, [], ◌∷◌, String, if◌then◌else◌, true,
  false, arith,
}
use generic_ecommerce_store.Common.Lists.{any}

mutual
  -- A value of JavaScript as far as the interceptor looks at it: `undefined` stands for null and "",
  -- too, and `scalar` is any other value that is neither a number nor an object.
  pub data Value : Type 0 where
    undefined : Value
    number : ℕ → Value
    scalar : String → Value
    object : Fields → Value
    array : Items → Value

  pub data Items : Type 0 where
    nil : Items
    cons : Value → Items → Items

  pub data Fields : Type 0 where
    end : Fields
    field : String → Value → Fields → Fields

-- `o[key]`
abbrev pub get_field : String → Fields → Value
get_field key end = undefined
get_field key (field k v fs) = if str_eq k key then v else get_field key fs

-- `o[key] = v`: in the place of the key, or at the end.
abbrev pub set_field : String → Value → Fields → Fields
set_field key v end = field key v end
set_field key v (field k w fs) =
    if str_eq k key then field k v fs else field k w (set_field key v fs)

pub get_field-set_field :
    (key j : String) (v : Value) (fs : Fields)
    → get_field j (set_field key v fs) ≡ (if str_eq key j then v else get_field j fs)
get_field-set_field key j v end = refl
get_field-set_field key j v (field k w fs) =
    ground (arith, eq_iff key j, eq_iff k key, eq_iff k j, get_field-set_field key j v fs)

-- `TenantContext`; the interceptor does not read its `scope`.
pub record TenantContext : Type 0 where
  pub tenant_id : ℕ
  pub store_id : Option ℕ
  pub is_default_store : Bool

abbrev pub includes : List String → String → Bool
includes names name = any (λ n. str_eq n name) names

abbrev pub unscoped_tables : List String
unscoped_tables =
    "roles" ∷ "address_geocode_cache" ∷ "tenants" ∷ "stores" ∷ "refresh_tokens" ∷ "tenant_audit_log"
    ∷ []

abbrev pub store_scoped_tables : List String
store_scoped_tables =
    "orders" ∷ "order_items" ∷ "order_status_events" ∷ "payments" ∷ "cart_items" ∷ "print_jobs"
    ∷ "pos_outbox" ∷ "order_pos_mappings" ∷ "announcements" ∷ "contact_messages" ∷ []

unfoldable pub is_unscoped : String → Bool
is_unscoped = includes unscoped_tables

unfoldable pub is_store_scoped : String → Bool
is_store_scoped = includes store_scoped_tables

-- `ctx.storeId`, if it is a real store: neither null nor 0.
abbrev pub real_store : Option ℕ → Option ℕ
real_store none = none
real_store (some zero) = none
real_store (some (suc n)) = some (suc n)

unfoldable pub get_effective_store_id : Option TenantContext → ℕ
get_effective_store_id none = 0
get_effective_store_id (some ctx) =
    if ctx.is_default_store then 0 else elim ctx.store_id [ none ↦ 0 | some n ↦ n ]
