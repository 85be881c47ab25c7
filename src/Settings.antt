-- ===== src/Settings.antt =====
-- backend/src/services/settingsStore.ts: a store of settings that are read per store, with the process-wide
-- cache. A value of settings is an object of JavaScript; the schema and the two hooks are arguments. The
-- calls have a tenant context, and no override is an object where the base has an array.
pub mod Staleness
mod Tests
use Prim.Native.Char.{Char}
use Prim.Native.String.{◌++◌ as str_append}
use generic_ecommerce_store.Common.{
  ℕ, zero, suc, ◌+◌, ◌/◌, ◌%◌, Bool, Option, none, some, String, ltb, ◌==◌, ◌&&◌, not,
  if◌then◌else◌, true, false,
}
use text.Mathlib.Text.{◌==◌ as str_eq}
use generic_ecommerce_store.Tenancy.{
  Value, undefined, number, scalar, object, array, Fields, end, field, get_field, set_field,
  TenantContext, get_effective_store_id,
}
use generic_ecommerce_store.Ttl.{get, set, delete}

-- `SettingsStoreConfig`; the schema says whether a value is valid and what `parse` makes of it.
pub record Config : Type 0 where
  pub key : String
  pub parse : Fields → Option Fields
  pub defaults : Fields
  pub on_read : Fields → Fields
  pub on_write : Fields → Fields
  pub store_scoped : Bool

-- The rows of `ui_settings` by tenant, store and key, and the cache.
pub record World : Type 0 where
  pub rows : ℕ → ℕ → String → Option Fields
  pub cache : String → Option (Fields × ℕ)

-- A digit, and a number in decimal; the fuel is the number itself, which has no more digits.
abbrev digit : ℕ → String
digit n =
    if n == 0
    then "0"
    else if n == 1
    then "1"
    else if n == 2
    then "2"
    else if n == 3
    then "3"
    else if n == 4
    then "4"
    else if n == 5
    then "5"
    else if n == 6
    then "6"
    else if n == 7
    then "7"
    else if n == 8
    then "8"
    else "9"

decimal_within : ℕ → ℕ → String
decimal_within zero n = digit n
decimal_within (suc fuel) n =
    let front = decimal_within fuel (n / 10) in
    if ltb n 10 then digit n else str_append front (digit (n % 10))

unfoldable pub decimal : ℕ → String
unfolding decimal_within
decimal n = decimal_within n n

unfoldable mutual
  -- The value of one field after the override `ov`.
  pub merge_value : Value → Value → Value
  merge_value bv undefined = bv
  merge_value bv (number n) = number n
  merge_value bv (scalar s) = scalar s
  merge_value bv (array vs) = array vs
  merge_value (object base) (object override) = object (merge_store_scoped base override)
  merge_value bv (object override) = object override

  -- `mergeStoreScoped`
  pub merge_store_scoped : Fields → Fields → Fields
  merge_store_scoped base end = base
  merge_store_scoped base (field k undefined rest) = merge_store_scoped base rest
  merge_store_scoped base (field k ov rest) =
      merge_store_scoped (set_field k (merge_value (get_field k base) ov) base) rest

-- `{ ...base, ...fields }`
abbrev spread : Fields → Fields → Fields
spread base end = base
spread base (field k v rest) = spread (set_field k v base) rest

abbrev pub spread_row : Fields → Option Fields → Fields
spread_row base none = base
spread_row base (some row) = spread base row

abbrev pub merge_row : Fields → Option Fields → Fields
merge_row base none = base
merge_row base (some row) = merge_store_scoped base row

unfoldable pub cache_key_for : Config → ℕ → ℕ → String
unfolding decimal
cache_key_for c tenant store =
    if c.store_scoped
    then str_append (decimal tenant)
        (str_append ":" (str_append (decimal store) (str_append ":" c.key)))
    else str_append (decimal tenant) (str_append ":" c.key)

abbrev pub store_of : TenantContext → ℕ
store_of ctx = get_effective_store_id (some ctx)

-- The row of the store, unless it is the default store.
abbrev override_row : Config → TenantContext → World → Option Fields
override_row c ctx w = if store_of ctx == 0 then none else w.rows ctx.tenant_id (store_of ctx) c.key

-- What `read` finds in the rows.
unfoldable pub read_rows : Config → TenantContext → World → Fields
unfolding merge_store_scoped get_effective_store_id
read_rows c ctx w =
    let base = spread_row c.defaults (w.rows ctx.tenant_id 0 c.key) in
    c.on_read (if c.store_scoped then merge_row base (override_row c ctx w) else base)

abbrev pub read_from :
    Config
    → TenantContext
    → ℕ
    → ℕ
    → World
    → Option Fields × (String → Option (Fields × ℕ))
    → Fields × World
read_from c ctx ttl now w (some cached, cache) = (cached, record w { cache = cache })
read_from c ctx ttl now w (none, cache) =
    let result = read_rows c ctx w in
    (
      result,
      record w { cache = set ttl now (cache_key_for c ctx.tenant_id (store_of ctx)) result cache },
    )

unfoldable pub read : Config → TenantContext → ℕ → ℕ → World → Fields × World
unfolding read_rows cache_key_for set get
read c ctx ttl now w =
    read_from c ctx ttl now w (get now (cache_key_for c ctx.tenant_id (store_of ctx)) w.cache)

abbrev pub put_row :
    (ℕ → ℕ → String → Option Fields) → ℕ → ℕ → String → Fields → ℕ → ℕ → String → Option Fields
put_row rows tenant store key value t s k =
    if t == tenant && (s == store && str_eq k key) then some value else rows t s k

-- The store whose row `write` replaces.
abbrev pub written_store : Config → TenantContext → ℕ
written_store c ctx = if c.store_scoped then store_of ctx else 0

-- The entries that `write` drops: that of the default row, and that of the store.
abbrev pub invalidated :
    Config → TenantContext → (String → Option (Fields × ℕ)) → String → Option (Fields × ℕ)
invalidated c ctx cache =
    let less = delete (cache_key_for c ctx.tenant_id 0) cache in
    if c.store_scoped && not (store_of ctx == 0)
    then delete (cache_key_for c ctx.tenant_id (store_of ctx)) less
    else less

-- What `write` does with the parsed value: `none` is the error of a value that the schema refuses.
abbrev pub write_parsed : Config → TenantContext → World → Option Fields → Option Fields × World
write_parsed c ctx w none = (none, w)
write_parsed c ctx w (some validated) = (
  some validated,
  record {
    rows = put_row w.rows ctx.tenant_id (written_store c ctx) c.key (c.on_write validated);
    cache = invalidated c ctx w.cache;
  },
)

unfoldable pub write : Config → TenantContext → Fields → World → Option Fields × World
unfolding cache_key_for delete
write c ctx value w = write_parsed c ctx w (c.parse value)
