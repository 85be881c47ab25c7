-- ===== src/Stores/Inventory.antt =====
-- backend/src/services/storeVariantOverride.service.ts, and `cloneFromDefault` of store.service.ts: the
-- stock and the prices that a store has of its own.
-- A negative or unreadable id or stock is `none`; a price is in cents and not negative, although the code
-- does not test it. The concurrent writes of a clone are to distinct rows, and run here in turn.
use text.Mathlib.Text.{◌==◌ as str_eq}
use generic_ecommerce_store.Common.{
  ℕ, zero, suc, Bool, Option, none, some, List, [], ◌∷◌, ◌++◌, map, String, ◌==◌, ◌&&◌, not,
  if◌then◌else◌, true, false,
}
use generic_ecommerce_store.Common.Lists.{any, find?, keep}
use generic_ecommerce_store.Pricing.{or_else, Variant, Override}
use generic_ecommerce_store.Stores.{Store, is_row, is_default_of}

-- A row of `product_variants`.
pub record VariantRow : Type 0 where
  pub id : ℕ
  pub tenant_id : ℕ
  pub values : Variant

-- A row of `store_variant_overrides`.
pub record OverrideRow : Type 0 where
  pub tenant_id : ℕ
  pub store_id : ℕ
  pub variant_id : ℕ
  pub values : Override

-- A row of `ui_settings`.
pub record SettingRow : Type 0 where
  pub tenant_id : ℕ
  pub store_id : ℕ
  pub key : String
  pub value : String

pub record Inventory : Type 0 where
  pub stores : List Store
  pub variants : List VariantRow
  pub overrides : List OverrideRow
  pub settings : List SettingRow

pub data InventoryError : Type 0 where
  sentinel_store invalid_store unknown_store unknown_variant invalid_stock : InventoryError
  no_default_store : InventoryError

pub data Answer (A : Type 0) : Type 0 where
  fails : InventoryError → Answer A
  gives : A → Answer A

-- `upsert` on a unique key.
abbrev pub upsert_row : {A : Type 0} → (A → Bool) → A → (A → A) → List A → List A
upsert_row key create update rows =
    if any key rows then map (λ r. if key r then update r else r) rows else rows ++ create ∷ []

-- `where: { storeId_variantId }`
abbrev pub is_override : ℕ → ℕ → OverrideRow → Bool
is_override store variant r = r.store_id == store && r.variant_id == variant

-- The input of `upsertOverride`, less the ids: `none` is an absent field.
pub record OverrideInput : Type 0 where
  pub stock : Option (Option ℕ)
  pub price_override : Option (Option ℕ)
  pub active_override : Option (Option Bool)

-- The given stock, once it is known to be a number.
abbrev pub stock_or : Option (Option ℕ) → ℕ → ℕ
stock_or (some (some n)) kept = n
stock_or _ kept = kept

abbrev pub bad_stock : Option (Option ℕ) → Bool
bad_stock (some none) = true
bad_stock _ = false

-- `updateData`
abbrev pub overridden : OverrideInput → Override → Override
overridden input o = record {
  stock = stock_or input.stock o.stock;
  price_override = or_else input.price_override o.price_override;
  active_override = or_else input.active_override o.active_override;
}

-- The columns' defaults.
abbrev pub blank : Override
blank = record { stock = 0; price_override = none; active_override = none }

-- `createData`
abbrev pub created : ℕ → ℕ → ℕ → OverrideInput → OverrideRow
created tenant store variant input = record {
  tenant_id = tenant;
  store_id = store;
  variant_id = variant;
  values = overridden input blank;
}

-- `assertStoreInTenant`
abbrev pub in_tenant : Inventory → ℕ → ℕ → Bool
in_tenant inv tenant store = any (is_row tenant store) inv.stores

abbrev pub is_variant : ℕ → ℕ → VariantRow → Bool
is_variant tenant variant v = v.id == variant && v.tenant_id == tenant

abbrev pub checked_upsert : Inventory → ℕ → ℕ → ℕ → OverrideInput → Answer Inventory
checked_upsert inv tenant store variant input =
    if not (in_tenant inv tenant store)
    then fails unknown_store
    else if not (any (is_variant tenant variant) inv.variants)
    then fails unknown_variant
    else if bad_stock input.stock
    then fails invalid_stock
    else gives (record inv {
      overrides =
          upsert_row (is_override store variant) (created tenant store variant input)
            (λ r. record r { values = overridden input r.values }) inv.overrides;
    })

unfoldable pub upsert_override : Inventory → ℕ → Option ℕ → ℕ → OverrideInput → Answer Inventory
upsert_override inv tenant none variant input = fails invalid_store
upsert_override inv tenant (some zero) variant input = fails sentinel_store
upsert_override inv tenant (some (suc n)) variant input =
    checked_upsert inv tenant (suc n) variant input

-- `deleteMany`, and the same check of the store before it.
abbrev pub is_tenant_override : ℕ → ℕ → ℕ → OverrideRow → Bool
is_tenant_override tenant store variant r = r.tenant_id == tenant && is_override store variant r

unfoldable pub delete_override : Inventory → ℕ → Option ℕ → ℕ → Answer Inventory
delete_override inv tenant none variant = fails invalid_store
delete_override inv tenant (some zero) variant = fails invalid_store
delete_override inv tenant (some (suc n)) variant =
    if not (in_tenant inv tenant (suc n))
    then fails unknown_store
    else gives (record inv {
      overrides = keep (λ r. not (is_tenant_override tenant (suc n) variant r)) inv.overrides;
    })

-- The overrides of a store with all variants of its tenant.
unfoldable pub list_for_store :
    Inventory → ℕ → Option ℕ → Answer (List OverrideRow × List VariantRow)
list_for_store inv tenant none = fails invalid_store
list_for_store inv tenant (some zero) = fails invalid_store
list_for_store inv tenant (some (suc n)) =
    if not (in_tenant inv tenant (suc n))
    then fails unknown_store
    else gives (
      keep (λ r. r.tenant_id == tenant && r.store_id == suc n) inv.overrides,
      keep (λ v. v.tenant_id == tenant) inv.variants,
    )

-- What a clone writes for a variant.
abbrev pub seed_of : VariantRow → Override
seed_of v = record { stock = v.values.stock; price_override = none; active_override = none }

abbrev pub seed_row : ℕ → ℕ → VariantRow → OverrideRow
seed_row tenant store v = record {
  tenant_id = tenant;
  store_id = store;
  variant_id = v.id;
  values = seed_of v;
}

abbrev pub reseed : ℕ → VariantRow → OverrideRow → OverrideRow
reseed tenant v r = record r { tenant_id = tenant; values = seed_of v }

abbrev pub seed : ℕ → ℕ → List VariantRow → List OverrideRow → List OverrideRow
seed tenant store [] rows = rows
seed tenant store (v ∷ vs) rows =
    seed tenant store vs
      (upsert_row (is_override store v.id) (seed_row tenant store v) (reseed tenant v) rows)

abbrev pub is_setting : ℕ → ℕ → SettingRow → Bool
is_setting tenant store r =
    r.tenant_id == tenant && (r.store_id == store && str_eq r.key "store_settings")

-- The tenant's settings, copied to the store if there are any.
abbrev pub copy_settings : ℕ → ℕ → Option SettingRow → List SettingRow → List SettingRow
copy_settings tenant store none rows = rows
copy_settings tenant store (some d) rows =
    upsert_row (is_setting tenant store)
      (record { tenant_id = tenant; store_id = store; key = "store_settings"; value = d.value })
      (λ r. record r { value = d.value }) rows

unfoldable pub clone_from_default : Inventory → ℕ → ℕ → Answer Inventory
clone_from_default inv tenant store =
    if not (in_tenant inv tenant store)
    then fails unknown_store
    else if not (any (is_default_of tenant) inv.stores)
    then fails no_default_store
    else gives (record inv {
      overrides = seed tenant store (keep (λ v. v.tenant_id == tenant) inv.variants) inv.overrides;
      settings = copy_settings tenant store (find? (is_setting tenant 0) inv.settings) inv.settings;
    })
