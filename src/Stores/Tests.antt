-- ===== src/Stores/Tests.antt =====
-- Two tenants' stores, calls that are refused and calls that are not, and a cloned store.
use generic_ecommerce_store.Common.{
  ◌≤◌, ℕ, Bool, true, false, none, some, List, [], ◌∷◌, ◌≡◌, refl, inl, arith,
}
use generic_ecommerce_store.Common.Counting.{count}
use generic_ecommerce_store.Pricing.{Variant, resolve_variant_effective}
use generic_ecommerce_store.Common.Lists.{find?}
use generic_ecommerce_store.Stores.Race.{update_store_race}
use generic_ecommerce_store.Stores.{
  set_default_store, is_row, write_row, patched, no_store, suspends_default, Store, Stores, Patch,
  active, suspended, asked, resolve_active_store, StoreStatus,
}
use generic_ecommerce_store.Stores.Defaults.{left, IsSound, has_id}
use generic_ecommerce_store.Stores.Open.{
  Call, create_call, update_call, default_call, run, IsServed, run-IsServed,
}
use generic_ecommerce_store.Stores.Inventory.{VariantRow, Inventory, clone_from_default}
use generic_ecommerce_store.Stores.Seeded.{own_override, clone_from_default-sold}

abbrev row : ℕ → ℕ → Bool → StoreStatus → Store
row id tenant is_default status = record {
  id = id;
  tenant_id = tenant;
  name = "Shop";
  slug = "main";
  is_default = is_default;
  status = status;
}

abbrev stores : Stores
stores = record { rows = row 0 1 true active ∷ row 1 2 true active ∷ []; next_id = 2 }

-- Whether the row has the id is known but for the id.
known : (i : ℕ) → count (has_id i) stores.rows ≤ 1
known i = ground arith

fresh : (i : ℕ) → 2 ≤ i → count (has_id i) stores.rows ≤ 0
fresh i h = ground arith

stores-IsSound : IsSound 1 stores
stores-IsSound = record { fresh = fresh; unique = known; served = refl; single = omega arith }

abbrev suspension : Patch
suspension = record { name = none; slug = none; status = some suspended }

-- The default store is not suspended before another one is the default.
abbrev calls : List Call
calls =
    create_call 1 "Second" "second"
    ∷ update_call 1 0 suspension
    ∷ default_call 1 2
    ∷ update_call 1 0 suspension
    ∷ default_call 2 1
    ∷ []

run-IsServed_example :
    IsServed 1 false
      (run stores calls).rows
      (resolve_active_store (run stores calls).rows 1 (asked (some 0)) false)
run-IsServed_example = run-IsServed 1 stores stores-IsSound calls (asked (some 0)) false

abbrev variant : Variant
variant = record {
  product_name = "Tea";
  label = "Tin";
  base_price = 950;
  stock = 12000;
  stock_enabled = true;
  active = true;
  quantity_options = [];
  price_breaks = [];
}

abbrev tea : VariantRow
tea = record { id = 7; tenant_id = 1; values = variant }

abbrev inventory : Inventory
inventory = record {
  stores = row 0 1 true active ∷ row 1 1 false active ∷ [];
  variants = tea ∷ record tea { id = 8; tenant_id = 2 } ∷ [];
  overrides =
      record {
        tenant_id = 1;
        store_id = 1;
        variant_id = 7;
        values = record { stock = 3; price_override = some 1000; active_override = some false };
      }
      ∷ [];
  settings = [];
}

abbrev cloned : Inventory
cloned = record inventory {
  overrides =
      record {
        tenant_id = 1;
        store_id = 1;
        variant_id = 7;
        values = record { stock = 12000; price_override = none; active_override = none };
      }
      ∷ [];
}

clone_from_default-sold_example :
    resolve_variant_effective variant (own_override cloned.overrides 1 7) false
    ≡ resolve_variant_effective variant none true
unfolding clone_from_default
clone_from_default-sold_example =
    clone_from_default-sold inventory 1 1 cloned refl tea (inl refl) (omega arith)

-- Two stores of tenant 1, of which the second is to be suspended while it is made the default.
abbrev two_stores : Stores
two_stores = record {
  rows = row 0 1 true active ∷ record (row 1 1 false active) { slug = "second" } ∷ [];
  next_id = 2;
}

abbrev late_stores : Stores
late_stores = left two_stores (set_default_store two_stores 1 1)

update_store_race_example :
    (suspends_default (some suspended) (find? (is_row 1 1) two_stores.rows) ≡ false)
    × (resolve_active_store
          (left late_stores (write_row 1 1 late_stores late_stores.rows (patched suspension))).rows
          1
          no_store
          true
        ≡ none)
update_store_race_example =
    update_store_race 1 1 two_stores (record (row 1 1 false active) { slug = "second" }) refl refl
      true refl
