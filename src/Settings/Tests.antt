-- ===== src/Settings/Tests.antt =====
-- A store of branding with a default row, and store 5 that has merged it into its cache.
use generic_ecommerce_store.Common.{◌≡◌, none, some, refl, true, false, arith, if◌then◌else◌}
use text.Mathlib.Text.{◌==◌ as str_eq}
use generic_ecommerce_store.Tenancy.{Fields, field, end, scalar, TenantContext}
use generic_ecommerce_store.Settings.{Config, World, read, read_rows, write}
use generic_ecommerce_store.Settings.Staleness.{read-write_stale}

abbrev branding : Config
branding = record {
  key = "branding";
  parse = λ value. some value;
  defaults = field "title" (scalar "Shop") end;
  on_read = λ value. value;
  on_write = λ value. value;
  store_scoped = true;
}

abbrev main_store : TenantContext
main_store = record { tenant_id = 1; store_id = some 2; is_default_store = true }

abbrev side_store : TenantContext
side_store = record { tenant_id = 1; store_id = some 5; is_default_store = false }

abbrev old : Fields
old = field "title" (scalar "Old") end

abbrev new : Fields
new = field "title" (scalar "New") end

abbrev world : World
world = record {
  rows = λ tenant store key. some old;
  cache = λ key. if str_eq key "1:5:branding" then some (old, 900) else none;
}

abbrev after : World
after = (write branding main_store new world).1

read-write_stale_example : (read branding side_store 30000 800 after).0 ≡ old
unfolding generic_ecommerce_store.Tenancy.get_effective_store_id
    generic_ecommerce_store.Settings.cache_key_for
read-write_stale_example =
    read-write_stale branding main_store side_store new new old 30000 800 900 world refl refl refl
      refl (omega arith)
