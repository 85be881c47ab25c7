-- ===== src/Catalog.antt =====
-- backend/src/services/product.service.ts and product.shared.ts: the catalog's rows, and who sees what of it.
-- The reviews of a product, and the order and the pages of the list, are left out.
pub mod Numerals
pub mod Slugs
pub mod Unique
pub mod Visible
pub mod Variants
pub mod Images
pub mod Writes
pub mod Files
pub mod Kept
mod Tests
use generic_ecommerce_store.Common.{
  ℕ, Bool, Option, none, some, List, [], ◌∷◌, map, String, ◌==◌, ◌&&◌, ◌||◌, not, if◌then◌else◌,
  true, false,
}
use generic_ecommerce_store.Common.Lists.{find?, keep, any}
use generic_ecommerce_store.Common.Counting.{option_map}
use generic_ecommerce_store.Pricing.{
  PriceBreak, Variant, Override, EffectiveVariant, resolve_variant_effective,
}
use generic_ecommerce_store.Stores.Inventory.{OverrideRow, is_override}
use generic_ecommerce_store.Tenancy.{TenantContext}
use generic_ecommerce_store.Roles.{Role, has_any_role, admin, management, vip}

pub data PricingMode : Type 0 where
  unit weight : PricingMode

pub record ProductRow : Type 0 where
  pub id : ℕ
  pub name : String
  pub slug : String
  pub category_id : ℕ
  pub description : Option String
  pub vip_only : Bool
  pub hidden : Bool
  pub card_size : String
  pub sort_order : ℕ

pub record ImageRow : Type 0 where
  pub product_id : ℕ
  pub url : String
  pub role : String
  pub sort_order : ℕ

-- A row of `product_variants` with its quantity options, each with its place, and price breaks.
pub record VariantRow : Type 0 where
  pub id : ℕ
  pub product_id : ℕ
  pub label : String
  pub sku : String
  pub pricing_mode : PricingMode
  pub base_price : ℕ
  pub stock : ℕ
  pub stock_enabled : Bool
  pub is_default : Bool
  pub active : Bool
  pub sort_order : ℕ
  pub quantity_options : List (ℕ × ℕ)
  pub price_breaks : List PriceBreak

-- The catalog of a tenant: its rows, the ids of its categories, the variants that orders name, the
-- uploaded files by their paths, the ids that the next rows get, and what `path.resolve` makes of a name
-- under the directory of the uploads: the path, or none where that leaves the directory.
pub record Catalog : Type 0 where
  pub products : List ProductRow
  pub images : List ImageRow
  pub variants : List VariantRow
  pub categories : List ℕ
  pub ordered : List ℕ
  pub files : List String
  pub resolve : String → Option String
  pub next_product : ℕ
  pub next_variant : ℕ

pub record ProductVisibilityFilter : Type 0 where
  pub include_hidden : Bool
  pub include_vip_only : Bool

abbrev pub sees_all : List Role → Bool
sees_all roles = has_any_role roles (admin ∷ management ∷ [])

abbrev pub to_visibility_filter : List Role → ProductVisibilityFilter
to_visibility_filter roles =
    let some_of : ProductVisibilityFilter =
      if has_any_role roles (vip ∷ [])
      then record { include_hidden = false; include_vip_only = true }
      else record { include_hidden = false; include_vip_only = false } in
    if sees_all roles then record { include_hidden = true; include_vip_only = true } else some_of

-- `visibilityFilterToWhere`, as a test of a row.
abbrev pub is_visible : ProductVisibilityFilter → ProductRow → Bool
is_visible f p =
    if f.include_hidden && f.include_vip_only
    then true
    else if f.include_hidden
    then not p.vip_only
    else if f.include_vip_only
    then not p.hidden
    else not p.hidden && not p.vip_only

-- What `resolveVariantEffective` reads of a variant.
abbrev pub priced : ProductRow → VariantRow → Variant
priced p v = record {
  product_name = p.name;
  label = v.label;
  base_price = v.base_price;
  stock = v.stock;
  stock_enabled = v.stock_enabled;
  active = v.active;
  quantity_options = map (λ o. o.0) v.quantity_options;
  price_breaks = v.price_breaks;
}

-- A variant as it is shown; `available` is absent where no override is applied.
pub record VariantView : Type 0 where
  pub row : VariantRow
  pub available : Option Bool

abbrev pub plain_view : VariantRow → VariantView
plain_view v = record { row = v; available = none }

abbrev pub effective_view : VariantRow → EffectiveVariant → VariantView
effective_view v eff = record {
  row = record v { base_price = eff.price; stock = eff.stock; active = eff.active };
  available = some eff.available;
}

-- The store whose overrides apply: a real one that is not the default.
abbrev pub real_store_of : TenantContext → Option ℕ → Option ℕ
real_store_of ctx none = none
real_store_of ctx (some id) = if id == 0 || ctx.is_default_store then none else some id

abbrev pub override_store : Option TenantContext → Option ℕ
override_store none = none
override_store (some ctx) = real_store_of ctx ctx.store_id

-- `applyStoreOverrides` for a variant; the overrides of a store have distinct variants.
abbrev pub apply_store_overrides :
    List OverrideRow → Option ℕ → ProductRow → VariantRow → VariantView
apply_store_overrides overrides none p v = plain_view v
apply_store_overrides overrides (some store) p v = effective_view v (
    resolve_variant_effective (priced p v)
      (option_map (λ (r : OverrideRow). r.values) (find? (is_override store v.id) overrides)) false)

abbrev pub Overrides : Type 0
Overrides = List OverrideRow × Option TenantContext × Bool

-- A product with its variants; `base` asks for the canonical values.
abbrev pub view : Catalog → Overrides → ProductRow → ProductRow × List VariantView
view c (overrides, ctx, base) p =
    let own = keep (λ (v : VariantRow). v.product_id == p.id) c.variants in
    let store : Option ℕ = if base then none else override_store ctx in
    (p, map (apply_store_overrides overrides store p) own)

abbrev pub visible_rows : Catalog → List Role → List ProductRow
visible_rows c roles = keep (is_visible (to_visibility_filter roles)) c.products

unfoldable pub get_all_products :
    Catalog → Overrides → List Role → List (ProductRow × List VariantView)
get_all_products c o roles = map (view c o) (visible_rows c roles)

abbrev pub has_id : ℕ → ProductRow → Bool
has_id id p = p.id == id

-- The guards of `getProductById`, which hide a product as if it were not there.
abbrev pub shown_to :
    Catalog → Overrides → List Role → Option ProductRow → Option (ProductRow × List VariantView)
shown_to c o roles none = none
shown_to c o roles (some p) =
    if p.hidden && not (sees_all roles)
    then none
    else if p.vip_only && not (has_any_role roles (admin ∷ management ∷ vip ∷ []))
    then none
    else some (view c o p)

unfoldable pub get_product_by_id :
    Catalog → Overrides → ℕ → List Role → Option (ProductRow × List VariantView)
get_product_by_id c o id roles = shown_to c o roles (find? (has_id id) c.products)
