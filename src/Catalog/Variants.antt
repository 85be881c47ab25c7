-- ===== src/Catalog/Variants.antt =====
-- backend/src/services/product.service.ts: the variants of a product that is written.
-- Prices are in cents and stock in thousandths. A table takes rows one after the other, although the
-- service starts the writes of the variants together.
use text.Mathlib.Text.{◌==◌ as str_eq}
use generic_ecommerce_store.Common.{
  ℕ, suc, Bool, Option, none, some, List, [], ◌∷◌, ◌++◌, map, String, ◌==◌, ◌&&◌, not,
  if◌then◌else◌, true, false,
}
use generic_ecommerce_store.Common.Lists.{any}
use generic_ecommerce_store.Text.{trimmed}
use generic_ecommerce_store.Pricing.{PriceBreak, or_else}
use generic_ecommerce_store.Catalog.{PricingMode, unit, VariantRow}
use generic_ecommerce_store.Catalog.Slugs.{candidate}

pub record VariantQuantityOptionInput : Type 0 where
  pub quantity : ℕ
  pub sort_order : Option ℕ

pub record VariantInput : Type 0 where
  pub id : Option ℕ
  pub label : String
  pub sku : Option String
  pub pricing_mode : Option PricingMode
  pub base_price : ℕ
  pub stock : Option ℕ
  pub stock_enabled : Option Bool
  pub is_default : Option Bool
  pub active : Option Bool
  pub sort_order : Option ℕ
  pub quantity_options : List VariantQuantityOptionInput
  pub price_breaks : List PriceBreak

abbrev pub options_from : ℕ → List VariantQuantityOptionInput → List (ℕ × ℕ)
options_from i [] = []
options_from i (o ∷ os) = (o.quantity, or_else o.sort_order i) ∷ options_from (suc i) os

-- What both writes set of a row.
abbrev pub filled : VariantInput → ℕ → VariantRow → VariantRow
filled v index r = record r {
  label = v.label;
  pricing_mode = or_else v.pricing_mode unit;
  base_price = v.base_price;
  stock = or_else v.stock 0;
  stock_enabled = or_else v.stock_enabled true;
  is_default = or_else v.is_default false;
  active = or_else v.active true;
  sort_order = or_else v.sort_order index;
  quantity_options = options_from 0 v.quantity_options;
  price_breaks = v.price_breaks;
}

-- The row of `buildVariantCreate`: without a SKU it gets the slug and its place.
abbrev pub build_variant_create : ℕ → ℕ → VariantInput → String → ℕ → VariantRow
build_variant_create id product v slug index = filled v index (record {
  id = id;
  product_id = product;
  label = v.label;
  sku = or_else (trimmed v.sku) (candidate slug (suc index));
  pricing_mode = unit;
  base_price = v.base_price;
  stock = 0;
  stock_enabled = true;
  is_default = false;
  active = true;
  sort_order = index;
  quantity_options = [];
  price_breaks = [];
})

abbrev pub is_flagged : VariantInput → Bool
is_flagged v = or_else v.is_default false

abbrev pub flag_first : List VariantInput → List VariantInput
flag_first [] = []
flag_first (v ∷ vs) =
    record v { is_default = some true }
    ∷ map (λ (w : VariantInput). record w { is_default = some false }) vs

-- `withSingleDefault`: the first one if none is flagged, else those that are.
unfoldable pub with_single_default : List VariantInput → List VariantInput
with_single_default vs =
    if any is_flagged vs
    then map (λ (w : VariantInput). record w { is_default = some (is_flagged w) }) vs
    else flag_first vs

-- `if (v.id)`
abbrev pub id_of : VariantInput → Option ℕ
id_of v = elim v.id [ none ↦ none | some id ↦ if id == 0 then none else some id ]

-- The variants with the id that the next one gets.
abbrev pub Rows : Type 0
Rows = List VariantRow × ℕ

-- Why a write of a variant fails.
pub data VariantError : Type 0 where
  sku_taken variant_missing : VariantError

pub data Written : Type 0 where
  broken : VariantError → Written
  written : Rows → Written

abbrev has_sku : String → VariantRow → Bool
has_sku sku r = str_eq r.sku sku

abbrev with_variant_id : ℕ → VariantRow → Bool
with_variant_id id r = r.id == id

abbrev pub create_variant : Rows → ℕ → VariantInput → String → ℕ → Written
create_variant (rows, next) product v slug index =
    let r = build_variant_create next product v slug index in
    if any (has_sku r.sku) rows then broken sku_taken else written (rows ++ r ∷ [], suc next)

-- The row keeps its SKU unless another one is given.
abbrev pub updated : VariantInput → ℕ → VariantRow → VariantRow
updated v index r = filled v index (record r { sku = or_else (trimmed v.sku) r.sku })

abbrev pub clashes : ℕ → Option String → List VariantRow → Bool
clashes id none rows = false
clashes id (some sku) rows = any (λ r. has_sku sku r && not (r.id == id)) rows

-- The row of the id is updated whichever product it belongs to.
abbrev pub update_variant : Rows → ℕ → VariantInput → ℕ → Written
update_variant (rows, next) id v index =
    if not (any (with_variant_id id) rows)
    then broken variant_missing
    else if clashes id (trimmed v.sku) rows
    then broken sku_taken
    else written (map (λ r. if r.id == id then updated v index r else r) rows, next)

abbrev pub write_variant : Rows → ℕ → String → ℕ → VariantInput → Option ℕ → Written
write_variant rows product slug index v none = create_variant rows product v slug index
write_variant rows product slug index v (some id) = update_variant rows id v index

abbrev pub write_all : Written → ℕ → String → ℕ → List VariantInput → Written
write_all (broken e) product slug index vs = broken e
write_all (written rows) product slug index [] = written rows
write_all (written rows) product slug index (v ∷ vs) =
    write_all (write_variant rows product slug index v (id_of v)) product slug (suc index) vs

-- All are created, whatever ids they have.
abbrev pub create_all : Written → ℕ → String → ℕ → List VariantInput → Written
create_all (broken e) product slug index vs = broken e
create_all (written rows) product slug index [] = written rows
create_all (written rows) product slug index (v ∷ vs) =
    create_all (create_variant rows product v slug index) product slug (suc index) vs

abbrev pub is_kept : List VariantInput → ℕ → Bool
is_kept vs id = any (λ v. elim (id_of v) [ none ↦ false | some k ↦ k == id ]) vs

-- The variants of the product that are not listed any more become inactive.
abbrev pub deactivated : ℕ → List VariantInput → List VariantRow → List VariantRow
deactivated product vs rows =
    map
      (λ (r : VariantRow).
        if r.product_id == product && not (is_kept vs r.id) then record r { active = false } else r)
      rows
