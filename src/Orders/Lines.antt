-- ===== src/Orders/Lines.antt =====
-- The price of an ordered line, as `createOrder` and `addItemToOrder` compute it.
pub mod Laws
pub mod Tax
use generic_ecommerce_store.Common.{
  ℕ, ◌*◌, ◌+◌, Bool, Option, none, some, String, not, ◌&&◌, true, false, if◌then◌else◌, List, [],
  ◌∷◌,
}
use generic_ecommerce_store.Pricing.{
  PriceBreak, Variant, Override, resolve_unit_price, is_quantity_allowed, resolve_variant_effective,
  EffectiveVariant,
}
use generic_ecommerce_store.Shop.{
  Shop, Result, ok, err, AppError, invalid_quantity, not_available_at_store, variant_not_found,
}
use generic_ecommerce_store.Orders.Stock.{StoreContext, is_base_context, store_or_zero}

-- An entry of `CreateOrderData.items`, and `AddOrderItemData`.
pub record Line : Type 0 where
  pub variant_id : ℕ
  pub quantity : ℕ

pub record PricedLine : Type 0 where
  pub variant_id : ℕ
  pub product_name : String
  pub variant_label : String
  pub quantity : ℕ
  pub unit_price : ℕ

-- The override row that is consulted: none in a base context.
abbrev pub override_for : StoreContext → Shop → ℕ → Option Override
override_for c s variant_id =
    if is_base_context c then none else s.overrides (store_or_zero c) variant_id

-- The breaks that apply: none on top of a store's flat price.
abbrev pub breaks_for : Variant → EffectiveVariant → List PriceBreak
breaks_for v effective = if effective.price_overridden then [] else v.price_breaks

-- The part that both handlers share: quantity, availability, unit price.
unfoldable pub price_line : StoreContext → Variant → Option Override → Line → Result PricedLine
price_line c v override line =
    let effective = resolve_variant_effective v override (is_base_context c) in
    if not (is_quantity_allowed v.quantity_options line.quantity)
    then err (invalid_quantity v.product_name)
    else if not (is_base_context c) && not effective.active
    then err (not_available_at_store v.product_name)
    else ok (record {
      variant_id = line.variant_id;
      product_name = v.product_name;
      variant_label = v.label;
      quantity = line.quantity;
      unit_price = resolve_unit_price effective.price (breaks_for v effective) line.quantity;
    })

abbrev pub cons_ok : Result PricedLine → Result (List PricedLine) → Result (List PricedLine)
cons_ok (err e) rest = err e
cons_ok (ok p) (err e) = err e
cons_ok (ok p) (ok ps) = ok (p ∷ ps)

-- `variantMap.get`: an active variant, or nothing.
abbrev pub active_variant : Shop → ℕ → Option Variant
active_variant s k = elim (s.variants k) [
  | none ↦ none
  | some v ↦ if v.active then some v else none
]

abbrev pub price_active : StoreContext → Shop → Line → Option Variant → Result PricedLine
price_active c s line none = err (variant_not_found line.variant_id)
price_active c s line (some v) = price_line c v (override_for c s line.variant_id) line

-- The `items.map` of `createOrder`: the first line that throws ends it.
unfoldable pub price_lines : StoreContext → Shop → List Line → Result (List PricedLine)
unfolding price_line
price_lines c s [] = ok []
price_lines c s (line ∷ lines) =
    cons_ok (price_active c s line (active_variant s line.variant_id)) (price_lines c s lines)

-- `subtotal += unitPrice * quantity`, an amount; the loop adds from the left.
unfoldable pub subtotal_from : ℕ → List PricedLine → ℕ
subtotal_from sum [] = sum
subtotal_from sum (p ∷ ps) = subtotal_from (sum + p.unit_price * p.quantity) ps
