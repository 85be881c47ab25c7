-- ===== src/Pricing.antt =====
-- backend/src/services/pricing.ts and storeVariant.effective.ts: the unit price of a quantity, the
-- quantities that may be ordered, and the effect of a per-store override on a variant.
-- A negative quantity, which `isQuantityAllowed` refuses as it refuses 0, has no value here.
pub mod UnitPrice
pub mod Quantities
pub mod Effective
mod Tests
use generic_ecommerce_store.Common.{
  ◌==◌, ℕ, zero, suc, ◌+◌, ◌-◌, ◌*◌, Bool, true, false, not, ◌&&◌, ◌||◌, Option, none, some, List,
  [], ◌∷◌, String, ltb, leb, if◌then◌else◌, length, get_elem?, any,
}
use generic_ecommerce_store.Money.{epsilon}

pub record PriceBreak : Type 0 where
  pub min_quantity : ℕ
  pub unit_price : ℕ

-- A `productVariant` row with its product's name, quantity options and price breaks.
pub record Variant : Type 0 where
  pub product_name : String
  pub label : String
  pub base_price : ℕ
  pub stock : ℕ
  pub stock_enabled : Bool
  pub active : Bool
  pub quantity_options : List ℕ
  pub price_breaks : List PriceBreak

-- The test of the loop in `resolveUnitPrice`.
unfoldable pub is_eligible : ℕ → PriceBreak → Bool
is_eligible quantity b = leb b.min_quantity (quantity + epsilon)

-- The loop of `resolveUnitPrice`: `i` counts down from the number of breaks, the break that is
-- looked at has index `i - 1`.
unfoldable pub choose_break : List PriceBreak → ℕ → ℕ → ℕ → ℕ
unfolding is_eligible
choose_break breaks quantity chosen zero = chosen
choose_break breaks quantity chosen (suc i) =
    let rest = choose_break breaks quantity chosen i in
    elim (get_elem? breaks i) [
      | none ↦ chosen
      | some b ↦ if is_eligible quantity b then b.unit_price else rest
    ]

unfoldable pub resolve_unit_price : ℕ → List PriceBreak → ℕ → ℕ
unfolding choose_break
resolve_unit_price base_price breaks quantity =
    choose_break breaks quantity base_price (length breaks)

-- In 10^-12 cents.
unfoldable pub resolve_line_total : ℕ → List PriceBreak → ℕ → ℕ
unfolding resolve_unit_price
resolve_line_total base_price breaks quantity =
    resolve_unit_price base_price breaks quantity * quantity

-- `Math.abs(a - b)`
abbrev pub distance : ℕ → ℕ → ℕ
distance a b = (a - b) + (b - a)

unfoldable pub is_quantity_allowed : List ℕ → ℕ → Bool
is_quantity_allowed options quantity =
    if not (ltb 0 quantity)
    then false
    else if length options == 0
    then true
    else any (λ allowed. ltb (distance allowed quantity) epsilon) options

-- `VariantOverrideLike`, a `storeVariantOverride` row
pub record Override : Type 0 where
  pub stock : ℕ
  pub price_override : Option ℕ
  pub active_override : Option Bool

pub record EffectiveVariant : Type 0 where
  pub price : ℕ
  pub stock : ℕ
  pub active : Bool
  pub available : Bool
  pub price_overridden : Bool

-- `a ?? b`
abbrev pub or_else {ℓ} : {A : Type ℓ} → Option A → A → A
or_else none b = b
or_else (some a) b = a

-- `a != null`
abbrev pub is_some {ℓ} : {A : Type ℓ} → Option A → Bool
is_some none = false
is_some (some a) = true

-- `override?.field`
abbrev pub field_of {ℓ} : {A : Type ℓ} → (Override → Option A) → Option Override → Option A
field_of f none = none
field_of f (some o) = f o

unfoldable pub resolve_variant_effective : Variant → Option Override → Bool → EffectiveVariant
resolve_variant_effective variant override is_default_store =
    let stock : ℕ = elim override [
      | none ↦ if is_default_store then variant.stock else 0
      | some o ↦ o.stock
    ] in
    let active : Bool = or_else (field_of (λ o. o.active_override) override) variant.active in
    record {
      price = or_else (field_of (λ o. o.price_override) override) variant.base_price;
      stock = stock;
      active = active;
      available = active && (not variant.stock_enabled || ltb 0 stock);
      price_overridden = is_some (field_of (λ o. o.price_override) override);
    }
