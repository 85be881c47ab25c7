-- ===== src/Pricing/Effective.antt =====
-- What a per-store override does to a variant.
use generic_ecommerce_store.Common.{
  arith, ◌<◌, none, ◌⊎◌, false, some, ◌↔◌, true, ◌≡◌, Bool, Option,
}
use generic_ecommerce_store.Pricing.{
  Option, Variant, Override, resolve_variant_effective, or_else, field_of,
}

-- A variant can be bought at a store exactly when it is active there and, if its stock is counted,
-- there is some: the override's stock, or with no override the variant's own at the default store
-- and none at any other.
pub available_iff :
    (v : Variant) (override : Option Override) (is_default : Bool)
    → ((resolve_variant_effective v override is_default).available ≡ true) ↔ (
        (or_else (field_of (λ o. o.active_override) override) v.active ≡ true)
        × ((v.stock_enabled ≡ false)
            ⊎ ((o : Override) × (override ≡ some o) × (0 < o.stock))
            ⊎ ((override ≡ none) × (is_default ≡ true) × (0 < v.stock))))
unfolding resolve_variant_effective
available_iff v none is_default = ground arith
available_iff v (some o) is_default = ground arith

-- The price is the override's if it sets one, which is then flagged as flat, and else the base price.
pub effective_price :
    (v : Variant) (override : Option Override) (is_default : Bool)
    → let e = resolve_variant_effective v override is_default in
      ((e.price_overridden ≡ true) × (field_of (λ o. o.price_override) override ≡ some e.price))
      ⊎ ((e.price_overridden ≡ false)
          × (e.price ≡ v.base_price)
          × (field_of (λ o. o.price_override) override ≡ none))
unfolding resolve_variant_effective
effective_price v none is_default = ground arith
effective_price v (some o) is_default = ground arith
