-- ===== src/Pricing/Quantities.antt =====
-- Which quantities may be ordered.
use generic_ecommerce_store.Common.{
  ◌⊎◌, arith, ◌+◌, [], ltb, ◌<◌, ◌↔◌, ◌∷◌, any, true, List, ℕ, ◌≡◌,
}
use generic_ecommerce_store.Pricing.{is_quantity_allowed, distance}
use generic_ecommerce_store.Money.{epsilon}

-- The quantity differs from some option by less than the tolerance.
abbrev pub Near : ℕ → List ℕ → Type 0
Near quantity [] = ⊥
Near quantity (o ∷ options) =
    ((o < quantity + epsilon) × (quantity < o + epsilon)) ⊎ Near quantity options

any-Near :
    (quantity : ℕ) (options : List ℕ)
    → (any (λ allowed. ltb (distance allowed quantity) epsilon) options ≡ true)
      ↔ Near quantity options
any-Near quantity [] = (λ h. absurd (cc), λ h. absurd h)
any-Near quantity (o ∷ options) = ground (arith, any-Near quantity options)

-- A quantity is allowed exactly when it is positive and, for a variant that has quantity options,
-- differs from one of them by less than 1e-9.
pub is_quantity_allowed_iff :
    (options : List ℕ) (quantity : ℕ)
    → (is_quantity_allowed options quantity ≡ true)
      ↔ ((0 < quantity) × ((options ≡ []) ⊎ Near quantity options))
unfolding is_quantity_allowed
is_quantity_allowed_iff [] quantity = ground arith
is_quantity_allowed_iff (o ∷ options) quantity = ground (arith, any-Near quantity (o ∷ options))
