-- ===== src/Fulfillment/Eligible.antt =====
-- What a delivery order has passed.
use generic_ecommerce_store.Common.{inr, inl, Option-cases, ◌≡◌, ◌≤◌, ◌⊎◌, true, false, some, arith}
use generic_ecommerce_store.Shop.{Shop, delivery, ok}
use generic_ecommerce_store.Fulfillment.{Environment, Address, FulfillmentContext, validate}

module _ (env : Environment) (ctx : FulfillmentContext) (s : Shop) where
  -- A delivery that `validate` passes has an address that the eligibility service calls deliverable,
  -- a subtotal of at least the minimum if that is enabled, and leaves this eligibility with the
  -- strategy and the rest of the shop as it was.
  pub validate-delivery :
      (validate env delivery ctx s).0 ≡ ok tt
      → (a : Address) × (ctx.delivery_address ≡ some a)
        × ((env.check_delivery_eligibility a).deliverable ≡ true)
        × ((env.minimum_delivery_order_enabled ≡ false)
            ⊎ (env.minimum_delivery_order ≤ ctx.subtotal))
        × ((validate env delivery ctx s).1
            ≡ record s { last_eligibility = some (env.check_delivery_eligibility a) })
  unfolding validate
  validate-delivery h = elim (Option-cases ctx.delivery_address) [
    | inl missing ↦ ground arith
    | inr (a, given) ↦ (a, given, ground arith, ground arith, ground arith)
  ]
