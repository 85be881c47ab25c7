-- ===== src/Fulfillment/Sharing.antt =====
-- The delivery strategy is one object for all requests, so requests that run at the same time
-- share the eligibility that it keeps.
use generic_ecommerce_store.Common.{refl, some, ◌≡◌}
use generic_ecommerce_store.Shop.{Shop, delivery, ok}
use generic_ecommerce_store.Fulfillment.{
  Environment, Address, FulfillmentContext, validate, build_order_fields, delivery_fields,
}
use generic_ecommerce_store.Fulfillment.Eligible.{validate-delivery}

-- If a second delivery request is validated between the `validate` and the `buildOrderFields` of a
-- first, the first order gets the address and the eligibility of the second; with none in between
-- it gets its own.
pub build_order_fields-validate :
    (env : Environment) (one two : FulfillmentContext) (s : Shop)
    → (validate env delivery one s).0 ≡ ok tt
    → (validate env delivery two (validate env delivery one s).1).0 ≡ ok tt
    → let first = (validate env delivery one s).1 in
      let second = (validate env delivery two first).1 in
      (a b : Address) × (one.delivery_address ≡ some a)
      × (two.delivery_address ≡ some b)
      × ((build_order_fields delivery one first).0
          ≡ ok (delivery_fields (some (env.check_delivery_eligibility a))))
      × ((build_order_fields delivery one second).0
          ≡ ok (delivery_fields (some (env.check_delivery_eligibility b))))
unfolding build_order_fields
build_order_fields-validate env one two s h k =
    let (a, given_a, _, _, after_a) = validate-delivery env one s h in
    let (b, given_b, _, _, after_b) = validate-delivery env two (validate env delivery one s).1 k in
    (a, b, given_a, given_b, rw after_a refl, rw after_b refl)
