-- ===== src/Eligibility/Delivered.antt =====
-- backend/src/services/fulfillment/delivery.strategy.ts with the eligibility service and the ordering
-- constraints that it calls. Nothing on this way reads `deliveryDisabled`.
use generic_ecommerce_store.Common.{
  String, ℕ, ◌*◌, ◌≡◌, ◌≤◌, ◌⊎◌, inl, inr, true, false, some, sym, ◌∙◌, arith,
}
use generic_ecommerce_store.Money.{cent}
use generic_ecommerce_store.Shop.{Shop, delivery, ok, Eligibility, EligibilitySource}
use generic_ecommerce_store.Fulfillment.{Environment, Address, FulfillmentContext, validate}
use generic_ecommerce_store.Fulfillment.Eligible.{validate-delivery}
use generic_ecommerce_store.Geocoding.{Resolution, resolved, CachedAddress}
use generic_ecommerce_store.Geocoding.Resolve.{Geo, Provider}
use generic_ecommerce_store.Eligibility.{
  Constraints, Place, zip_listed, evaluate_structured_address, resolve_store_origin_address,
}
use generic_ecommerce_store.Eligibility.Justified.{
  Verdict, evaluate_structured_address-Verdict, IsUnverified, IsByZip, IsByDistance, IsZip, own_zip,
  resolution,
}

-- An answer that is deliverable: the ZIP code is on the enabled list, or the distance is within the radius.
module _ {C : Type 0} (distance : C → C → ℕ) (own : String) (r origin : Resolution C)
    (k : Constraints) where
  unfoldable pub IsNear : Eligibility → Type 0
  IsNear e =
      ((zip : String) × IsZip distance own r origin k zip
        × (k.offline_zip_fallback_enabled ≡ true)
        × (zip_listed k zip ≡ true))
      ⊎ ((source from : EligibilitySource) × (row store : CachedAddress C) × (r
            ≡ resolved source row)
          × (origin ≡ resolved from store)
          × (e.distance_miles ≡ some (distance store.coordinates row.coordinates))
          × (distance store.coordinates row.coordinates ≤ k.delivery_radius_miles))

  deliverable-IsNear :
      (e : Eligibility) → Verdict distance own r origin k e → e.deliverable ≡ true → IsNear e
  unfolding IsNear Verdict IsUnverified IsByZip IsByDistance
  deliverable-IsNear e (inl (refused, _, _, _)) h = absurd (ground arith)
  deliverable-IsNear e (inr (inl (zip, asked, enabled, _, listed, _, _))) h =
      inl (zip, asked, enabled, sym listed ∙ h)
  deliverable-IsNear e (inr (inr (source, from, row, store, found, placed, (far, near, _)))) h =
      inr (source, from, row, store, found, placed, far, near.0 h)

-- An address that the store delivers to, by its own ZIP code or its own distance.
abbrev pub IsInReach :
    {C : Type 0} → (C → C → ℕ) → Provider C → Place → ℕ → Constraints → Address → Geo C → Type 0
IsInReach distance p at now k a g =
    IsNear distance (own_zip p a) (resolution p a g).0
      (resolve_store_origin_address p at now (resolution p a g).1).0 k
      (evaluate_structured_address distance p at now k a g).0

-- What the strategy calls in one request.
abbrev pub environment :
    {C : Type 0} → (C → C → ℕ) → Provider C → Place → ℕ → Constraints → Geo C → Environment
environment distance p at now k g = record {
  minimum_delivery_order = k.minimum_delivery_order * cent;
  minimum_delivery_order_enabled = k.minimum_delivery_order_enabled;
  check_delivery_eligibility = λ a. (evaluate_structured_address distance p at now k a g).0;
}

-- A delivery that the strategy accepts reaches the minimum, if that is enabled, and goes to an address whose
-- coordinates are within the radius of the store's, or whose ZIP code is on the list, with the fallback
-- enabled. That code is the address's own if the provider is unavailable for it, and that of its
-- geocoded row if the provider is unavailable for the store.
pub validate-IsNear :
    {C : Type 0} (distance : C → C → ℕ) (p : Provider C) (at : Place) (now : ℕ) (k : Constraints)
    (g : Geo C) (ctx : FulfillmentContext) (s : Shop)
    → (validate (environment distance p at now k g) delivery ctx s).0 ≡ ok tt
    → (a : Address) × (ctx.delivery_address ≡ some a)
      × IsInReach distance p at now k a g
      × ((k.minimum_delivery_order_enabled ≡ false)
          ⊎ (k.minimum_delivery_order * cent ≤ ctx.subtotal))
validate-IsNear distance p at now k g ctx s h =
    let (a, given, near, minimum, _) =
      validate-delivery (environment distance p at now k g) ctx s h in
    (
      a,
      given,
      deliverable-IsNear distance (own_zip p a) (resolution p a g).0
          (resolve_store_origin_address p at now (resolution p a g).1).0 k
          (evaluate_structured_address distance p at now k a g).0
          (evaluate_structured_address-Verdict distance p at now k a g) near,
      minimum,
    )
