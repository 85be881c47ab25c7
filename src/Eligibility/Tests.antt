-- ===== src/Eligibility/Tests.antt =====
-- Deliveries in Elgin, with and without the provider.
use generic_ecommerce_store.Common.{
  ◌*◌, ◌≤◌, ◌⊎◌, ℕ, ◌-◌, ◌≡◌, none, some, [], ◌∷◌, refl, true, false,
}
use generic_ecommerce_store.Money.{cent}
use generic_ecommerce_store.Eligibility.Delivered.{IsInReach, validate-IsNear}
use generic_ecommerce_store.Samples.{home, delivery_to, shop_with}
use generic_ecommerce_store.Geocoding.Resolve.{Geo, Provider}
use generic_ecommerce_store.Address.{CaseMap}
use generic_ecommerce_store.Fulfillment.{Address, FulfillmentContext}
use generic_ecommerce_store.Geocoding.{aborted}
use generic_ecommerce_store.Eligibility.{Constraints, Place, evaluate_structured_address}
use generic_ecommerce_store.Eligibility.Justified.{IsJustified, evaluate_structured_address-Verdict}

abbrev ascii : CaseMap
ascii = record { lower_other = λ c. c ∷ []; upper_other = λ c. c ∷ [] }

abbrev keyless : Provider ℕ
keyless = record { api_key = none; fetch = λ lookup. aborted; case_map = ascii }

abbrev nothing_cached : Geo ℕ
nothing_cached = record {
  geocodes = λ key. none;
  settings = λ tenant store. none;
  store_addresses = λ tenant store. none;
}

abbrev constraints : Constraints
constraints = record {
  minimum_delivery_order = 3500;
  minimum_delivery_order_enabled = true;
  delivery_disabled = true;
  delivery_radius_miles = 500;
  offline_zip_fallback_enabled = true;
  offline_delivery_zip_codes = "78621" ∷ [];
}

abbrev here : Place
here = record { tenant_id = 1; store_id = 0 }

-- Deliveries are switched off in these constraints.
abbrev rich : FulfillmentContext
rich = record (delivery_to "1 Main St") { subtotal = 9900 * cent }

evaluate_structured_address-Verdict_example :
    IsJustified (λ a b. a - b) keyless here 9 constraints (home "1 Main St") nothing_cached
evaluate_structured_address-Verdict_example =
    evaluate_structured_address-Verdict (λ a b. a - b) keyless here 9 constraints (home "1 Main St")
      nothing_cached

validate-IsNear_example :
    (a : Address) × (some (home "1 Main St") ≡ some a)
    × IsInReach (λ b c. b - c) keyless here 9 constraints a nothing_cached
    × ((constraints.minimum_delivery_order_enabled ≡ false)
        ⊎ (constraints.minimum_delivery_order * cent ≤ rich.subtotal))
unfolding generic_ecommerce_store.Fulfillment.validate generic_ecommerce_store.Text.trim
    evaluate_structured_address
validate-IsNear_example =
    validate-IsNear (λ b c. b - c) keyless here 9 constraints nothing_cached rich (shop_with none)
      refl
