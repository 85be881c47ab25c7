-- ===== src/Eligibility.antt =====
-- backend/src/services/deliveryEligibility.service.ts and orderingConstraints.service.ts: whether the
-- store delivers to an address. `distance` stands for `roundMiles(haversineMiles(...))`, which
-- computes with sines of doubles; it is in hundredths of a mile. One request sees one time, `now`.
pub mod Justified
pub mod Delivered
mod Tests
use generic_ecommerce_store.Common.{
  ℕ, Bool, Option, none, some, List, [], ◌∷◌, String, leb, ltb, ◌==◌, ◌+◌, ◌*◌, ◌&&◌, ◌||◌, not,
  if◌then◌else◌, true, false,
}
use generic_ecommerce_store.Common.Lists.{any}
use text.Mathlib.Text.{◌==◌ as str_eq}
use generic_ecommerce_store.Text.{trim, is_empty}
use generic_ecommerce_store.Shop.{
  Eligibility, ZoneStatus, in_zone, out_of_zone, unverified, EligibilitySource, zip_fallback,
  nowhere, address_cache, google_geocoding,
}
use generic_ecommerce_store.Fulfillment.{Address}
use generic_ecommerce_store.Address.{
  normalize_structured_delivery_address, is_structured_delivery_address_complete,
  format_structured_delivery_address, extract_address_from_settings_value, normalize_zip_code,
}
use generic_ecommerce_store.Geocoding.{
  Resolution, resolved, provider_unavailable, invalid_address, no_results,
}
use generic_ecommerce_store.Geocoding.Resolve.{
  Geo, Provider, resolve_structured_address, resolve_freeform_address,
}

-- `OrderingConstraints`, without the message; the minimum is in cents, the radius in hundredths.
pub record Constraints : Type 0 where
  pub minimum_delivery_order : ℕ
  pub minimum_delivery_order_enabled : Bool
  pub delivery_disabled : Bool
  pub delivery_radius_miles : ℕ
  pub offline_zip_fallback_enabled : Bool
  pub offline_delivery_zip_codes : List String

-- The tenant and the effective store of the request.
pub record Place : Type 0 where
  pub tenant_id : ℕ
  pub store_id : ℕ

-- `STORE_ADDRESS_TTL_MS`
abbrev pub store_address_ttl_ms : ℕ
store_address_ttl_ms = 5 * 60 * 1000

-- The address of the settings row of the store, or else of the default row.
abbrev row_address : Option (Option String) → String
row_address none = ""
row_address (some v) = extract_address_from_settings_value v

abbrev pub configured_address : Option (Option String) → Option (Option String) → String
configured_address store default =
    if is_empty (row_address store) then row_address default else row_address store

-- A table of two keys with one entry replaced.
abbrev pub put_at : {A : Type 0} → (ℕ → ℕ → A) → ℕ → ℕ → A → ℕ → ℕ → A
put_at t i j a k l = if k == i && l == j then a else t k l

-- The cached entry, if it is still alive.
abbrev pub alive : ℕ → Option (String × ℕ) → Option String
alive now none = none
alive now (some (a, expires_at)) = if ltb now expires_at then some a else none

module _ {C : Type 0} where
  unfoldable pub get_store_address : Place → ℕ → Geo C → String × Geo C
  unfolding extract_address_from_settings_value
  get_store_address at now g = elim (alive now (g.store_addresses at.tenant_id at.store_id)) [
    | some a ↦ (a, g)
    | none ↦
        let a =
          configured_address (g.settings at.tenant_id at.store_id) (g.settings at.tenant_id 0) in
        (
          a,
          record g {
            store_addresses =
                put_at g.store_addresses at.tenant_id at.store_id
                  (some (a, now + store_address_ttl_ms));
          },
        )
  ]

  unfoldable pub resolve_store_origin_address :
      Provider C → Place → ℕ → Geo C → Resolution C × Geo C
  unfolding get_store_address resolve_freeform_address
  resolve_store_origin_address p at now g =
      let (a, g') = get_store_address at now g in
      if is_empty a then (invalid_address none, g') else resolve_freeform_address p a g'

-- An answer for an address, with what all answers share.
abbrev pub answer :
    Bool → ZoneStatus → EligibilitySource → Option ℕ → Constraints → String → ℕ → Eligibility
answer deliverable status source miles k canonical now = record {
  deliverable = deliverable;
  delivery_status = status;
  delivery_source = source;
  distance_miles = miles;
  threshold_miles = k.delivery_radius_miles;
  canonical_address = some canonical;
  checked_at = now;
}

abbrev pub unverified_answer : Constraints → String → ℕ → Eligibility
unverified_answer = answer false unverified nowhere none

abbrev pub zone : Bool → ZoneStatus
zone true = in_zone
zone false = out_of_zone

abbrev pub zip_listed : Constraints → String → Bool
zip_listed k zip = any (λ z. str_eq z zip) k.offline_delivery_zip_codes

unfoldable pub resolve_zip_fallback_result : Constraints → Option String → String → ℕ → Eligibility
resolve_zip_fallback_result k none canonical now = unverified_answer k canonical now
resolve_zip_fallback_result k (some zip) canonical now =
    if not k.offline_zip_fallback_enabled || is_empty zip
    then unverified_answer k canonical now
    else answer (zip_listed k zip) (zone (zip_listed k zip)) zip_fallback none k canonical now

module _ {C : Type 0} (distance : C → C → ℕ) where
  -- The answer when the address has coordinates, by what became of the store's own address.
  abbrev pub by_distance :
      EligibilitySource → C → Option String → Resolution C → Constraints → String → ℕ → Eligibility
  by_distance source c zip (provider_unavailable z) k canonical now =
      resolve_zip_fallback_result k zip canonical now
  by_distance source c zip (invalid_address z) k canonical now = unverified_answer k canonical now
  by_distance source c zip (no_results z) k canonical now = unverified_answer k canonical now
  by_distance source c zip (resolved s origin) k canonical now =
      let miles = distance origin.coordinates c in
      let inside = leb miles k.delivery_radius_miles in
      answer inside (zone inside) source (some miles) k canonical now

  unfoldable pub finalize_eligibility_result :
      Provider C → Place → ℕ → Constraints → String → Resolution C × Geo C → Eligibility × Geo C
  unfolding resolve_zip_fallback_result resolve_store_origin_address
  finalize_eligibility_result p at now k canonical (provider_unavailable zip, g) =
      (resolve_zip_fallback_result k zip canonical now, g)
  finalize_eligibility_result p at now k canonical (invalid_address zip, g) =
      (unverified_answer k canonical now, g)
  finalize_eligibility_result p at now k canonical (no_results zip, g) =
      (unverified_answer k canonical now, g)
  finalize_eligibility_result p at now k canonical (resolved source a, g) =
      let (origin, g') = resolve_store_origin_address p at now g in
      (by_distance source a.coordinates a.zip_code origin k canonical now, g')

  unfoldable pub evaluate_structured_address :
      Provider C → Place → ℕ → Constraints → Address → Geo C → Eligibility × Geo C
  unfolding finalize_eligibility_result resolve_structured_address
      normalize_structured_delivery_address is_structured_delivery_address_complete
      format_structured_delivery_address
  evaluate_structured_address p at now k a g =
      let n = normalize_structured_delivery_address p.case_map a in
      let canonical = format_structured_delivery_address p.case_map n in
      if not (is_structured_delivery_address_complete p.case_map n)
      then (unverified_answer k canonical now, g)
      else finalize_eligibility_result p at now k canonical (resolve_structured_address p n g)

  unfoldable pub evaluate_freeform_address :
      Provider C → Place → ℕ → Constraints → String → Geo C → Eligibility × Geo C
  unfolding finalize_eligibility_result resolve_freeform_address
  evaluate_freeform_address p at now k a g =
      finalize_eligibility_result p at now k a (resolve_freeform_address p a g)

  -- `evaluateRegistrationAddress`; the metadata are fields of the answer.
  unfoldable pub evaluate_registration_address :
      Provider C → Place → ℕ → Constraints → Option String → Geo C → Option Eligibility × Geo C
  unfolding evaluate_freeform_address trim
  evaluate_registration_address p at now k none g = (none, g)
  evaluate_registration_address p at now k (some a) g =
      if is_empty (trim a)
      then (none, g)
      else let (e, g') = evaluate_freeform_address p at now k (trim a) g in (some e, g')

-- Why `verifyStoreAddress` throws.
pub data StoreAddressError : Type 0 where
  address_required address_unverified : StoreAddressError

module _ {C : Type 0} where
  -- `verifyStoreAddress`: `none` when it returns.
  unfoldable pub verify_store_address :
      Provider C → String → Geo C → Option StoreAddressError × Geo C
  unfolding resolve_freeform_address trim
  verify_store_address p a g =
      if is_empty (trim a)
      then (some address_required, g)
      else let (r, g') = resolve_freeform_address p (trim a) g in
        (elim r [ resolved s row ↦ none | _ ↦ some address_unverified ], g')
