-- ===== src/Eligibility/Justified.antt =====
-- backend/src/services/deliveryEligibility.service.ts: what stands behind an answer.
use generic_ecommerce_store.Common.{
  ◌∙◌, [], sym, ◌∷◌, List, ◌≡◌, ◌≤◌, refl, ℕ, Option, none, some, String, Bool, not, ◌||◌, true,
  false, arith, inl, inr, ◌⊎◌, ◌↔◌, ap, if-ind, if-elim,
}
use mathlib.Core.Option.{some-injective}
use generic_ecommerce_store.Text.{is_empty}
use generic_ecommerce_store.Shop.{
  Eligibility, in_zone, unverified, zip_fallback, nowhere, EligibilitySource,
}
use generic_ecommerce_store.Fulfillment.{Address}
use generic_ecommerce_store.Address.{
  CaseMap, normalize_structured_delivery_address, is_structured_delivery_address_complete,
  format_structured_delivery_address, get_structured_delivery_address_cache_key,
}
use generic_ecommerce_store.Geocoding.{
  Reply, CachedAddress, Resolution, resolved, provider_unavailable, invalid_address, no_results,
}
use generic_ecommerce_store.Geocoding.Resolve.{
  read_reply, Geo, Provider, resolve_structured_address, resolve_address, geocode_address,
}
use generic_ecommerce_store.Eligibility.{
  zone, Constraints, Place, zip_listed, resolve_zip_fallback_result, by_distance,
  resolve_store_origin_address, finalize_eligibility_result, evaluate_structured_address,
}

-- What became of the address, whose ZIP code is `own` as it is normalized, and of the store's address.
module _ {C : Type 0} (distance : C → C → ℕ) (own : String) (r origin : Resolution C)
    (k : Constraints) where
  -- The ZIP code that is asked for: the address's own while the provider cannot answer for it, else
  -- that of its geocoded row, while the provider cannot answer for the store.
  unfoldable pub IsZip : String → Type 0
  IsZip zip =
      ((r ≡ provider_unavailable (some own)) × (zip ≡ own))
      ⊎ ((source : EligibilitySource) × (row : CachedAddress C) × (z : Option String) × (r
            ≡ resolved source row)
          × (row.zip_code ≡ some zip)
          × (origin ≡ provider_unavailable z))

  -- An answer is one of three: unverified, with no source; by the ZIP code, if the fallback is
  -- enabled, where deliverable means that the code is on the list; or by the distance of the store and
  -- the address, where it means that the distance is within the radius.
  unfoldable pub IsUnverified : Eligibility → Type 0
  IsUnverified e =
      (e.deliverable ≡ false)
      × (e.delivery_status ≡ unverified)
      × (e.delivery_source ≡ nowhere)
      × (e.distance_miles ≡ none)

  unfoldable pub IsByZip : Eligibility → Type 0
  IsByZip e =
      (zip : String) × IsZip zip
      × (k.offline_zip_fallback_enabled ≡ true)
      × (e.delivery_source ≡ zip_fallback)
      × (e.deliverable ≡ zip_listed k zip)
      × (e.distance_miles ≡ none)
      × ((e.delivery_status ≡ in_zone) ↔ (zip_listed k zip ≡ true))

  unfoldable pub IsByDistance : Eligibility → Type 0
  IsByDistance e =
      (source from : EligibilitySource) × (row store : CachedAddress C) × (r ≡ resolved source row)
      × (origin ≡ resolved from store)
      × (let miles = distance store.coordinates row.coordinates in
          (e.distance_miles ≡ some miles)
          × ((e.deliverable ≡ true) ↔ (miles ≤ k.delivery_radius_miles))
          × ((e.delivery_status ≡ in_zone) ↔ (miles ≤ k.delivery_radius_miles)))

  unfoldable pub Verdict : Eligibility → Type 0
  Verdict e = IsUnverified e ⊎ (IsByZip e ⊎ IsByDistance e)

  zone_iff : (b : Bool) → (zone b ≡ in_zone) ↔ (b ≡ true)
  zone_iff b = ground arith

  resolve_zip_fallback_result-Verdict :
      (zip : Option String) (canonical : String) (now : ℕ)
      → ((z : String) → zip ≡ some z → IsZip z)
      → Verdict (resolve_zip_fallback_result k zip canonical now)
  unfolding resolve_zip_fallback_result Verdict IsUnverified IsByZip
  resolve_zip_fallback_result-Verdict none canonical now h = inl (refl, refl, refl, refl)
  resolve_zip_fallback_result-Verdict (some zip) canonical now h =
      if-elim Verdict (not k.offline_zip_fallback_enabled || is_empty zip)
        (λ skipped. inl (refl, refl, refl, refl))
        (λ listed.
          inr (inl (zip, h zip refl, ground arith, refl, refl, refl, zone_iff (zip_listed k zip))))

-- What became of an address of a checkout, and the ZIP code that it is normalized to.
abbrev pub resolution : {C : Type 0} → Provider C → Address → Geo C → Resolution C × Geo C
resolution p a g =
    resolve_structured_address p (normalize_structured_delivery_address p.case_map a) g

abbrev pub own_zip : {C : Type 0} → Provider C → Address → String
own_zip p a = (normalize_structured_delivery_address p.case_map a).zip_code

module _ {C : Type 0} (distance : C → C → ℕ) where
  by_distance-Verdict :
      (own : String) (source : EligibilitySource) (row : CachedAddress C) (origin : Resolution C)
      (k : Constraints) (canonical : String) (now : ℕ)
      → Verdict distance own
          (resolved source row)
          origin
          k
          (by_distance distance source row.coordinates row.zip_code origin k canonical now)
  unfolding Verdict IsUnverified IsByDistance IsZip
  by_distance-Verdict own source row (provider_unavailable z) k canonical now =
      resolve_zip_fallback_result-Verdict distance own (resolved source row)
        (provider_unavailable z) k row.zip_code canonical now
        (λ zip e. inr (source, row, z, refl, e, refl))
  by_distance-Verdict own source row (invalid_address z) k canonical now =
      inl (refl, refl, refl, refl)
  by_distance-Verdict own source row (no_results z) k canonical now = inl (refl, refl, refl, refl)
  by_distance-Verdict own source row (resolved from store) k canonical now =
      inr (inr (source, from, row, store, refl, refl, (refl, ground arith, ground arith)))

  -- What an unavailable provider leaves is the ZIP code that was given.
  IsOwn : Option String → Resolution C → Type 0
  IsOwn zip (provider_unavailable z) = z ≡ zip
  IsOwn zip other = Unit

  finalize-Verdict :
      (p : Provider C) (at : Place) (now : ℕ) (k : Constraints) (canonical own : String)
      (x : Resolution C × Geo C)
      → IsOwn (some own) x.0
      → Verdict distance own x.0
          (resolve_store_origin_address p at now x.1).0
          k
          (finalize_eligibility_result distance p at now k canonical x).0
  unfolding finalize_eligibility_result Verdict IsUnverified IsOwn IsZip
  finalize-Verdict p at now k canonical own (provider_unavailable zip, g) h =
      resolve_zip_fallback_result-Verdict distance own (provider_unavailable zip)
        (resolve_store_origin_address p at now g).0 k zip canonical now
        (λ z e. inl (ap provider_unavailable h, some-injective z own (sym e ∙ h)))
  finalize-Verdict p at now k canonical own (invalid_address zip, g) h =
      inl (refl, refl, refl, refl)
  finalize-Verdict p at now k canonical own (no_results zip, g) h = inl (refl, refl, refl, refl)
  finalize-Verdict p at now k canonical own (resolved source a, g) h =
      by_distance-Verdict own source a (resolve_store_origin_address p at now g).0 k canonical now

  read_reply-IsOwn :
      (m : CaseMap) (keys : List String) (lookup : String) (zip : Option String) (reply : Reply C)
      (g : Geo C)
      → IsOwn zip (read_reply m keys lookup zip reply g).0
  unfolding read_reply IsOwn
  read_reply-IsOwn m keys lookup zip reply g = ground arith

  resolve_address-IsOwn :
      (p : Provider C) (keys : List String) (lookup : String) (zip : Option String) (g : Geo C)
      → IsOwn zip (resolve_address p keys lookup zip g).0
  unfolding resolve_address geocode_address IsOwn
  resolve_address-IsOwn p keys lookup zip g =
      ground (arith, read_reply-IsOwn p.case_map keys lookup zip (p.fetch lookup) g)

  resolve_structured_address-IsOwn :
      (p : Provider C) (a : Address) (g : Geo C)
      → IsOwn (some a.zip_code) (resolve_structured_address p a g).0
  unfolding resolve_structured_address
  resolve_structured_address-IsOwn p a g =
      resolve_address-IsOwn p (get_structured_delivery_address_cache_key p.case_map a ∷ [])
        (format_structured_delivery_address p.case_map a) (some a.zip_code) g

  -- The answer for a checkout address is justified by that address.
  abbrev pub IsJustified : Provider C → Place → ℕ → Constraints → Address → Geo C → Type 0
  IsJustified p at now k a g =
      Verdict distance (own_zip p a) (resolution p a g).0
        (resolve_store_origin_address p at now (resolution p a g).1).0 k
        (evaluate_structured_address distance p at now k a g).0

  -- The answer for a checkout address: it is unverified and then not deliverable, or is by the ZIP code
  -- with the fallback enabled and is deliverable if and only if the code is on the list, or is by the
  -- distance of the coordinates of the store and of the address and is deliverable if and only if that is
  -- within the radius. The ZIP code is that of the normalized address if the provider is unavailable for
  -- it, and that of its geocoded row if the provider is unavailable for the store.
  pub evaluate_structured_address-Verdict :
      (p : Provider C) (at : Place) (now : ℕ) (k : Constraints) (a : Address) (g : Geo C)
      → IsJustified p at now k a g
  unfolding evaluate_structured_address Verdict IsUnverified
  evaluate_structured_address-Verdict p at now k a g =
      let n = normalize_structured_delivery_address p.case_map a in
      let canonical = format_structured_delivery_address p.case_map n in
      if-ind
        (λ (x : Eligibility × Geo C).
          Verdict distance (own_zip p a) (resolution p a g).0
            (resolve_store_origin_address p at now (resolution p a g).1).0 k x.0)
        (not (is_structured_delivery_address_complete p.case_map n)) (inl (refl, refl, refl, refl))
        (finalize-Verdict p at now k canonical n.zip_code (resolve_structured_address p n g)
          (resolve_structured_address-IsOwn p n g))

  resolve_structured_address_offline :
      (p : Provider C) (a : Address) (g : Geo C)
      → p.api_key ≡ none
      → ((key : String) → g.geocodes key ≡ none)
      → resolve_structured_address p a g ≡ (provider_unavailable (some a.zip_code), g)
  unfolding resolve_structured_address resolve_address geocode_address
  resolve_structured_address_offline p a g no_key empty =
      ground (arith, no_key, empty (get_structured_delivery_address_cache_key p.case_map a))

  -- While the provider has no key and nothing is cached, the answer for a complete address is that of the
  -- ZIP list, and the tables do not change.
  pub evaluate_structured_address_offline :
      (p : Provider C) (at : Place) (now : ℕ) (k : Constraints) (a : Address) (g : Geo C)
      → p.api_key ≡ none
      → ((key : String) → g.geocodes key ≡ none)
      → let n = normalize_structured_delivery_address p.case_map a in
        let canonical = format_structured_delivery_address p.case_map n in
        is_structured_delivery_address_complete p.case_map n ≡ true
        → evaluate_structured_address distance p at now k a g
          ≡ (resolve_zip_fallback_result k (some n.zip_code) canonical now, g)
  unfolding evaluate_structured_address finalize_eligibility_result
  evaluate_structured_address_offline p at now k a g no_key empty complete =
      let n = normalize_structured_delivery_address p.case_map a in
      let canonical = format_structured_delivery_address p.case_map n in
      let asked = finalize_eligibility_result distance p at now k canonical in
      if-elim (λ x. x ≡ (resolve_zip_fallback_result k (some n.zip_code) canonical now, g))
        (not (is_structured_delivery_address_complete p.case_map n))
        (λ incomplete. absurd (ground arith))
        (λ known. ap asked (resolve_structured_address_offline p n g no_key empty))
