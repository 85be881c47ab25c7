-- ===== src/Geocoding/Caching.antt =====
-- backend/src/services/deliveryEligibility.service.ts: what the table of geocoded addresses guarantees.
use text.Mathlib.TextPositions.{eq_refl}
use text.Mathlib.Text.{◌==◌ as str_eq}
use generic_ecommerce_store.Common.{
  ◌≡◌, refl, ℕ, Option, none, some, List, [], ◌∷◌, ◌++◌, String, Bool, leb, ltb, not, ◌&&◌, true,
  false, arith, inl, inr, ◌⊎◌, Bool-cases, if-ind, sym, subst,
}
use generic_ecommerce_store.Shop.{EligibilitySource, address_cache, google_geocoding}
use generic_ecommerce_store.Address.{normalize_zip_code, CaseMap}
use generic_ecommerce_store.Geocoding.{
  trim, CachedAddress, Resolution, resolved, provider_unavailable, no_results, Reply, aborted,
  failed, response, ParsedResult, parse_google_result, or_text,
}
use generic_ecommerce_store.Geocoding.Resolve.{
  Geo, Provider, cache_all, read_reply, store_parsed, http_failure, payload_failure, has_key,
  geocode_address, first_cached, resolve_address, resolve_freeform_address, freeform_key, zip_or,
}

abbrev pub is_resolved : {C : Type 0} → Resolution C → Bool
is_resolved (resolved source row) = true
is_resolved other = false

http_failure-unresolved :
    (C : Type 0) (status : ℕ) (zip : Option String)
    → is_resolved (http_failure {C = C} status zip) ≡ false
http_failure-unresolved C status zip = ground arith

payload_failure-unresolved :
    (C : Type 0) (name : String) (zip : Option String)
    → is_resolved (payload_failure {C = C} name zip) ≡ false
payload_failure-unresolved C name zip = ground arith

module _ {C : Type 0} where
  -- A key that has a row keeps one.
  cache_all-some :
      (keys : List String) (row : CachedAddress C) (table : String → Option (CachedAddress C))
      (key : String) {old : CachedAddress C}
      → table key ≡ some old
      → (new : CachedAddress C) × (cache_all keys row table key ≡ some new)
  cache_all-some [] row table key {old} h = (old, h)
  cache_all-some (k ∷ ks) row table key h = elim (Bool-cases (str_eq k key)) [
    | inl same ↦ (row, rw same refl)
    | inr other ↦ let (new, kept) = cache_all-some ks row table key h in (new, rw other kept)
  ]

  -- What a question to the provider ends in: no coordinates and no change, or a row that is stored
  -- under all keys and answered.
  pub Outcome : List String → Geo C → Resolution C × Geo C → Type 0
  Outcome keys g x =
      ((r : Resolution C) × (x ≡ (r, g)) × (is_resolved r ≡ false))
      ⊎ ((row : CachedAddress C) × (zip : Option String) × (aliases : List String) × (x ≡ (
        resolved google_geocoding (record row { zip_code = zip_or row.zip_code zip }),
        record g { geocodes = cache_all (keys ++ aliases) row g.geocodes },
      )))

  store_parsed-Outcome :
      (keys : List String) (zip : Option String) (parsed : Option (ParsedResult C)) (g : Geo C)
      → Outcome keys g (store_parsed keys zip parsed g)
  unfolding Outcome
  store_parsed-Outcome keys zip none g = inl (no_results zip, refl, refl)
  store_parsed-Outcome keys zip (some p) g = inr (p.row, zip, p.alias_cache_keys, refl)

  read_reply-Outcome :
      (m : CaseMap) (keys : List String) (lookup : String) (zip : Option String) (r : Reply C)
      (g : Geo C)
      → Outcome keys g (read_reply m keys lookup zip r g)
  unfolding read_reply Outcome
  read_reply-Outcome m keys lookup zip aborted g = inl (provider_unavailable zip, refl, refl)
  read_reply-Outcome m keys lookup zip failed g = inl (provider_unavailable zip, refl, refl)
  read_reply-Outcome m keys lookup zip (response status payload) g =
      let name = or_text payload.status "UNKNOWN" in
      if-ind (Outcome keys g) (not (leb 200 status && ltb status 300))
        (inl (http_failure status zip, refl, http_failure-unresolved C status zip))
        (if-ind (Outcome keys g) (str_eq name "OK")
          (store_parsed-Outcome keys zip (parse_google_result m payload.first_result lookup) g)
          (inl (payload_failure name zip, refl, payload_failure-unresolved C name zip)))

  pub geocode_address-Outcome :
      (p : Provider C) (keys : List String) (lookup : String) (zip : Option String) (g : Geo C)
      → Outcome keys g (geocode_address p keys lookup zip g)
  unfolding geocode_address Outcome
  geocode_address-Outcome p keys lookup zip g =
      if-ind (Outcome keys g) (has_key p.api_key)
        (read_reply-Outcome p.case_map keys lookup zip (p.fetch lookup) g)
        (inl (provider_unavailable zip, refl, refl))

  -- What holds after a lookup: of a cached row, of an answer without coordinates, or of a new row.
  pub resolve_address-ind :
      (P : Resolution C × Geo C → Type 0) (p : Provider C) (keys : List String) (lookup : String)
      (zip : Option String) (g : Geo C)
      → ((row : CachedAddress C)
          → first_cached keys g.geocodes ≡ some row
          → P (resolved address_cache row, g))
      → ((r : Resolution C) → is_resolved r ≡ false → P (r, g))
      → ((row : CachedAddress C) (z : Option String) (aliases : List String)
          → P (
            resolved google_geocoding (record row { zip_code = zip_or row.zip_code z }),
            record g { geocodes = cache_all (keys ++ aliases) row g.geocodes },
          ))
      → P (resolve_address p keys lookup zip g)
  unfolding resolve_address Outcome
  resolve_address-ind P p keys lookup zip g hit fails stores =
      go (first_cached keys g.geocodes) refl
    where
      of_outcome : (x : Resolution C × Geo C) → Outcome keys g x → P x
      of_outcome x (inl (r, same, unresolved)) = subst P (sym same) (fails r unresolved)
      of_outcome x (inr (row, z, aliases, same)) = subst P (sym same) (stores row z aliases)

      go :
          (o : Option (CachedAddress C))
          → first_cached keys g.geocodes ≡ o
          → P (elim o [
            | some row ↦ (resolved address_cache row, g)
            | none ↦ geocode_address p keys lookup zip g
          ])
      go (some row) e = hit row e
      go none e = of_outcome _ (geocode_address-Outcome p keys lookup zip g)

  -- A lookup of any address leaves every cached address cached.
  pub resolve_address-some :
      (p : Provider C) (keys : List String) (lookup : String) (zip : Option String) (g : Geo C)
      (key : String) {old : CachedAddress C}
      → g.geocodes key ≡ some old
      → (new : CachedAddress C) × ((resolve_address p keys lookup zip g).1.geocodes key ≡ some new)
  resolve_address-some p keys lookup zip g key {old} h =
      resolve_address-ind (λ x. (new : CachedAddress C) × (x.1.geocodes key ≡ some new)) p keys
        lookup zip g (λ row found. (old, h)) (λ r failed. (old, h))
        (λ row z aliases. cache_all-some (keys ++ aliases) row g.geocodes key h)

  -- What an answer with coordinates says of the row under a key.
  pub IsCached : String → Resolution C × Geo C → Type 0
  IsCached key (r, g) =
      (source : EligibilitySource) (a : CachedAddress C)
      → r ≡ resolved source a
      → (row : CachedAddress C) × (g.geocodes key ≡ some row) × (row.coordinates ≡ a.coordinates)

  resolve_address-IsCached :
      (p : Provider C) (key lookup : String) (zip : Option String) (g : Geo C)
      → IsCached key (resolve_address p (key ∷ []) lookup zip g)
  unfolding IsCached
  resolve_address-IsCached p key lookup zip g =
      resolve_address-ind (IsCached key) p (key ∷ []) lookup zip g
        (λ row found source a e. (row, ground arith, ground arith))
        (λ r failed source a e. absurd (cc))
        (λ row z aliases source a e. (row, rw (eq_refl key) refl, ground arith))

  -- A free text that was resolved once is resolved to the same coordinates again, from the table and
  -- with no change to it, whatever the provider answers by then.
  pub resolve_freeform_address_again :
      (p : Provider C) (api_key : Option String) (fetch : String → Reply C) (s : String)
      (g g' : Geo C) (source : EligibilitySource) (a : CachedAddress C)
      → resolve_freeform_address p s g ≡ (resolved source a, g')
      → (row : CachedAddress C) × (resolve_freeform_address
            (record p { api_key = api_key; fetch = fetch })
            s
            g'
          ≡ (resolved address_cache row, g'))
        × (row.coordinates ≡ a.coordinates)
  unfolding resolve_freeform_address IsCached resolve_address
  resolve_freeform_address_again p api_key fetch s g g' source a h =
      let key = freeform_key p.case_map s in
      let cached : IsCached key (resolved source a, g') =
        subst (IsCached key) h
          (resolve_address-IsCached p key (trim s) (normalize_zip_code (trim s)) g) in
      let (row, found, same) = cached source a refl in (row, ground arith, same)
