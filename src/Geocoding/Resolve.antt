-- ===== src/Geocoding/Resolve.antt =====
-- backend/src/services/deliveryEligibility.service.ts: resolveAddress and geocodeAddress. The results of
-- the upserts do not depend on their order, nor on the `Set` that drops a repeated key, since they
-- write the same row.
use text.Mathlib.Text.{◌==◌ as str_eq}
use generic_ecommerce_store.Common.{
  ℕ, Bool, Option, none, some, List, [], ◌∷◌, ◌++◌, String, leb, ltb, ◌==◌, ◌&&◌, ◌||◌, not,
  if◌then◌else◌, false,
}
use generic_ecommerce_store.Text.{to_chars, of_chars, trim, is_empty}
use generic_ecommerce_store.Shop.{google_geocoding, address_cache}
use generic_ecommerce_store.Fulfillment.{Address}
use generic_ecommerce_store.Address.{
  CaseMap, normalize_zip_code, normalize_address_cache_key, format_structured_delivery_address,
  get_structured_delivery_address_cache_key,
}
use generic_ecommerce_store.Geocoding.{
  CachedAddress, Reply, aborted, failed, response, Resolution, resolved, provider_unavailable,
  invalid_address, no_results, ParsedResult, parse_google_result, or_text,
}

-- The tables and the module's cache of store addresses (by tenant and store, with the end of its
-- life). `settings` holds the `address` of the `store_settings` rows, store 0 being the default.
module _ (C : Type 0) where
  pub record Geo : Type 0 where
    pub geocodes : String → Option (CachedAddress C)
    pub settings : ℕ → ℕ → Option (Option String)
    pub store_addresses : ℕ → ℕ → Option (String × ℕ)

  -- What stands outside: the key of the provider, the provider, and the case of letters.
  pub record Provider : Type 0 where
    pub api_key : Option String
    pub fetch : String → Reply C
    pub case_map : CaseMap

-- `parsed.zipCode || fallbackZipCode`
abbrev pub zip_or : Option String → Option String → Option String
zip_or none fallback = fallback
zip_or (some z) fallback = some z

-- The statuses by which the provider says that it cannot answer.
abbrev pub is_unavailable : String → Bool
is_unavailable status =
    str_eq status "REQUEST_DENIED"
    || str_eq status "OVER_DAILY_LIMIT"
    || str_eq status "OVER_QUERY_LIMIT"
    || str_eq status "UNKNOWN_ERROR"

-- `process.env.GOOGLE_GEOCODING_API_KEY?.trim()` is there.
abbrev pub has_key : Option String → Bool
has_key none = false
has_key (some k) = not (is_empty (trim k))

unfoldable pub freeform_key : CaseMap → String → String
unfolding normalize_address_cache_key trim
freeform_key m s = of_chars (normalize_address_cache_key m (to_chars (trim s)))

module _ {C : Type 0} where
  -- The `upsert` of one row under each key.
  abbrev pub cache_all :
      List String
      → CachedAddress C
      → (String → Option (CachedAddress C))
      → String
      → Option (CachedAddress C)
  cache_all [] row table key = table key
  cache_all (k ∷ ks) row table key = if str_eq k key then some row else cache_all ks row table key

  abbrev pub store_parsed :
      List String → Option String → Option (ParsedResult C) → Geo C → Resolution C × Geo C
  store_parsed keys zip none g = (no_results zip, g)
  store_parsed keys zip (some p) g = (
    resolved google_geocoding (record p.row { zip_code = zip_or p.row.zip_code zip }),
    record g { geocodes = cache_all (keys ++ p.alias_cache_keys) p.row g.geocodes },
  )

  -- A response that is not ok, by its HTTP status.
  abbrev pub http_failure : ℕ → Option String → Resolution C
  http_failure status zip =
      if status == 401 || status == 403 || status == 429 || leb 500 status
      then provider_unavailable zip
      else invalid_address zip

  -- A payload whose status is not OK.
  abbrev pub payload_failure : String → Option String → Resolution C
  payload_failure status zip =
      if str_eq status "ZERO_RESULTS"
      then no_results zip
      else if str_eq status "INVALID_REQUEST"
      then invalid_address zip
      else if is_unavailable status
      then provider_unavailable zip
      else invalid_address zip

  unfoldable pub read_reply :
      CaseMap → List String → String → Option String → Reply C → Geo C → Resolution C × Geo C
  unfolding parse_google_result
  read_reply m keys lookup zip aborted g = (provider_unavailable zip, g)
  read_reply m keys lookup zip failed g = (provider_unavailable zip, g)
  read_reply m keys lookup zip (response status payload) g =
      let name = or_text payload.status "UNKNOWN" in
      if not (leb 200 status && ltb status 300)
      then (http_failure status zip, g)
      else if str_eq name "OK"
      then store_parsed keys zip (parse_google_result m payload.first_result lookup) g
      else (payload_failure name zip, g)

  unfoldable pub geocode_address :
      Provider C → List String → String → Option String → Geo C → Resolution C × Geo C
  unfolding read_reply trim
  geocode_address p keys lookup zip g =
      if has_key p.api_key
      then read_reply p.case_map keys lookup zip (p.fetch lookup) g
      else (provider_unavailable zip, g)

  abbrev pub first_cached :
      List String → (String → Option (CachedAddress C)) → Option (CachedAddress C)
  first_cached [] table = none
  first_cached (k ∷ ks) table = elim (table k) [ none ↦ first_cached ks table | some r ↦ some r ]

  unfoldable pub resolve_address :
      Provider C → List String → String → Option String → Geo C → Resolution C × Geo C
  unfolding geocode_address
  resolve_address p keys lookup zip g = elim (first_cached keys g.geocodes) [
    | some row ↦ (resolved address_cache row, g)
    | none ↦ geocode_address p keys lookup zip g
  ]

  unfoldable pub resolve_structured_address : Provider C → Address → Geo C → Resolution C × Geo C
  unfolding resolve_address format_structured_delivery_address
      get_structured_delivery_address_cache_key
  resolve_structured_address p a =
      resolve_address p (get_structured_delivery_address_cache_key p.case_map a ∷ [])
        (format_structured_delivery_address p.case_map a) (some a.zip_code)

  unfoldable pub resolve_freeform_address : Provider C → String → Geo C → Resolution C × Geo C
  unfolding resolve_address freeform_key trim normalize_zip_code
  resolve_freeform_address p s =
      resolve_address p (freeform_key p.case_map s ∷ []) (trim s) (normalize_zip_code (trim s))
