-- ===== src/Geocoding.antt =====
-- backend/src/services/deliveryEligibility.service.ts: how an address is resolved to coordinates,
-- from the cache table or by the geocoding provider. `C` is the type of coordinates, which are
-- doubles. The provider is an argument, the reply to each address; the reasons of a failure, which
-- are only logged, are left out.
pub mod Resolve
pub mod Caching
mod Tests
use Prim.Native.String
use Prim.Native.String.{◌++◌ as str_append}
use generic_ecommerce_store.Common.{
  ℕ, Bool, Option, none, some, List, [], ◌∷◌, ◌++◌, String, leb, ltb, ◌==◌, ◌&&◌, ◌||◌, not,
  if◌then◌else◌, true, false,
}
use generic_ecommerce_store.Common.Lists.{any}
use generic_ecommerce_store.Text.{to_chars, of_chars, trim, is_empty}
use text.Mathlib.Text.{◌==◌ as str_eq}
use generic_ecommerce_store.Shop.{EligibilitySource, google_geocoding, address_cache}
use generic_ecommerce_store.Fulfillment.{Address}
use generic_ecommerce_store.Address.{
  CaseMap, or_empty, normalize_zip_code, normalize_address_cache_key,
  format_structured_delivery_address, get_structured_delivery_address_cache_key,
}

-- An entry of `address_components`; one that is not an object with a list of types is `none`.
pub record Component : Type 0 where
  pub types : List String
  pub long_name : Option String
  pub short_name : Option String

module _ (C : Type 0) where
  -- A result of the provider; the coordinates are `none` if they are not finite numbers.
  pub record GoogleResult : Type 0 where
    pub coordinates : Option C
    pub address_components : List (Option Component)
    pub formatted_address : Option String

  -- The JSON of a response: its `status`, if a string, and its first result, if an object.
  pub record Payload : Type 0 where
    pub status : Option String
    pub first_result : Option GoogleResult

  -- What `fetch` ends in: an abort by the timeout, another error (the body is no JSON object, too),
  -- or a response with its HTTP status.
  pub data Reply : Type 0 where
    aborted failed : Reply
    response : ℕ → Payload → Reply

  -- A row of `addressGeocodeCache`.
  pub record CachedAddress : Type 0 where
    pub coordinates : C
    pub formatted_address : String
    pub city : Option String
    pub state : Option String
    pub zip_code : Option String

  -- `AddressResolution`
  pub data Resolution : Type 0 where
    resolved : EligibilitySource → CachedAddress → Resolution
    provider_unavailable invalid_address no_results : Option String → Resolution

  -- `ParsedGoogleResult`
  pub record ParsedResult : Type 0 where
    pub row : CachedAddress
    pub alias_cache_keys : List String

-- The variables of the loop over the components.
pub record Parts : Type 0 where
  pub street_number : String
  pub route : String
  pub subpremise : String
  pub city : String
  pub state : String
  pub zip_code : String

abbrev no_parts : Parts
no_parts = record {
  street_number = "";
  route = "";
  subpremise = "";
  city = "";
  state = "";
  zip_code = "";
}

abbrev includes : List String → String → Bool
includes types t = any (λ u. str_eq u t) types

-- `value || null`
abbrev pub or_null : String → Option String
or_null s = if is_empty s then none else some s

-- The city after one component: a locality replaces it, the other two only fill it.
abbrev next_city : List String → String → String → String
next_city types long city =
    let locality = if includes types "locality" then long else city in
    let town = if is_empty locality && includes types "postal_town" then long else locality in
    if is_empty town && includes types "sublocality" then long else town

-- `typeof value === 'string' ? value : other`
abbrev pub or_text : Option String → String → String
or_text none other = other
or_text (some s) other = s

-- The body of the loop.
read_component : Parts → Option Component → Parts
read_component p none = p
read_component p (some c) =
    let long = or_empty c.long_name in
    record {
      street_number = if includes c.types "street_number" then long else p.street_number;
      route = if includes c.types "route" then long else p.route;
      subpremise = if includes c.types "subpremise" then long else p.subpremise;
      city = next_city c.types long p.city;
      state =
          if includes c.types "administrative_area_level_1"
          then or_text c.short_name long
          else p.state;
      zip_code = if includes c.types "postal_code" then long else p.zip_code;
    }

unfoldable pub read_components : Parts → List (Option Component) → Parts
unfolding read_component
read_components p [] = p
read_components p (c ∷ cs) = read_components (read_component p c) cs

-- The cache key of the address that the components spell.
unfoldable pub alias_keys : CaseMap → Parts → List String
unfolding get_structured_delivery_address_cache_key
alias_keys m p =
    if is_empty p.street_number
      || is_empty p.route
      || is_empty p.city
      || is_empty p.state
      || is_empty p.zip_code
    then []
    else get_structured_delivery_address_cache_key m (record {
      street = str_append p.street_number (str_append " " p.route);
      apartment = or_null p.subpremise;
      city = p.city;
      state = p.state;
      zip_code = p.zip_code;
    })
      ∷ []

-- `parseGoogleResult`
unfoldable pub parse_google_result :
    {C : Type 0} → CaseMap → Option (GoogleResult C) → String → Option (ParsedResult C)
unfolding read_components alias_keys
parse_google_result m none fallback = none
parse_google_result m (some r) fallback = elim r.coordinates [
  | none ↦ none
  | some c ↦
      let p = read_components no_parts r.address_components in
      some (record {
        row = record {
          coordinates = c;
          formatted_address = or_text r.formatted_address fallback;
          city = or_null p.city;
          state = or_null p.state;
          zip_code = or_null p.zip_code;
        };
        alias_cache_keys = alias_keys m p;
      })
]
