-- ===== src/Geocoding/Tests.antt =====
-- A provider that knows one place; coordinates are numbers.
use generic_ecommerce_store.Common.{ℕ, none, some, [], ◌∷◌}
use generic_ecommerce_store.Address.{CaseMap}
use generic_ecommerce_store.Geocoding.{response, Component}
use generic_ecommerce_store.Geocoding.Resolve.{Geo, Provider}

abbrev pub ascii : CaseMap
ascii = record { lower_other = λ c. c ∷ []; upper_other = λ c. c ∷ [] }

abbrev pub elgin : Component
elgin = record { types = "locality" ∷ []; long_name = some "Elgin"; short_name = none }

abbrev pub provider : Provider ℕ
provider = record {
  api_key = some "key";
  fetch = λ lookup. response 200 (record {
    status = some "OK";
    first_result = some (record {
      coordinates = some 7;
      address_components = some elgin ∷ none ∷ [];
      formatted_address = none;
    });
  });
  case_map = ascii;
}

abbrev pub nothing_cached : Geo ℕ
nothing_cached = record {
  geocodes = λ key. none;
  settings = λ tenant store. some (some "9 Oak St, Elgin, TX 78621");
  store_addresses = λ tenant store. none;
}
