-- ===== src/Fulfillment.antt =====
-- backend/src/services/fulfillment/: the three fulfillment strategies, each a clause of the functions
-- below, with validateDeliveryAddressShape of validators/deliveryAddress.ts. There is one delivery
-- strategy object for all requests, and it keeps the last eligibility that it saw: that is the
-- shop's field `last_eligibility`, which no transaction undoes since none writes it.
pub mod Eligible
pub mod Sharing
mod Tests
use Prim.Native.Char.{code}
use Prim.Native.String
use generic_ecommerce_store.Common.{
  ℕ, zero, suc, Bool, Option, none, some, List, [], ◌∷◌, String, ltb, leb, ◌==◌, true, false, not,
  ◌&&◌, ◌||◌, if◌then◌else◌,
}
use generic_ecommerce_store.Text.{trim, trimmed, is_empty, codes}
use generic_ecommerce_store.Shop.{
  Shop, DeliveryMethod, delivery, pickup, curbside, Eligibility, ZoneStatus, EligibilitySource,
  Action, User, vehicle_required, minimum_order, address_required, street_required, city_required,
  state_invalid, zip_invalid, not_deliverable, record_not_found, ◌>>=◌, ◌>>◌, gets, throw_if, throw,
  pure, modify, or_throw, update,
}

-- `StructuredDeliveryAddress`
pub record Address : Type 0 where
  pub street : String
  pub apartment : Option String
  pub city : String
  pub state : String
  pub zip_code : String

-- `FulfillmentContext`; the subtotal is an amount.
pub record FulfillmentContext : Type 0 where
  pub user_id : ℕ
  pub delivery_address : Option Address
  pub vehicle_description : Option String
  pub subtotal : ℕ

-- What the ordering constraints and the eligibility service answer; the minimum is an amount.
pub record Environment : Type 0 where
  pub minimum_delivery_order : ℕ
  pub minimum_delivery_order_enabled : Bool
  pub check_delivery_eligibility : Address → Eligibility

abbrev is_digit : ℕ → Bool
is_digit c = leb b'0' c && leb c b'9'

-- `n` digits, and then what `rest` accepts.
digits_then : ℕ → (List ℕ → Bool) → List ℕ → Bool
digits_then zero rest cs = rest cs
digits_then (suc n) rest [] = false
digits_then (suc n) rest (c ∷ cs) = is_digit c && digits_then n rest cs

abbrev at_end : List ℕ → Bool
at_end [] = true
at_end (c ∷ cs) = false

abbrev zip_suffix : List ℕ → Bool
zip_suffix [] = true
zip_suffix (c ∷ cs) = c == b'-' && digits_then 4 at_end cs

-- `ZIP_REGEX`, /^\d{5}(-\d{4})?$/
unfoldable pub is_zip : String → Bool
unfolding digits_then
is_zip s = digits_then 5 zip_suffix (codes s)

abbrev has_two : List ℕ → Bool
has_two (a ∷ b ∷ []) = true
has_two other = false

unfoldable pub validate_delivery_address_shape : Option Address → Action (Unit {0})
unfolding is_zip
validate_delivery_address_shape none = throw address_required
validate_delivery_address_shape (some a) = do
  throw_if (is_empty (trim a.street)) street_required
  throw_if (is_empty (trim a.city)) city_required
  throw_if (not (has_two (codes (trim a.state)))) state_invalid
  throw_if (not (is_zip (trim a.zip_code))) zip_invalid

-- The `validate` of the delivery strategy.
unfoldable pub validate_delivery : Environment → Address → FulfillmentContext → Action (Unit {0})
validate_delivery env address ctx = do
  throw_if (env.minimum_delivery_order_enabled && ltb ctx.subtotal env.minimum_delivery_order)
      minimum_order
  let eligibility = env.check_delivery_eligibility address
  modify (λ s. record s { last_eligibility = some eligibility })
  throw_if (not eligibility.deliverable) (not_deliverable eligibility.delivery_status)

unfoldable pub validate : Environment → DeliveryMethod → FulfillmentContext → Action (Unit {0})
unfolding validate_delivery_address_shape validate_delivery
validate env delivery ctx = do
  validate_delivery_address_shape ctx.delivery_address
  address ← or_throw ctx.delivery_address address_required
  validate_delivery env address ctx
validate env pickup ctx = pure tt
validate env curbside ctx = do or_throw (trimmed ctx.vehicle_description) vehicle_required; pure tt

-- `FulfillmentOrderFields`
pub record OrderFields : Type 0 where
  pub delivery_address : Option String
  pub vehicle_description : Option String
  pub delivery_status : Option ZoneStatus
  pub delivery_source : Option EligibilitySource
  pub delivery_distance_miles : Option ℕ
  pub delivery_threshold_miles : Option ℕ
  pub delivery_checked_at : Option ℕ

abbrev pub no_fields : OrderFields
no_fields = record {
  delivery_address = none;
  vehicle_description = none;
  delivery_status = none;
  delivery_source = none;
  delivery_distance_miles = none;
  delivery_threshold_miles = none;
  delivery_checked_at = none;
}

abbrev pub delivery_fields : Option Eligibility → OrderFields
delivery_fields none = no_fields
delivery_fields (some e) = record {
  delivery_address = e.canonical_address;
  vehicle_description = none;
  delivery_status = some e.delivery_status;
  delivery_source = some e.delivery_source;
  delivery_distance_miles = e.distance_miles;
  delivery_threshold_miles = some e.threshold_miles;
  delivery_checked_at = some e.checked_at;
}

unfoldable pub build_order_fields : DeliveryMethod → FulfillmentContext → Action OrderFields
build_order_fields delivery ctx = gets (λ s. delivery_fields s.last_eligibility)
build_order_fields pickup ctx = pure no_fields
build_order_fields curbside ctx =
    pure (record no_fields { vehicle_description = trimmed ctx.vehicle_description })

-- The address that `applyInTransaction` caches: null and "" are skipped.
abbrev pub cached_address : Option Eligibility → Option (Eligibility × String)
cached_address none = none
cached_address (some e) = elim e.canonical_address [
  | none ↦ none
  | some a ↦ if is_empty a then none else some (e, a)
]

-- The user's row with the eligibility that the delivery strategy caches in it.
abbrev pub with_eligibility : User → Eligibility → String → User
with_eligibility user e address = record user {
  address = some address;
  delivery_status = some e.delivery_status;
  delivery_source = some e.delivery_source;
  delivery_distance_miles = e.distance_miles;
  delivery_checked_at = some e.checked_at;
}

unfoldable pub cache_eligibility : ℕ → Option (Eligibility × String) → Action (Unit {0})
cache_eligibility user_id none = pure tt
cache_eligibility user_id (some (e, address)) = do
  user ← or_throw (← gets (λ s. s.users user_id)) record_not_found
  modify (λ s. record s { users = update s.users user_id (some (with_eligibility user e address)) })

unfoldable pub apply_in_transaction : DeliveryMethod → ℕ → Action (Unit {0})
unfolding cache_eligibility
apply_in_transaction delivery user_id = do
  cached ← gets (λ s. cached_address s.last_eligibility)
  cache_eligibility user_id cached
apply_in_transaction other user_id = pure tt
