-- ===== src/Shop/Types.antt =====
-- The enumerations and rows of backend/prisma/schema.prisma.
use generic_ecommerce_store.Common.{ℕ, Bool, Option, List, String}
use generic_ecommerce_store.Common.Int.{ℤ}
use generic_ecommerce_store.Pricing.{Variant, Override}

pub data OrderStatus : Type 0 where
  pending_payment pending approved not_fulfilling ready_for_delivery out_for_delivery : OrderStatus
  delivered ready_for_pickup arrived picked_up : OrderStatus

pub data DeliveryMethod : Type 0 where
  delivery pickup curbside : DeliveryMethod

pub data PaymentMethod : Type 0 where
  external store_credit in_store cc : PaymentMethod

pub data PaymentStatus : Type 0 where
  pending authorized captured settled failed refunded voided : PaymentStatus

pub data CreditKind : Type 0 where
  added used refunded removed : CreditKind

pub data ZoneStatus : Type 0 where
  in_zone out_of_zone unverified : ZoneStatus

pub data EligibilitySource : Type 0 where
  google_geocoding address_cache zip_fallback nowhere : EligibilitySource

-- `DeliveryEligibilityResult`; miles are in hundredths, and the message is left out.
pub record Eligibility : Type 0 where
  pub deliverable : Bool
  pub delivery_status : ZoneStatus
  pub delivery_source : EligibilitySource
  pub distance_miles : Option ℕ
  pub threshold_miles : ℕ
  pub canonical_address : Option String
  pub checked_at : ℕ

pub record User : Type 0 where
  pub store_credit_balance : ℤ
  pub cashapp : Option String
  pub address : Option String
  pub delivery_status : Option ZoneStatus
  pub delivery_source : Option EligibilitySource
  pub delivery_distance_miles : Option ℕ
  pub delivery_checked_at : Option ℕ

pub record Order : Type 0 where
  pub user_id : ℕ
  pub status : OrderStatus
  pub subtotal : ℕ
  pub tax : ℕ
  pub total : ℕ
  pub delivery_method : DeliveryMethod
  pub payment_method : PaymentMethod
  pub delivery_address : Option String
  pub vehicle_description : Option String
  pub parking_spot : Option String
  pub delivery_status : Option ZoneStatus
  pub delivery_source : Option EligibilitySource
  pub delivery_distance_miles : Option ℕ
  pub delivery_threshold_miles : Option ℕ
  pub delivery_checked_at : Option ℕ

pub record OrderItem : Type 0 where
  pub id : ℕ
  pub order_id : ℕ
  pub variant_id : ℕ
  pub product_name : String
  pub variant_label : String
  pub quantity : ℕ
  pub unit_price : ℕ
  pub voided : Bool
  pub added_after_submission : Bool

pub record Payment : Type 0 where
  pub order_id : ℕ
  pub method : PaymentMethod
  pub status : PaymentStatus
  pub amount : ℕ
  pub transaction_id : Option String
  pub payment_handle : Option String

pub record CreditTransaction : Type 0 where
  pub user_id : ℕ
  pub amount : ℤ
  pub balance_after : ℤ
  pub kind : CreditKind
  pub order_id : Option ℕ
  pub note : Option String
  pub created_by : Option ℕ

pub record StatusEvent : Type 0 where
  pub order_id : ℕ
  pub from_status : Option OrderStatus
  pub to_status : OrderStatus
  pub changed_by : Option ℕ
  pub note : Option String

pub data OutboxKind : Type 0 where
  order_created order_updated : OutboxKind

pub data OutboxStatus : Type 0 where
  pending processing done failed : OutboxStatus

pub record OutboxRow : Type 0 where
  pub id : ℕ
  pub order_id : ℕ
  pub provider : String
  pub kind : OutboxKind
  pub status : OutboxStatus
  pub attempts : ℕ

-- The messages of `eventBus.publish`.
pub data Event : Type 0 where
  order_placed : (order user : ℕ) → Event
  order_status_changed : (order user : ℕ) → (new previous : OrderStatus) → Event

pub record Shop : Type 0 where
  pub variants : ℕ → Option Variant
  pub overrides : ℕ → ℕ → Option Override
  pub users : ℕ → Option User
  pub orders : ℕ → Option Order
  pub next_order : ℕ
  pub items : List OrderItem
  pub next_item : ℕ
  pub payments : List Payment
  pub credit_transactions : List CreditTransaction
  pub status_events : List StatusEvent
  pub outbox : List OutboxRow
  pub next_outbox : ℕ
  pub published : List Event
  pub last_eligibility : Option Eligibility
