-- ===== src/Orders/Status.antt =====
-- `updateOrderStatus` and `customerArrive` of order.fulfillment.service.ts, `enqueue` of
-- pos/orders/posOrderService.ts, `getOrderSync` of pos/registry.ts and `shouldPushStatus` of
-- pos/providers/foreverpos/orders.ts. The settings of the store are an argument.
pub mod Laws
pub mod History
mod Tests
use generic_ecommerce_store.Common.{
  ◌==◌, ◌&&◌, ◌∷◌, ◌++◌, [], suc, if◌then◌else◌, any, suc, ◌==◌, ◌++◌, ◌&&◌, if◌then◌else◌, ◌∷◌, ℕ,
  Bool, Option, none, some, String, not, true, false, List, [],
}
use text.Mathlib.Text.{◌==◌ as str_eq}
use Prim.Native.String.{◌++◌ as str_append}
use generic_ecommerce_store.Credit.{dangling}
use generic_ecommerce_store.Roles.{Role, has_any_role, delivery_driver, employee, management, admin}
use generic_ecommerce_store.Text.{is_empty, trim}
use generic_ecommerce_store.Shop.{
  ◌>>=◌, ◌>>◌, gets, throw_if, throw, pure, modify, or_throw, Shop, Order, OrderStatus, Payment,
  PaymentStatus, PaymentMethod, external, OutboxKind, order_created, order_updated, OutboxStatus,
  Action, order_not_found, access_denied, drivers_only_deliver, not_deliverable_state,
  order_status_changed, not_curbside, not_ready_for_pickup, foreign_key, curbside, DeliveryMethod,
  publish, transaction, update,
}

-- The columns of the store's settings that the order services read.
pub record PosSettings : Type 0 where
  pub pos_provider : Option String
  pub base_url : Option String
  pub username : Option String
  pub password : Option String
  pub sak_catch_all_product_id : Option ℕ
  pub sak_catch_all_variant_id : Option ℕ

-- What JavaScript takes for true: neither missing nor empty.
abbrev pub is_given : Option String → Bool
is_given none = false
is_given (some s) = not (is_empty s)

abbrev pub is_known {ℓ} : {A : Type ℓ} → Option A → Bool
is_known none = false
is_known (some a) = true

-- `buildForeverPosClient` and the test of the catch-all ids.
abbrev pub is_configured : PosSettings → Bool
is_configured c =
    is_given c.base_url
    && is_given c.username
    && is_given c.password
    && is_known c.sak_catch_all_product_id
    && is_known c.sak_catch_all_variant_id

abbrev pub sync_of : Option String → Bool → Option String
sync_of none configured = none
sync_of (some p) configured = if str_eq p "foreverpos" && configured then some p else none

-- `getOrderSync`: the provider to enqueue for, if the settings have a complete one.
unfoldable pub get_order_sync : PosSettings → Option String
get_order_sync c = sync_of c.pos_provider (is_configured c)

-- `status in STATUS_MAP`
unfoldable pub should_push_status : OrderStatus → Bool
should_push_status OrderStatus.approved = true
should_push_status OrderStatus.ready_for_pickup = true
should_push_status OrderStatus.arrived = true
should_push_status OrderStatus.out_for_delivery = true
should_push_status OrderStatus.delivered = true
should_push_status other = false

abbrev pub is_approved : OrderStatus → Bool
is_approved OrderStatus.approved = true
is_approved other = false

abbrev pub is_delivered : OrderStatus → Bool
is_delivered OrderStatus.delivered = true
is_delivered other = false

abbrev pub is_ready_for_pickup : OrderStatus → Bool
is_ready_for_pickup OrderStatus.ready_for_pickup = true
is_ready_for_pickup other = false

-- `deliverableFrom.includes`
abbrev pub is_deliverable_from : OrderStatus → Bool
is_deliverable_from OrderStatus.ready_for_delivery = true
is_deliverable_from OrderStatus.out_for_delivery = true
is_deliverable_from other = false

abbrev pub is_external : PaymentMethod → Bool
is_external external = true
is_external other = false

abbrev pub is_curbside : DeliveryMethod → Bool
is_curbside curbside = true
is_curbside other = false

-- A driver who is none of EMPLOYEE, MANAGEMENT and ADMIN.
unfoldable pub drives_only : Option (List Role) → Bool
unfolding has_any_role
drives_only none = false
drives_only (some roles) =
    has_any_role roles (delivery_driver ∷ [])
    && not (has_any_role roles (employee ∷ management ∷ admin ∷ []))

-- The two guards for drivers.
unfoldable pub check_driver : Option (List Role) → OrderStatus → OrderStatus → Action (Unit {0})
unfolding drives_only
check_driver roles old new = do
  throw_if (drives_only roles && not (is_delivered new)) drivers_only_deliver
  throw_if (drives_only roles && not (is_deliverable_from old)) not_deliverable_state

abbrev pub enqueue : ℕ → OutboxKind → String → Shop → Shop
enqueue order_id kind provider s = record s {
  outbox =
      s.outbox
      ++ (record {
        id = s.next_outbox;
        order_id = order_id;
        provider = provider;
        kind = kind;
        status = OutboxStatus.pending;
        attempts = 0;
      }
          ∷ []);
  next_outbox = suc s.next_outbox;
}

-- What a new status sends to the POS.
unfoldable pub enqueue_status : Option String → ℕ → OrderStatus → Shop → Shop
unfolding should_push_status
enqueue_status none order_id new s = s
enqueue_status (some provider) order_id new s =
    if is_approved new
    then enqueue order_id order_created provider s
    else if should_push_status new
    then enqueue order_id order_updated provider s
    else s

abbrev pub is_unsettled : PaymentStatus → Bool
is_unsettled PaymentStatus.pending = true
is_unsettled other = false

-- `payment.updateMany`: the order's pending payments become settled.
unfoldable pub settle_payments : ℕ → List Payment → List Payment
settle_payments order_id [] = []
settle_payments order_id (p ∷ ps) =
    (if p.order_id == order_id && is_unsettled p.status
      then record p { status = PaymentStatus.settled }
      else p)
    ∷ settle_payments order_id ps

-- The transaction of `updateOrderStatus`.
unfoldable pub write_status :
    Option String → ℕ → Order → OrderStatus → Option ℕ → Option String → Action (Unit {0})
unfolding settle_payments enqueue_status
write_status sync order_id order new changed_by note = do
  modify
      (λ s. record s { orders = update s.orders order_id (some (record order { status = new })) })
  throw_if (dangling (← gets (λ s. s.users)) changed_by) foreign_key
  modify (λ s. record s {
    status_events =
        record {
          order_id = order_id;
          from_status = some order.status;
          to_status = new;
          changed_by = changed_by;
          note = note;
        }
        ∷ s.status_events;
  })
  modify (λ s. record s {
    payments =
        if is_approved new && is_external order.payment_method
        then settle_payments order_id s.payments
        else s.payments;
  })
  modify (enqueue_status sync order_id new)

unfoldable pub update_order_status :
    PosSettings
    → ℕ
    → OrderStatus
    → Option ℕ
    → Option String
    → Option (List Role)
    → Action (Unit {0})
unfolding check_driver write_status
update_order_status settings order_id new changed_by note roles = do
  order ← or_throw (← gets (λ s. s.orders order_id)) order_not_found
  check_driver roles order.status new
  transaction (write_status (get_order_sync settings) order_id order new changed_by note)
  publish (order_status_changed order_id order.user_id new order.status)

abbrev pub base_address : Option String → String
base_address none = "CURBSIDE"
base_address (some a) = if is_empty a then "CURBSIDE" else a

-- The order as it is stored when its customer has arrived.
abbrev pub arrived_row : Order → String → Order
arrived_row order spot = record order {
  status = OrderStatus.arrived;
  delivery_address =
      some (str_append (base_address order.delivery_address) (str_append " | SPOT: " (trim spot)));
  parking_spot = some (trim spot);
}

unfoldable pub customer_arrive : PosSettings → ℕ → ℕ → String → Action (Unit {0})
unfolding enqueue_status
customer_arrive settings order_id user_id spot = do
  order ← or_throw (← gets (λ s. s.orders order_id)) order_not_found
  throw_if (not (order.user_id == user_id)) access_denied
  throw_if (not (is_curbside order.delivery_method)) not_curbside
  throw_if (not (is_ready_for_pickup order.status)) not_ready_for_pickup
  transaction (do
    modify (λ s. record s { orders = update s.orders order_id (some (arrived_row order spot)) })
    modify (enqueue_status (get_order_sync settings) order_id OrderStatus.arrived))
  publish (order_status_changed order_id order.user_id OrderStatus.arrived order.status)
