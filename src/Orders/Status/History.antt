-- ===== src/Orders/Status/History.antt =====
-- The log of status events, against the status that an order has.
use generic_ecommerce_store.Common.{
  Option-cases, inl, inr, ℕ, ◌≡◌, ◌≢◌, Option, some, none, arith, String, List, ◌∷◌, [], ◌==◌,
  if◌then◌else◌,
}
use generic_ecommerce_store.Roles.{Role}
use generic_ecommerce_store.Shop.{
  curbside, update, order_status_changed, Shop, Order, OrderStatus, StatusEvent, ok,
}
use generic_ecommerce_store.Orders.Status.{
  arrived_row, customer_arrive, get_order_sync, PosSettings, update_order_status,
}
use generic_ecommerce_store.Orders.Status.Laws.{enqueue_status-frame, update_order_status-Updated}

-- The status that the newest event of the order says it has.
abbrev pub logged : ℕ → List StatusEvent → Option OrderStatus
logged order_id [] = none
logged order_id (e ∷ events) =
    if e.order_id == order_id then some e.to_status else logged order_id events

-- The log knows the status of the order.
unfoldable pub IsLogged : ℕ → Shop → Type 0
IsLogged order_id s =
    (order : Order)
    → s.orders order_id ≡ some order
    → logged order_id s.status_events ≡ some order.status

-- After a change of status that succeeds the log knows the order's status, whatever it said before; of every
-- other order it says what it said before, and those orders are as they were.
pub update_order_status-IsLogged :
    (settings : PosSettings) (order_id : ℕ) (new : OrderStatus) (changed_by : Option ℕ)
    (remark : Option String) (roles : Option (List Role)) (s t : Shop)
    → update_order_status settings order_id new changed_by remark roles s ≡ (ok tt, t)
    → IsLogged order_id t
      × ((k : ℕ)
          → k ≢ order_id
          → (logged k t.status_events ≡ logged k s.status_events) × (t.orders k ≡ s.orders k))
unfolding IsLogged
update_order_status-IsLogged settings order_id new changed_by remark roles s t h =
    let u = update_order_status-Updated settings order_id new changed_by remark roles s t h in
    (λ order stored. ground (arith, u.written, stored), λ k other. ground (arith, u.written))

-- What a check-in at the kerb wrote, but for the outbox.
pub record Arrived (order_id user_id : ℕ) (spot : String) (s t : Shop) : Type 0 where
  pub order : Order
  pub stored : s.orders order_id ≡ some order
  pub owner : order.user_id ≡ user_id
  pub by_curbside : order.delivery_method ≡ curbside
  pub was_ready : order.status ≡ OrderStatus.ready_for_pickup
  pub written : t ≡ record s {
    orders = update s.orders order_id (some (arrived_row order spot));
    outbox = t.outbox;
    next_outbox = t.next_outbox;
    published =
        order_status_changed order_id order.user_id OrderStatus.arrived order.status ∷ s.published;
  }

-- A check-in that succeeds is by the order's customer, for a curbside order that is ready; it stores
-- the arrival and the parking spot and publishes the change. Nothing else but the outbox changes.
pub customer_arrive-Arrived :
    (settings : PosSettings) (order_id user_id : ℕ) (spot : String) (s t : Shop)
    → customer_arrive settings order_id user_id spot s ≡ (ok tt, t)
    → Arrived order_id user_id spot s t
unfolding customer_arrive
customer_arrive-Arrived settings order_id user_id spot s t h =
    elim (Option-cases (s.orders order_id)) [
      | inl missing ↦ absurd (ground arith)
      | inr (order, here) ↦
          let row = record s {
            orders = update s.orders order_id (some (arrived_row order spot));
          } in
          let e = enqueue_status-frame (get_order_sync settings) order_id OrderStatus.arrived row in
          record {
            order = order;
            stored = here;
            owner = ground arith;
            by_curbside = ground arith;
            was_ready = ground arith;
            written = ground (arith, e);
          }
    ]

-- A check-in at the kerb changes the status without an event: the log, if it knew the status of the
-- order, does not know it afterwards.
pub customer_arrive_unlogged :
    (settings : PosSettings) (order_id user_id : ℕ) (spot : String) (s t : Shop)
    → customer_arrive settings order_id user_id spot s ≡ (ok tt, t)
    → IsLogged order_id s
    → ¬ IsLogged order_id t
unfolding IsLogged
customer_arrive_unlogged settings order_id user_id spot s t h before after =
    let a = customer_arrive-Arrived settings order_id user_id spot s t h in
    let known = before a.order a.stored in
    let stored : t.orders order_id ≡ some (arrived_row a.order spot) = ground (arith, a.written) in
    let claimed = after (arrived_row a.order spot) stored in
    absurd (ground (arith, a.written, a.was_ready, known, claimed))
