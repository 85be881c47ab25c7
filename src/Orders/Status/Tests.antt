-- ===== src/Orders/Status/Tests.antt =====
-- Changes of the sample order's status.
use generic_ecommerce_store.Common.{ℕ, ◌≡◌, ◌≢◌, ◌⊎◌, none, some, [], ◌∷◌, refl, List}
use generic_ecommerce_store.Samples.{shop_with, order_of, no_pos}
use generic_ecommerce_store.Roles.{Role, bare, delivery_driver}
use generic_ecommerce_store.Shop.{
  Shop, Order, OrderStatus, Payment, PaymentStatus, pickup, delivery, external,
}
use generic_ecommerce_store.Orders.Status.{update_order_status, customer_arrive}
use generic_ecommerce_store.Orders.Status.Laws.{update_order_status_by_driver}
use generic_ecommerce_store.Orders.Status.History.{logged, IsLogged, update_order_status-IsLogged}

abbrev on_the_road : Order
on_the_road = order_of OrderStatus.out_for_delivery delivery external

abbrev waiting : Order
waiting = order_of OrderStatus.pending pickup external

abbrev unpaid : Payment
unpaid = record {
  order_id = 7;
  method = external;
  status = PaymentStatus.pending;
  amount = 1093;
  transaction_id = none;
  payment_handle = none;
}

abbrev shop_unpaid : Shop
shop_unpaid = record (shop_with (some waiting)) {
  payments = unpaid ∷ record unpaid { order_id = 6 } ∷ [];
}

abbrev approved : Shop
approved = (update_order_status no_pos 7 OrderStatus.approved (some 2) none none shop_unpaid).1

abbrev driver : List Role
driver = bare delivery_driver ∷ []

update_order_status_by_driver_example :
    (OrderStatus.delivered ≡ OrderStatus.delivered)
    × ((order : Order) × (some on_the_road ≡ some order)
        × ((order.status ≡ OrderStatus.ready_for_delivery)
            ⊎ (order.status ≡ OrderStatus.out_for_delivery)))
unfolding generic_ecommerce_store.Orders.Status.drives_only update_order_status
update_order_status_by_driver_example =
    update_order_status_by_driver no_pos 7 OrderStatus.delivered (some 2) none driver
      (shop_with (some on_the_road))
      (update_order_status no_pos 7 OrderStatus.delivered (some 2) none (some driver)
        (shop_with (some on_the_road))).1
      refl refl

update_order_status-IsLogged_example :
    IsLogged 7 approved
    × ((k : ℕ)
        → k ≢ 7
        → (logged k approved.status_events ≡ logged k shop_unpaid.status_events)
          × (approved.orders k ≡ shop_unpaid.orders k))
unfolding update_order_status
update_order_status-IsLogged_example =
    update_order_status-IsLogged no_pos 7 OrderStatus.approved (some 2) none none shop_unpaid
      approved refl
