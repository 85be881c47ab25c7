-- ===== src/Orders/Edit/Tests.antt =====
-- Edits of the sample order.
use generic_ecommerce_store.Common.{ℕ, ◌≡◌, ◌≢◌, ◌+◌, ◌*◌, ◌≤◌, some, refl}
use generic_ecommerce_store.Money.{to_cents}
use generic_ecommerce_store.Samples.{shop_with, order_of, user_with}
use generic_ecommerce_store.Shop.{
  Shop, Order, OrderStatus, pickup, in_store, store_credit, err, foreign_key,
}
use generic_ecommerce_store.Orders.Edit.{
  delete_order, delete_row, void_order_item, find_item, items_of, sum_order_items,
}
use generic_ecommerce_store.Orders.Edit.Deletion.{delete_order-eq-foreign_key, delete_order-eq-ok}
use generic_ecommerce_store.Orders.Edit.Items.{void_order_item_once, void_order_item_drops_tax}

abbrev by_credit : Order
by_credit = order_of OrderStatus.pending pickup store_credit

abbrev by_cash : Order
by_cash = order_of OrderStatus.pending pickup in_store

abbrev shop : Shop
shop = shop_with (some by_cash)

abbrev voided_shop : Shop
voided_shop = (void_order_item 7 4 shop).1

delete_order-eq-foreign_key_example :
    delete_order 7 (some 1) (shop_with (some by_credit))
    ≡ (err foreign_key, delete_row 7 (shop_with (some by_credit)))
unfolding generic_ecommerce_store.Common.Int.◌+ℤ◌ generic_ecommerce_store.Money.to_amount
delete_order-eq-foreign_key_example =
    delete_order-eq-foreign_key 7 (some 1) by_credit (user_with 5000) (shop_with (some by_credit))
      refl refl refl refl refl

delete_order-eq-ok_example :
    (order : Order) × (some by_cash ≡ some order)
    × (order.payment_method ≢ store_credit)
    × ((k : ℕ) → some 1 ≡ some k → (order.user_id ≡ k) × (order.status ≡ OrderStatus.pending))
    × (delete_row 7 shop ≡ delete_row 7 shop)
unfolding delete_order generic_ecommerce_store.Payments.refund_on_delete
delete_order-eq-ok_example = delete_order-eq-ok 7 (some 1) shop (delete_row 7 shop) refl

void_order_item_drops_tax_example :
    (item after : _) × (find_item 7 4 shop.items ≡ some item)
    × (voided_shop.orders 7 ≡ some after)
    × (1093
        ≡ to_cents
            (sum_order_items (items_of 7 voided_shop.items) + item.unit_price * item.quantity)
          + 83)
    × (after ≡ record by_cash { total = to_cents (sum_order_items (items_of 7 voided_shop.items)) })
    × (after.total + 83 ≤ 1093)
unfolding void_order_item generic_ecommerce_store.Orders.Edit.Items.IsKeyed to_cents
void_order_item_drops_tax_example =
    void_order_item_drops_tax 7 4 by_cash shop voided_shop (tt, tt) refl refl refl
