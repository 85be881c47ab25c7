-- ===== src/Orders/Card/Tests.antt =====
-- A card payment of the sample order.
use generic_ecommerce_store.Common.{◌≡◌, some, [], refl}
use generic_ecommerce_store.Samples.{shop_with, order_of, gateway}
use generic_ecommerce_store.Payments.{verify_transaction}
use generic_ecommerce_store.Shop.{Shop, OrderStatus, pickup, cc, ok}
use generic_ecommerce_store.Orders.Card.{confirm_card_payment}
use generic_ecommerce_store.Orders.Card.Laws.{
  Confirmed, confirm_card_payment-Confirmed, confirm_card_payment_once,
}

abbrev shop : Shop
shop = shop_with (some (order_of OrderStatus.pending_payment pickup cc))

abbrev paid : Shop
paid = (confirm_card_payment gateway 7 1 "t1" shop).1

confirm_card_payment-Confirmed_example : Confirmed gateway 7 1 "t1" shop paid
unfolding confirm_card_payment verify_transaction
confirm_card_payment-Confirmed_example =
    confirm_card_payment-Confirmed gateway 7 1 "t1" shop paid refl

confirm_card_payment_once_example : ¬ (confirm_card_payment gateway 7 1 "t1" paid ≡ (ok tt, paid))
unfolding confirm_card_payment verify_transaction
confirm_card_payment_once_example =
    confirm_card_payment_once gateway gateway 7 1 7 1 "t1" [] shop paid paid paid refl refl
