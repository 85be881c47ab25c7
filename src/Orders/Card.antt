-- ===== src/Orders/Card.antt =====
-- order.payment.service.ts, and the session and the confirmation of payments/cc.strategy.ts. The
-- gateway, which answers for a transaction id or makes a token, is an argument, as are the
-- settings and the origin of the site.
pub mod Laws
mod Tests
use generic_ecommerce_store.Common.{
  ◌==◌, ◌&&◌, ◌∷◌, ◌++◌, [], suc, if◌then◌else◌, any, ◌==◌, ◌&&◌, any, ℕ, Bool, Option, none, some,
  String, not, true, false, List,
}
use generic_ecommerce_store.Payments
use generic_ecommerce_store.Payments.{Transaction, same_text, verify_transaction}
use generic_ecommerce_store.Orders.Status.{is_given}
use generic_ecommerce_store.Shop.{
  ◌>>=◌, ◌>>◌, gets, throw_if, throw, pure, modify, or_throw, Shop, Order, OrderStatus,
  PaymentMethod, cc, Payment, Action, order_not_found, not_authorized, not_card_payment,
  not_awaiting_payment, payment_reused, cards_not_enabled, cors_origin_missing, order_placed,
  publish, update, no_session,
}

abbrev pub is_card : PaymentMethod → Bool
is_card cc = true
is_card other = false

abbrev pub awaits_payment : OrderStatus → Bool
awaits_payment OrderStatus.pending_payment = true
awaits_payment other = false

-- The guards that the token and the confirmation share.
unfoldable pub card_order : ℕ → ℕ → Action Order
card_order order_id user_id = do
  order ← or_throw (← gets (λ s. s.orders order_id)) order_not_found
  throw_if (not (order.user_id == user_id)) not_authorized
  throw_if (not (is_card order.payment_method)) not_card_payment
  throw_if (not (awaits_payment order.status)) not_awaiting_payment
  pure order

-- A payment of another order with that transaction id.
unfoldable pub used_elsewhere : ℕ → String → List Payment → Bool
used_elsewhere order_id trans_id payments =
    any (λ p. same_text p.transaction_id trans_id && not (p.order_id == order_id)) payments

-- The token for the payment form; the gateway makes it of the order's id and total, if it does.
unfoldable pub get_payment_token :
    (ℕ → ℕ → Option String) → Bool → Option String → ℕ → ℕ → Action String
unfolding card_order
get_payment_token make_token enabled cors_origin order_id user_id = do
  order ← card_order order_id user_id
  throw_if (not enabled) cards_not_enabled
  throw_if (not (is_given cors_origin)) cors_origin_missing
  or_throw (make_token order_id order.total) no_session

-- `order.update` of the status, which no transaction joins to the payment's row.
abbrev pub set_pending : ℕ → Order → Shop → Shop
set_pending order_id order s = record s {
  orders = update s.orders order_id (some (record order { status = OrderStatus.pending }));
}

-- What follows the guards of `confirmCardPayment`.
unfoldable pub confirm_order :
    (String → Option Transaction) → ℕ → ℕ → String → Order → Action (Unit {0})
unfolding used_elsewhere
confirm_order gateway order_id user_id trans_id order = do
  throw_if (used_elsewhere order_id trans_id (← gets (λ s. s.payments))) payment_reused
  verify_transaction gateway trans_id order.total order_id
  modify (set_pending order_id order)
  publish (order_placed order_id user_id)

unfoldable pub confirm_card_payment :
    (String → Option Transaction) → ℕ → ℕ → String → Action (Unit {0})
unfolding card_order confirm_order
confirm_card_payment gateway order_id user_id trans_id = do
  order ← card_order order_id user_id
  confirm_order gateway order_id user_id trans_id order
