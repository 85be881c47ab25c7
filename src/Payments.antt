-- ===== src/Payments.antt =====
-- backend/src/services/payments/: the four payment strategies, each a clause of the functions below,
-- and `AuthorizeNetService.verifyTransaction`. The gateway itself is a parameter: its answer to a
-- transaction id. A method that no strategy handles has no value of the type.
pub mod Laws
use generic_ecommerce_store.Common.{
  ℕ, Bool, Option, none, some, ◌∷◌, String, any, ◌==◌, true, false, not, if◌then◌else◌, List,
}
use text.Mathlib.Text.{◌==◌ as str_eq}
use generic_ecommerce_store.Common.Int.{pos}
use generic_ecommerce_store.Money.{to_cents, to_amount}
use generic_ecommerce_store.Text.{trimmed}
use generic_ecommerce_store.Credit.{use_credit, refund_credit, dangling}
use generic_ecommerce_store.Shop.{
  Shop, OrderStatus, DeliveryMethod, delivery, pickup, curbside, PaymentMethod, external,
  store_credit, in_store, cc, PaymentStatus, Payment, Action, pay_in_store_unavailable, foreign_key,
  unique_constraint, gateway_unavailable, payment_not_confirmed, wrong_invoice, amount_mismatch,
  payment_reused, record_not_found, ◌>>=◌, ◌>>◌, gets, throw_if, throw, pure, modify, or_throw,
  update, Result, ok, err,
}

-- `OrderContext`; the total is an amount, in 10^-12 cents.
pub record OrderContext : Type 0 where
  pub user_id : ℕ
  pub delivery_method : DeliveryMethod
  pub cash_app_username : Option String
  pub total : ℕ

-- `===` on transaction ids.
abbrev pub same_text : Option String → String → Bool
same_text none t = false
same_text (some u) t = str_eq u t

-- The unique constraint on `transactionId`; nulls do not count.
unfoldable pub taken : Option String → List Payment → Bool
taken none payments = false
taken (some t) payments = any (λ p. same_text p.transaction_id t) payments

-- `payment.create`: its order exists, and its transaction id, if any, is on no other row.
unfoldable pub create_payment : Payment → Action (Unit {0})
unfolding taken
create_payment row = do
  throw_if (dangling (← gets (λ s. s.orders)) (some row.order_id)) foreign_key
  throw_if (taken row.transaction_id (← gets (λ s. s.payments))) unique_constraint
  modify (λ s. record s { payments = row ∷ s.payments })

-- Neither PICKUP nor CURBSIDE.
abbrev pub is_delivery : DeliveryMethod → Bool
is_delivery delivery = true
is_delivery pickup = false
is_delivery curbside = false

-- The `validate` of each strategy.
unfoldable pub validate : PaymentMethod → OrderContext → Action (Unit {0})
validate in_store ctx = throw_if (is_delivery ctx.delivery_method) pay_in_store_unavailable
validate other ctx = pure tt

unfoldable pub initial_status : PaymentMethod → OrderStatus
initial_status cc = OrderStatus.pending_payment
initial_status other = OrderStatus.pending

unfoldable pub notifies_on_create : PaymentMethod → Bool
notifies_on_create cc = false
notifies_on_create other = true

-- The row that a strategy creates with an order.
abbrev pub payment_row : PaymentMethod → PaymentStatus → Option String → ℕ → OrderContext → Payment
payment_row method status handle order_id ctx = record {
  order_id = order_id;
  method = method;
  status = status;
  amount = to_cents ctx.total;
  transaction_id = none;
  payment_handle = handle;
}

unfoldable pub apply_in_transaction : PaymentMethod → ℕ → OrderContext → Action (Unit {0})
apply_in_transaction external order_id ctx =
    create_payment
      (payment_row external PaymentStatus.pending (trimmed ctx.cash_app_username) order_id ctx)
apply_in_transaction store_credit order_id ctx = do
  use_credit ctx.user_id (pos ctx.total) order_id
  create_payment (payment_row store_credit PaymentStatus.settled none order_id ctx)
apply_in_transaction in_store order_id ctx =
    create_payment (payment_row in_store PaymentStatus.pending none order_id ctx)
apply_in_transaction cc order_id ctx = pure tt

-- The total is that of the order's row, in cents.
unfoldable pub refund_on_delete : PaymentMethod → ℕ → ℕ → ℕ → Action (Unit {0})
unfolding refund_credit
refund_on_delete store_credit order_id user_id total =
    refund_credit user_id (to_amount (pos total)) order_id "Order cancelled"
refund_on_delete other order_id user_id total = pure tt

-- The gateway's transaction details, as far as they are read.
pub record Transaction : Type 0 where
  pub is_captured : Bool
  pub invoice : Option ℕ
  pub amount : ℕ

abbrev pub same_id : Option ℕ → ℕ → Bool
same_id none k = false
same_id (some j) k = j == k

-- `verifyTransaction`: the gateway's answer is none where it is not OK.
unfoldable pub verify_transaction :
    (String → Option Transaction) → String → ℕ → ℕ → Action (Unit {0})
unfolding taken
verify_transaction gateway trans_id expected_amount expected_order = do
  txn ← or_throw (gateway trans_id) gateway_unavailable
  throw_if (not txn.is_captured) payment_not_confirmed
  throw_if (not (same_id txn.invoice expected_order)) wrong_invoice
  throw_if (not (txn.amount == expected_amount)) amount_mismatch
  throw_if (dangling (← gets (λ s. s.orders)) (some expected_order)) foreign_key
  throw_if (taken (some trans_id) (← gets (λ s. s.payments))) payment_reused
  modify (λ s. record s {
    payments =
        record {
          order_id = expected_order;
          method = cc;
          status = PaymentStatus.settled;
          amount = txn.amount;
          transaction_id = some trans_id;
          payment_handle = none;
        }
        ∷ s.payments;
  })
