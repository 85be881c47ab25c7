-- ===== src/Payments/Laws.antt =====
-- What the payment strategies write when an order is placed, and which they can refuse.
use generic_ecommerce_store.Common.{ap, ℕ, ◌≡◌, List, ◌∷◌, arith, none, refl}
use generic_ecommerce_store.Common.Int.{ℤ, pos}
use generic_ecommerce_store.Money.{to_cents}
use generic_ecommerce_store.Shop.{
  bind-eq-ok, Shop, PaymentMethod, external, store_credit, in_store, cc, Payment, PaymentStatus, ok,
}
use generic_ecommerce_store.Text.{trimmed}
use generic_ecommerce_store.Payments.{
  payment_row, OrderContext, apply_in_transaction, create_payment,
}
use generic_ecommerce_store.Credit.{use_credit}

-- The status of the payment row that a placed order gets.
abbrev pub status_when_placed : PaymentMethod → PaymentStatus
status_when_placed store_credit = PaymentStatus.settled
status_when_placed other = PaymentStatus.pending

-- One payment row for the order, of the amount and method; with a card none yet.
abbrev pub Paid : PaymentMethod → ℕ → ℕ → List Payment → List Payment → Type 0
Paid cc order_id amount before after = after ≡ before
Paid m order_id amount before after =
    (p : Payment) × (after ≡ p ∷ before)
    × (p.order_id ≡ order_id)
    × (p.method ≡ m)
    × (p.amount ≡ amount)
    × (p.status ≡ status_when_placed m)
    × (p.transaction_id ≡ none)

create_payment-eq-ok :
    (row : Payment) (s t : Shop)
    → create_payment row s ≡ (ok tt, t)
    → t ≡ record s { payments = row ∷ s.payments }
unfolding create_payment
create_payment-eq-ok row s t h = ground arith

use_credit-frame :
    (user_id order_id : ℕ) (amount : ℤ) (s t : Shop)
    → use_credit user_id amount order_id s ≡ (ok tt, t)
    → t ≡ record s { users = t.users; credit_transactions = t.credit_transactions }
unfolding use_credit
use_credit-frame user_id order_id amount s t h = ground arith

-- Where the strategy of a payment method succeeds in the checkout transaction, only users, the credit
-- ledger and the payments may have changed. One payment row was added for the order, with the method
-- and the total in cents and without a transaction id, settled for store credit and else pending;
-- with a card the payments are as before.
pub apply_in_transaction-Paid :
    (m : PaymentMethod) (order_id : ℕ) (ctx : OrderContext) (s t : Shop)
    → apply_in_transaction m order_id ctx s ≡ (ok tt, t)
    → (t ≡ record s {
      users = t.users;
      credit_transactions = t.credit_transactions;
      payments = t.payments;
    })
      × Paid m order_id (to_cents ctx.total) s.payments t.payments
unfolding apply_in_transaction
apply_in_transaction-Paid external order_id ctx s t h =
    let row =
      payment_row external PaymentStatus.pending (trimmed ctx.cash_app_username) order_id ctx in
    let e = create_payment-eq-ok row s t h in
    (ground (arith, e), (row, ap (λ (u : Shop). u.payments) e, refl, refl, refl, refl, refl))
apply_in_transaction-Paid store_credit order_id ctx s t h =
    let row = payment_row store_credit PaymentStatus.settled none order_id ctx in
    let (a, u, spent, h') =
      bind-eq-ok (use_credit ctx.user_id (pos ctx.total) order_id) (λ _. create_payment row) s t tt
        h in
    let frame = use_credit-frame ctx.user_id order_id (pos ctx.total) s u spent in
    let e = create_payment-eq-ok row u t h' in
    (ground (arith, e, frame), (row, ground (arith, e, frame), refl, refl, refl, refl, refl))
apply_in_transaction-Paid in_store order_id ctx s t h =
    let row = payment_row in_store PaymentStatus.pending none order_id ctx in
    let e = create_payment-eq-ok row s t h in
    (ground (arith, e), (row, ap (λ (u : Shop). u.payments) e, refl, refl, refl, refl, refl))
apply_in_transaction-Paid cc order_id ctx s t h = ground arith
