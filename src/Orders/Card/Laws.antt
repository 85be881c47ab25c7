-- ===== src/Orders/Card/Laws.antt =====
-- Confirming a card payment.
use text.Mathlib.TextPositions.{eq_refl}
use generic_ecommerce_store.Orders.Card.{
  confirm_card_payment, card_order, confirm_order, used_elsewhere, set_pending,
}
use generic_ecommerce_store.Common.{
  ap, subst, [], ◌++◌, List, ◌∷◌, ◌++◌, List, inr, inl, Option-cases, ℕ, ◌≡◌, Option, some, none,
  arith, false, true, refl, String, ◌∷◌,
}
use generic_ecommerce_store.Payments.{same_text, Transaction, taken, same_id, verify_transaction}
use generic_ecommerce_store.Shop.{
  bind-eq-ok, order_placed, publish, modify, throw_if, payment_reused, ◌>>◌, OrderStatus, Order,
  Shop, Payment, PaymentStatus, cc, ok,
}

-- What the gateway said of a payment that was accepted for an order.
pub record Verified (gateway : String → Option Transaction) (trans_id : String)
    (amount order_id : ℕ) (s t : Shop) : Type 0 where
  pub txn : Transaction
  pub answer : gateway trans_id ≡ some txn
  pub captured : txn.is_captured ≡ true
  pub invoice : same_id txn.invoice order_id ≡ true
  pub whole : txn.amount ≡ amount
  pub fresh : taken (some trans_id) s.payments ≡ false
  pub row : Payment
  pub of_order : row.order_id ≡ order_id
  pub of_method : row.method ≡ cc
  pub settled : row.status ≡ PaymentStatus.settled
  pub of_amount : row.amount ≡ amount
  pub of_id : row.transaction_id ≡ some trans_id
  pub written : t ≡ record s { payments = row ∷ s.payments }

verify_transaction-Verified :
    (gateway : String → Option Transaction) (trans_id : String) (amount order_id : ℕ) (s t : Shop)
    → verify_transaction gateway trans_id amount order_id s ≡ (ok tt, t)
    → Verified gateway trans_id amount order_id s t
unfolding verify_transaction
verify_transaction-Verified gateway trans_id amount order_id s t h =
    elim (Option-cases (gateway trans_id)) [
      | inl none_here ↦ absurd (ground arith)
      | inr (txn, here) ↦ record {
        txn = txn;
        answer = here;
        captured = ground arith;
        invoice = ground arith;
        whole = ground arith;
        fresh = ground arith;
        row = record {
          order_id = order_id;
          method = cc;
          status = PaymentStatus.settled;
          amount = txn.amount;
          transaction_id = some trans_id;
          payment_handle = none;
        };
        of_order = refl;
        of_method = refl;
        settled = refl;
        of_amount = ground arith;
        of_id = refl;
        written = ground arith;
      }
    ]

same_text_refl : (t : String) → same_text (some t) t ≡ true
same_text_refl t = eq_refl t

taken-append :
    (trans_id : String) (later payments : List Payment)
    → taken (some trans_id) payments ≡ true
    → taken (some trans_id) (later ++ payments) ≡ true
unfolding taken
taken-append trans_id [] payments h = h
taken-append trans_id (p ∷ later) payments h =
    ground (arith, taken-append trans_id later payments h)

-- A confirmed card payment: what the guards and the gateway said, and what was written.
pub record Confirmed (gateway : String → Option Transaction) (order_id user_id : ℕ)
    (trans_id : String) (s t : Shop) : Type 0 where
  pub order : Order
  pub stored : s.orders order_id ≡ some order
  pub owner : order.user_id ≡ user_id
  pub by_card : order.payment_method ≡ cc
  pub awaiting : order.status ≡ OrderStatus.pending_payment
  pub between : Shop
  pub verified : Verified gateway trans_id order.total order_id s between
  pub after : t ≡ record (set_pending order_id order between) {
    published = order_placed order_id user_id ∷ between.published;
  }

card_order-eq-ok :
    (order_id user_id : ℕ) (order : Order) (s t : Shop)
    → card_order order_id user_id s ≡ (ok order, t)
    → (t ≡ s)
      × (s.orders order_id ≡ some order)
      × (order.user_id ≡ user_id)
      × (order.payment_method ≡ cc)
      × (order.status ≡ OrderStatus.pending_payment)
unfolding card_order
card_order-eq-ok order_id user_id order s t h = ground arith

confirm_order-eq-ok :
    (gateway : String → Option Transaction) (order_id user_id : ℕ) (trans_id : String)
    (order : Order) (s t : Shop)
    → confirm_order gateway order_id user_id trans_id order s ≡ (ok tt, t)
    → (u : Shop) × Verified gateway trans_id order.total order_id s u
      × (t ≡ record (set_pending order_id order u) {
        published = order_placed order_id user_id ∷ u.published;
      })
unfolding confirm_order
confirm_order-eq-ok gateway order_id user_id trans_id order s t h =
    let finish = modify (set_pending order_id order) >> publish (order_placed order_id user_id) in
    let verify = verify_transaction gateway trans_id order.total order_id in
    let (_, s1, e1, h1) =
      bind-eq-ok (throw_if (used_elsewhere order_id trans_id s.payments) payment_reused)
        (λ _. verify >> finish) s t tt h in
    let (_, s2, e2, h2) = bind-eq-ok verify (λ _. finish) s1 t tt h1 in
    let same : s1 ≡ s = ground (arith, e1) in
    (
      s2,
      subst (λ (v : Shop). Verified gateway trans_id order.total order_id v s2) same
          (verify_transaction-Verified gateway trans_id order.total order_id s1 s2 e2),
      ground (arith, h2),
    )

-- A card payment that is confirmed was for a card order of that user that awaited payment; the
-- gateway knows the transaction as captured, for that order and for exactly its total; no payment
-- row had the transaction's id. Then one settled row over the total was added, the order became
-- pending, its placing was published, and nothing else changed.
pub confirm_card_payment-Confirmed :
    (gateway : String → Option Transaction) (order_id user_id : ℕ) (trans_id : String) (s t : Shop)
    → confirm_card_payment gateway order_id user_id trans_id s ≡ (ok tt, t)
    → Confirmed gateway order_id user_id trans_id s t
unfolding confirm_card_payment
confirm_card_payment-Confirmed gateway order_id user_id trans_id s t h =
    let (order, s1, e1, h1) =
      bind-eq-ok (card_order order_id user_id) (confirm_order gateway order_id user_id trans_id) s t
        tt h in
    let (same, stored, owner, by_card, awaiting) =
      card_order-eq-ok order_id user_id order s s1 e1 in
    let (u, verified, after) =
      confirm_order-eq-ok gateway order_id user_id trans_id order s1 t h1 in
    record {
      order = order;
      stored = stored;
      owner = owner;
      by_card = by_card;
      awaiting = awaiting;
      between = u;
      verified =
          subst (λ (v : Shop). Verified gateway trans_id order.total order_id v u) same verified;
      after = after;
    }

taken-written :
    (gateway : String → Option Transaction) (trans_id : String) (amount order_id : ℕ) (s t : Shop)
    → Verified gateway trans_id amount order_id s t
    → taken (some trans_id) t.payments ≡ true
unfolding taken
taken-written gateway trans_id amount order_id s t v =
    let here : t.payments ≡ v.row ∷ s.payments = ap (λ (u : Shop). u.payments) v.written in
    let same : same_text v.row.transaction_id trans_id ≡ true =
      rw v.of_id (same_text_refl trans_id) in
    rw here (ground (arith, same))

-- The transaction's id must be new: with it on a payment row, nothing is confirmed.
refuses_taken :
    (gateway : String → Option Transaction) (order_id user_id : ℕ) (trans_id : String) (s t : Shop)
    → taken (some trans_id) s.payments ≡ true
    → ¬ (confirm_card_payment gateway order_id user_id trans_id s ≡ (ok tt, t))
refuses_taken gateway order_id user_id trans_id s t old h =
    let fresh =
      (confirm_card_payment-Confirmed gateway order_id user_id trans_id s t h).verified.fresh in
    absurd (ground (arith, fresh, old))

-- A transaction pays for one order, once: after a confirmation with it, if the payments since are those of
-- then with any number of new ones added, no confirmation with it succeeds, for any order or user
-- and whatever the gateway answers. A deletion of the order, which takes its payment, is not such a change.
pub confirm_card_payment_once :
    (gateway again : String → Option Transaction) (order_id user_id other_order other_user : ℕ)
    (trans_id : String) (later : List Payment) (s t u v : Shop)
    → confirm_card_payment gateway order_id user_id trans_id s ≡ (ok tt, t)
    → u.payments ≡ later ++ t.payments
    → ¬ (confirm_card_payment again other_order other_user trans_id u ≡ (ok tt, v))
confirm_card_payment_once gateway again order_id user_id other_order other_user trans_id later s t u
      v h since =
    let c = confirm_card_payment-Confirmed gateway order_id user_id trans_id s t h in
    let there : taken (some trans_id) t.payments ≡ true =
      rw c.after (taken-written gateway trans_id c.order.total order_id s c.between c.verified) in
    refuses_taken again other_order other_user trans_id u v
      (rw since (taken-append trans_id later t.payments there))

-- The payment's row and the order's status are not written together: where the row was written and
-- the status was not, no later confirmation with that transaction succeeds, though it was paid.
pub verify_transaction_strands :
    (gateway : String → Option Transaction) (order_id user_id amount : ℕ) (trans_id : String)
    (s t v : Shop)
    → verify_transaction gateway trans_id amount order_id s ≡ (ok tt, t)
    → ¬ (confirm_card_payment gateway order_id user_id trans_id t ≡ (ok tt, v))
verify_transaction_strands gateway order_id user_id amount trans_id s t v h =
    refuses_taken gateway order_id user_id trans_id t v (
      taken-written gateway trans_id amount order_id s t
        (verify_transaction-Verified gateway trans_id amount order_id s t h))
