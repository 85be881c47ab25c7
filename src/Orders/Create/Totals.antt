-- ===== src/Orders/Create/Totals.antt =====
-- The order that a checkout places.
use mathlib.Core.Path.{subst₃}
use generic_ecommerce_store.Common.{ap, ◌*◌, ◌+◌, subst, ℕ, suc, ◌≡◌, List, arith, some}
use generic_ecommerce_store.Money.{cent, to_cents}
use generic_ecommerce_store.Shop.{
  ◌>>=◌, Payment, pure, ◌>>◌, Shop, Order, PaymentMethod, DeliveryMethod, ok, bind-eq-ok, update,
}
use generic_ecommerce_store.Payments
use generic_ecommerce_store.Payments.Laws.{Paid, apply_in_transaction-Paid}
use generic_ecommerce_store.Fulfillment
use generic_ecommerce_store.Fulfillment.{OrderFields, Environment, FulfillmentContext}
use generic_ecommerce_store.Orders.Stock.{StoreContext}
use generic_ecommerce_store.Orders.Lines.{PricedLine}
use generic_ecommerce_store.Orders.Create.{
  fulfillment_context, place_order, order_row, CreateOrderData, fill_order, create_order_row,
  create_items, decrement_all, payment_context,
}
use generic_ecommerce_store.Orders.Create.Frame.{
  create_items-frame, decrement_all-frame, Fulfillment_apply-frame,
}

create_order_row-eq-ok :
    (row : Order) (s t : Shop) (order_id : ℕ)
    → create_order_row row s ≡ (ok order_id, t)
    → (order_id ≡ s.next_order)
      × (t ≡ record s {
        orders = update s.orders s.next_order (some row);
        next_order = suc s.next_order;
      })
unfolding create_order_row
create_order_row-eq-ok row s t order_id h = ground arith

build_order_fields-eq-ok :
    (d : DeliveryMethod) (ctx : FulfillmentContext) (s t : Shop) (f : OrderFields)
    → Fulfillment.build_order_fields d ctx s ≡ (ok f, t)
    → t ≡ s
unfolding Fulfillment.build_order_fields
build_order_fields-eq-ok d ctx s t f h = ground arith

module _ (c : StoreContext) (request : CreateOrderData) (d : DeliveryMethod) (m : PaymentMethod)
    (before : Shop) (priced : List PricedLine) where
  fill_order-Paid :
      (total order_id : ℕ) (s t : Shop)
      → fill_order c request d m before priced total order_id s ≡ (ok tt, t)
      → (t.orders ≡ s.orders)
        × (t.next_order ≡ s.next_order)
        × (t.items ≡ (create_items order_id priced s).1.items)
        × Paid m order_id (to_cents total) s.payments t.payments
  unfolding fill_order
  fill_order-Paid total order_id s t h =
      let pay = Payments.apply_in_transaction m order_id (payment_context request d total) in
      let cache = Fulfillment.apply_in_transaction d request.user_id in
      let lower = decrement_all c before request.items in
      let (_, s1, made, h1) =
        bind-eq-ok (create_items order_id priced) (λ _. lower >> (cache >> pay)) s t tt h in
      let (_, s2, lowered, h2) = bind-eq-ok lower (λ _. cache >> pay) s1 t tt h1 in
      let (_, s3, cached, h3) = bind-eq-ok cache (λ _. pay) s2 t tt h2 in
      let (rest, paid) =
        apply_in_transaction-Paid m order_id (payment_context request d total) s3 t h3 in
      let e1 = create_items-frame order_id priced s in
      let e2 = decrement_all-frame c before request.items s1 in
      let e3 = (Fulfillment_apply-frame d request.user_id s2).0 in
      let same : s3.payments ≡ s.payments = ground (arith, e1, e2, e3, made, lowered, cached) in
      (
        ground (arith, e1, e2, e3, made, lowered, cached, rest),
        ground (arith, e1, e2, e3, made, lowered, cached, rest),
        ground (arith, e1, e2, e3, made, lowered, cached, rest),
        subst (λ ps. Paid m order_id (to_cents total) ps t.payments) same paid,
      )

  -- What the transaction did to the tables of orders and payments.
  abbrev pub PlacedRow : ℕ → ℕ → Shop → ℕ → Shop → Type 0
  PlacedRow subtotal tax s order_id t =
      (f : OrderFields) × (order_id ≡ s.next_order)
      × (t.orders ≡ update s.orders order_id (some (order_row request d m subtotal tax f)))
      × Paid m order_id (to_cents (subtotal + tax * cent)) s.payments t.payments

  pub place_order-PlacedRow :
      (subtotal tax order_id : ℕ) (s t : Shop)
      → place_order c request d m before priced subtotal tax s ≡ (ok order_id, t)
      → PlacedRow subtotal tax s order_id t
  unfolding place_order
  place_order-PlacedRow subtotal tax order_id s t h =
      let ctx = fulfillment_context request subtotal in
      let row = order_row request d m subtotal tax in
      let fill = fill_order c request d m before priced (subtotal + tax * cent) in
      let (f, s1, built, h1) =
        bind-eq-ok (Fulfillment.build_order_fields d ctx)
          (λ f. create_order_row (row f) >>= λ k. fill k >> pure k) s t order_id h in
      let (k, s2, created, h2) =
        bind-eq-ok (create_order_row (row f)) (λ k. fill k >> pure k) s1 t order_id h1 in
      let (_, s3, filled, h3) = bind-eq-ok (fill k) (λ _. pure k) s2 t order_id h2 in
      let e1 = build_order_fields-eq-ok d ctx s s1 f built in
      let (fresh, e2) = create_order_row-eq-ok (row f) s1 s2 k created in
      let (orders, _, _, paid) = fill_order-Paid (subtotal + tax * cent) k s2 s3 filled in
      let same_k : k ≡ order_id = cc in
      let same_t : s3 ≡ t = cc in
      let before_paid : s2.payments ≡ s.payments = ground (arith, e1, e2) in
      (
        f,
        ground (arith, same_k, fresh, e1),
        ground (arith, same_t, orders, e2, e1, same_k, fresh),
        subst₃ (λ (n : ℕ) (ps qs : List Payment). Paid m n (to_cents (subtotal + tax * cent)) ps qs)
            same_k before_paid (ap (λ (u : Shop). u.payments) same_t) paid,
      )
