-- ===== src/Orders/Create/Success.antt =====
-- A checkout that succeeds.
use generic_ecommerce_store.Common.{◌≢◌, some, Option, sym, sym, ℕ, ◌+◌, ◌≡◌, List}
use generic_ecommerce_store.Money.{to_cents}
use generic_ecommerce_store.Shop.{Shop, ok}
use generic_ecommerce_store.Payments
use generic_ecommerce_store.Payments.Laws.{Paid}
use generic_ecommerce_store.Fulfillment
use generic_ecommerce_store.Fulfillment.{OrderFields}
use generic_ecommerce_store.Orders.Stock.{StoreContext}
use generic_ecommerce_store.Orders.Lines.{PricedLine, price_lines}
use generic_ecommerce_store.Orders.Lines.Laws.{line_sum}
use generic_ecommerce_store.Orders.Lines.Tax.{tax_of}
use generic_ecommerce_store.Orders.Create.{Order, CreateOrderData}

-- What a successful checkout of `request` in `s` leaves in `t`.
pub record Placed (context : Option StoreContext) (request : CreateOrderData) (s : Shop)
    (order_id : ℕ) (t : Shop) : Type 0 where
  pub store : StoreContext
  pub at_store : context ≡ some store
  pub priced : List PricedLine
  pub priced_by : price_lines store s request.items ≡ ok priced
  pub order : Order
  pub fresh : order_id ≡ s.next_order
  pub stored : t.orders order_id ≡ some order
  pub others : (k : ℕ) → k ≢ order_id → t.orders k ≡ s.orders k
  pub owner : order.user_id ≡ request.user_id
  pub subtotal : order.subtotal ≡ to_cents (line_sum priced)
  pub tax : order.tax ≡ tax_of priced
  pub total : order.total ≡ order.subtotal + order.tax
  pub status : order.status ≡ Payments.initial_status order.payment_method
  pub paid : Paid order.payment_method order_id order.total s.payments t.payments
