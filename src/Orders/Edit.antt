-- ===== src/Orders/Edit.antt =====
-- `addItemToOrder`, `voidOrderItem`, `deleteOrderItem` and `deleteOrder` of order.crud.service.ts.
pub mod Items
pub mod Deletion
mod Tests
use generic_ecommerce_store.Common.{
  ℕ, ◌*◌, ◌+◌, Bool, Option, none, some, String, not, ◌&&◌, true, false, if◌then◌else◌, List, [],
  ◌∷◌, find?, keep, ◌==◌,
}
use generic_ecommerce_store.Money.{cent, to_cents}
use generic_ecommerce_store.Pricing.{Variant}
use generic_ecommerce_store.Payments
use generic_ecommerce_store.Shop.{
  Shop, Order, OrderItem, OrderStatus, CreditTransaction, StatusEvent, OutboxRow, Payment, Action,
  order_not_found, product_not_found, item_not_found, already_voided, only_pending_cancelled,
  missing_tenant_context, ◌>>=◌, ◌>>◌, gets, throw_if, throw, pure, modify, or_throw, update,
  transaction, lift,
}
use generic_ecommerce_store.Orders.Stock.{StoreContext, decrement_stock_guarded}
use generic_ecommerce_store.Orders.Lines.{Line, PricedLine, price_line, override_for}
use generic_ecommerce_store.Orders.Create.{add_item, decrement_line}

-- `sumOrderItems`: the exact sum of the lines that are not voided.
unfoldable pub sum_order_items : List OrderItem → ℕ
sum_order_items [] = 0
sum_order_items (i ∷ items) =
    if i.voided then sum_order_items items else i.unit_price * i.quantity + sum_order_items items

abbrev pub items_of : ℕ → List OrderItem → List OrderItem
items_of order_id = keep (λ i. i.order_id == order_id)

-- `orderItem.findFirst({ id: itemId, orderId })`
abbrev pub find_item : ℕ → ℕ → List OrderItem → Option OrderItem
find_item order_id item_id = find? (λ i. i.id == item_id && i.order_id == order_id)

-- The transaction of `addItemToOrder`.
unfoldable pub append_item :
    StoreContext → ℕ → Order → Variant → Line → PricedLine → Action (Unit {0})
append_item c order_id order v line priced = do
  modify (add_item order_id true priced)
  modify (λ s. record s {
    orders = update s.orders order_id (
        some (record order {
          total = to_cents (order.total * cent + priced.unit_price * priced.quantity);
        }));
  })
  decrement_line c line (some v)

unfoldable pub add_item_to_order : Option StoreContext → ℕ → Line → Action (Unit {0})
unfolding append_item
add_item_to_order context order_id line = do
  c ← or_throw context missing_tenant_context
  order ← or_throw (← gets (λ s. s.orders order_id)) order_not_found
  v ← or_throw (← gets (λ s. s.variants line.variant_id)) product_not_found
  override ← gets (λ s. override_for c s line.variant_id)
  priced ← lift (price_line c v override line)
  transaction (append_item c order_id order v line priced)

-- The total of the order, if it is there, becomes the sum of its items.
unfoldable pub recalculate : ℕ → Shop → Shop
unfolding sum_order_items
recalculate order_id s = elim (s.orders order_id) [
  | none ↦ s
  | some order ↦ record s {
    orders =
        update s.orders order_id
          (some (record order { total = to_cents (sum_order_items (items_of order_id s.items)) }));
  }
]

abbrev pub mark_voided : ℕ → List OrderItem → List OrderItem
mark_voided item_id [] = []
mark_voided item_id (i ∷ items) =
    (if i.id == item_id then record i { voided = true } else i) ∷ mark_voided item_id items

unfoldable pub void_order_item : ℕ → ℕ → Action (Unit {0})
unfolding recalculate
void_order_item order_id item_id = do
  item ← or_throw (← gets (λ s. find_item order_id item_id s.items)) item_not_found
  throw_if item.voided already_voided
  modify (λ s. record s { items = mark_voided item_id s.items })
  modify (recalculate order_id)

unfoldable pub delete_order_item : ℕ → ℕ → Action (Unit {0})
unfolding recalculate
delete_order_item order_id item_id = do
  item ← or_throw (← gets (λ s. find_item order_id item_id s.items)) item_not_found
  modify (λ s. record s { items = keep (λ i. not (i.id == item_id)) s.items })
  modify (recalculate order_id)

-- `onDelete: SetNull` of a credit entry's order.
abbrev pub forget_order : ℕ → List CreditTransaction → List CreditTransaction
forget_order order_id [] = []
forget_order order_id (t ∷ ts) =
    (if Payments.same_id t.order_id order_id then record t { order_id = none } else t)
    ∷ forget_order order_id ts

-- `order.delete`, with the cascades of the schema.
unfoldable pub delete_row : ℕ → Shop → Shop
delete_row order_id s = record s {
  orders = update s.orders order_id none;
  items = keep (λ i. not (i.order_id == order_id)) s.items;
  payments = keep (λ p. not (p.order_id == order_id)) s.payments;
  status_events = keep (λ e. not (e.order_id == order_id)) s.status_events;
  outbox = keep (λ r. not (r.order_id == order_id)) s.outbox;
  credit_transactions = forget_order order_id s.credit_transactions;
}

abbrev pub is_pending : OrderStatus → Bool
is_pending OrderStatus.pending = true
is_pending other = false

-- `order.userId !== requesterId`, and then `order.status !== 'PENDING'`, for a customer.
abbrev pub check_requester : Order → Option ℕ → Action (Unit {0})
check_requester order none = pure tt
check_requester order (some requester) = do
  throw_if (not (order.user_id == requester)) order_not_found
  throw_if (not (is_pending order.status)) only_pending_cancelled

-- The requester is none for staff. The row is deleted before the payment is refunded, and the two
-- are not in one transaction.
unfoldable pub delete_order : ℕ → Option ℕ → Action (Unit {0})
unfolding delete_row
delete_order order_id requester = do
  order ← or_throw (← gets (λ s. s.orders order_id)) order_not_found
  check_requester order requester
  modify (delete_row order_id)
  Payments.refund_on_delete order.payment_method order_id order.user_id order.total
