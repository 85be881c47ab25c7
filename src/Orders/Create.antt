-- ===== src/Orders/Create.antt =====
-- `createOrder` of order.crud.service.ts. Logging is left out, and so is the shape of the response:
-- the method returns the id of the order.
pub mod Frame
pub mod Failure
pub mod Totals
pub mod Success
mod Tests
use generic_ecommerce_store.Common.{
  suc, ℕ, ◌*◌, ◌+◌, Bool, Option, none, some, String, not, ◌&&◌, true, false, if◌then◌else◌, List,
  [], ◌∷◌,
}
use generic_ecommerce_store.Money.{cent, to_cents}
use generic_ecommerce_store.Orders.Lines.Tax.{tax_of}
use generic_ecommerce_store.Text.{trimmed}
use generic_ecommerce_store.Credit.{dangling}
use generic_ecommerce_store.Pricing.{Variant}
use generic_ecommerce_store.Payments
use generic_ecommerce_store.Payments.{OrderContext}
use generic_ecommerce_store.Fulfillment
use generic_ecommerce_store.Fulfillment.{Address, Environment, FulfillmentContext, OrderFields}
use generic_ecommerce_store.Shop.{
  Shop, Order, OrderItem, User, DeliveryMethod, PaymentMethod, external, Action, Result, Event,
  order_placed, publish, no_items, unknown_delivery_method, unknown_payment_method,
  variants_not_found, missing_tenant_context, record_not_found, foreign_key, ◌>>=◌, ◌>>◌, gets,
  throw_if, throw, pure, modify, or_throw, update, transaction, lift,
}
use generic_ecommerce_store.Orders.Stock.{StoreContext, decrement_stock_guarded}
use generic_ecommerce_store.Orders.Lines.{
  Line, PricedLine, price_lines, subtotal_from, active_variant,
}

-- A field of the request that may be missing, or hold no known method.
pub data Given (A : Type 0) : Type 0 where
  missing unknown : Given A
  known : A → Given A

-- `CreateOrderData`
pub record CreateOrderData : Type 0 where
  pub user_id : ℕ
  pub items : List Line
  pub cash_app_username : Option String
  pub delivery_method : Given DeliveryMethod
  pub delivery_address : Option Address
  pub vehicle_description : Option String
  pub payment_method : Given PaymentMethod

-- `getPaymentStrategy(paymentMethod || EXTERNAL)`
abbrev pub get_payment_method : Given PaymentMethod → Action PaymentMethod
get_payment_method missing = pure external
get_payment_method unknown = throw unknown_payment_method
get_payment_method (known m) = pure m

-- `getFulfillmentStrategy`, which throws before the handler's own test of the method.
abbrev pub get_delivery_method : Given DeliveryMethod → Action DeliveryMethod
get_delivery_method (known m) = pure m
get_delivery_method other = throw unknown_delivery_method

abbrev pub is_nil {ℓ} : {A : Type ℓ} → List A → Bool
is_nil [] = true
is_nil (x ∷ xs) = false

-- The update of the user's CashApp name, if one is given.
unfoldable pub save_cashapp : ℕ → Option String → Action (Unit {0})
save_cashapp user_id none = pure tt
save_cashapp user_id (some name) = do
  user ← or_throw (← gets (λ s. s.users user_id)) record_not_found
  modify (λ s. record s {
    users = update s.users user_id (some (record user { cashapp = some name }));
  })

abbrev found {ℓ} : {A : Type ℓ} → Option A → Bool
found none = false
found (some a) = true

-- As many rows as distinct ids are found exactly when each id is that of an active variant.
unfoldable pub all_found : Shop → List Line → Bool
all_found s [] = true
all_found s (line ∷ lines) = found (active_variant s line.variant_id) && all_found s lines

unfoldable pub create_order_row : Order → Action ℕ
create_order_row row = do
  throw_if (dangling (← gets (λ s. s.users)) (some row.user_id)) foreign_key
  order_id ← gets (λ s. s.next_order)
  modify (λ s. record s { orders = update s.orders order_id (some row); next_order = suc order_id })
  pure order_id

abbrev pub item_row : ℕ → ℕ → Bool → PricedLine → OrderItem
item_row id order_id late p = record {
  id = id;
  order_id = order_id;
  variant_id = p.variant_id;
  product_name = p.product_name;
  variant_label = p.variant_label;
  quantity = p.quantity;
  unit_price = p.unit_price;
  voided = false;
  added_after_submission = late;
}

-- `orderItem.create`; the last argument is `addedAfterSubmission`.
abbrev pub add_item : ℕ → Bool → PricedLine → Shop → Shop
add_item order_id late p s = record s {
  items = item_row s.next_item order_id late p ∷ s.items;
  next_item = suc s.next_item;
}

unfoldable pub create_items : ℕ → List PricedLine → Action (Unit {0})
create_items order_id [] = pure tt
create_items order_id (p ∷ ps) = do modify (add_item order_id false p); create_items order_id ps

unfoldable pub decrement_line : StoreContext → Line → Option Variant → Action (Unit {0})
unfolding decrement_stock_guarded
decrement_line c line none = pure tt
decrement_line c line (some v) =
    if v.stock_enabled
    then decrement_stock_guarded c line.variant_id line.quantity v.product_name
    else pure tt

-- The loop over the items that lowers the stocks, for the variants as they were read before.
unfoldable pub decrement_all : StoreContext → Shop → List Line → Action (Unit {0})
decrement_all c before [] = pure tt
decrement_all c before (line ∷ lines) =
    decrement_line c line (active_variant before line.variant_id) >> decrement_all c before lines

abbrev pub order_row :
    CreateOrderData → DeliveryMethod → PaymentMethod → ℕ → ℕ → OrderFields → Order
order_row request delivery_method payment_method subtotal tax f = record {
  user_id = request.user_id;
  status = Payments.initial_status payment_method;
  subtotal = to_cents subtotal;
  tax = tax;
  total = to_cents (subtotal + tax * cent);
  delivery_method = delivery_method;
  payment_method = payment_method;
  delivery_address = f.delivery_address;
  vehicle_description = f.vehicle_description;
  parking_spot = none;
  delivery_status = f.delivery_status;
  delivery_source = f.delivery_source;
  delivery_distance_miles = f.delivery_distance_miles;
  delivery_threshold_miles = f.delivery_threshold_miles;
  delivery_checked_at = f.delivery_checked_at;
}

abbrev pub fulfillment_context : CreateOrderData → ℕ → FulfillmentContext
fulfillment_context request subtotal = record {
  user_id = request.user_id;
  delivery_address = request.delivery_address;
  vehicle_description = request.vehicle_description;
  subtotal = subtotal;
}

abbrev pub payment_context : CreateOrderData → DeliveryMethod → ℕ → OrderContext
payment_context request delivery_method total = record {
  user_id = request.user_id;
  delivery_method = delivery_method;
  cash_app_username = request.cash_app_username;
  total = total;
}

-- `dispatchOrderCreatedEffects`, if the payment method does not wait for a confirmation.
abbrev pub announce : PaymentMethod → ℕ → ℕ → Action (Unit {0})
announce payment_method order_id user_id =
    if Payments.notifies_on_create payment_method
    then publish (order_placed order_id user_id)
    else pure tt

-- The part inside `prisma.$transaction` that follows the creation of the order's row.
unfoldable pub fill_order :
    StoreContext
    → CreateOrderData
    → DeliveryMethod
    → PaymentMethod
    → Shop
    → List PricedLine
    → ℕ
    → ℕ
    → Action (Unit {0})
fill_order c request delivery_method payment_method before priced total order_id = do
  create_items order_id priced
  decrement_all c before request.items
  Fulfillment.apply_in_transaction delivery_method request.user_id
  Payments.apply_in_transaction payment_method order_id
      (payment_context request delivery_method total)

-- The part inside `prisma.$transaction`.
unfoldable pub place_order :
    StoreContext
    → CreateOrderData
    → DeliveryMethod
    → PaymentMethod
    → Shop
    → List PricedLine
    → ℕ
    → ℕ
    → Action ℕ
place_order c request delivery_method payment_method before priced subtotal tax = do
  fields ← Fulfillment.build_order_fields delivery_method (fulfillment_context request subtotal)
  order_id ← create_order_row (order_row request delivery_method payment_method subtotal tax fields)
  fill_order c request delivery_method payment_method before priced (subtotal + tax * cent) order_id
  pure order_id

-- The transaction and what follows it.
unfoldable pub conclude :
    StoreContext
    → CreateOrderData
    → DeliveryMethod
    → PaymentMethod
    → Shop
    → List PricedLine
    → ℕ
    → ℕ
    → Action ℕ
conclude c request delivery_method payment_method before priced subtotal tax = do
  order_id ←
      transaction (place_order c request delivery_method payment_method before priced subtotal tax)
  announce payment_method order_id request.user_id
  pure order_id

-- The checks that want the subtotal and the total, and the tax in between.
unfoldable pub settle :
    Environment
    → StoreContext
    → CreateOrderData
    → DeliveryMethod
    → PaymentMethod
    → Shop
    → List PricedLine
    → Action ℕ
settle env c request delivery_method payment_method before priced = do
  let subtotal = subtotal_from 0 priced
  Fulfillment.validate env delivery_method (fulfillment_context request subtotal)
  let tax = tax_of priced
  Payments.validate payment_method (payment_context request delivery_method (subtotal + tax * cent))
  conclude c request delivery_method payment_method before priced subtotal tax

-- What follows the checks of the request, from the reading of the variants on.
unfoldable pub check_out :
    Environment → StoreContext → CreateOrderData → DeliveryMethod → PaymentMethod → Action ℕ
check_out env c request delivery_method payment_method = do
  before ← gets (λ s. s)
  throw_if (not (all_found before request.items)) variants_not_found
  priced ← lift (price_lines c before request.items)
  settle env c request delivery_method payment_method before priced

-- The early check of the payment method, and the user's CashApp name, before the store is read.
unfoldable pub take_order :
    Environment → Option StoreContext → CreateOrderData → DeliveryMethod → PaymentMethod → Action ℕ
take_order env context request delivery_method payment_method = do
  Payments.validate payment_method (payment_context request delivery_method 0)
  save_cashapp request.user_id (trimmed request.cash_app_username)
  c ← or_throw context missing_tenant_context
  check_out env c request delivery_method payment_method

-- The tenant context is none where the request has none.
unfoldable pub create_order : Environment → Option StoreContext → CreateOrderData → Action ℕ
create_order env context request = do
  payment_method ← get_payment_method request.payment_method
  delivery_method ← get_delivery_method request.delivery_method
  throw_if (is_nil request.items) no_items
  take_order env context request delivery_method payment_method
