-- ===== src/Samples.antt =====
-- A small shop for the tests: one variant, two users, and orders in several states.
use generic_ecommerce_store.Common.{◌*◌, ℕ, Option, none, some, [], ◌∷◌, String, true, false}
use generic_ecommerce_store.Common.Int.{pos}
use generic_ecommerce_store.Money.{cent}
use generic_ecommerce_store.Pricing.{Variant}
use generic_ecommerce_store.Fulfillment.{Address, Environment, FulfillmentContext}
use generic_ecommerce_store.Payments.{Transaction}
use generic_ecommerce_store.Shop.{
  Shop, User, Order, OrderItem, OrderStatus, DeliveryMethod, PaymentMethod, in_zone, address_cache,
  CreditTransaction, added, update,
}
use generic_ecommerce_store.Orders.Stock.{StoreContext}
use generic_ecommerce_store.Orders.Status.{PosSettings}

abbrev pub tea : Variant
tea = record {
  product_name = "Tea";
  label = "1 lb";
  base_price = 1010;
  stock = 5000;
  stock_enabled = true;
  active = true;
  quantity_options = [];
  price_breaks = record { min_quantity = 2000000000000; unit_price = 900 } ∷ [];
}

-- A user with `n` cents of store credit.
abbrev pub user_with : ℕ → User
user_with n = record {
  store_credit_balance = pos n;
  cashapp = none;
  address = none;
  delivery_status = none;
  delivery_source = none;
  delivery_distance_miles = none;
  delivery_checked_at = none;
}

abbrev pub order_of : OrderStatus → DeliveryMethod → PaymentMethod → Order
order_of status delivery_method payment_method = record {
  user_id = 1;
  status = status;
  subtotal = 1010;
  tax = 83;
  total = 1093;
  delivery_method = delivery_method;
  payment_method = payment_method;
  delivery_address = none;
  vehicle_description = none;
  parking_spot = none;
  delivery_status = none;
  delivery_source = none;
  delivery_distance_miles = none;
  delivery_threshold_miles = none;
  delivery_checked_at = none;
}

abbrev pub item_of : ℕ → OrderItem
item_of id = record {
  id = id;
  order_id = 7;
  variant_id = 3;
  product_name = "Tea";
  variant_label = "1 lb";
  quantity = 1000000000000;
  unit_price = 1010;
  voided = false;
  added_after_submission = false;
}

abbrev pub entry_of : ℕ → CreditTransaction
entry_of n = record {
  user_id = 1;
  amount = pos n;
  balance_after = pos n;
  kind = added;
  order_id = none;
  note = none;
  created_by = some 2;
}

-- Order 7 is there if it is given.
abbrev pub shop_with : Option Order → Shop
shop_with order = record {
  variants = update (λ k. none) 3 (some tea);
  overrides = λ store k. none;
  users = update (update (λ k. none) 2 (some (user_with 0))) 1 (some (user_with 5000));
  orders = update (λ k. none) 7 order;
  next_order = 8;
  items = item_of 4 ∷ [];
  next_item = 5;
  payments = [];
  credit_transactions = entry_of 5000 ∷ [];
  status_events = [];
  outbox = [];
  next_outbox = 1;
  published = [];
  last_eligibility = none;
}

abbrev pub base_store : StoreContext
base_store = record { store_id = none; is_default_store = true }

abbrev pub home : String → Address
home street = record {
  street = street;
  apartment = none;
  city = "Elgin";
  state = "TX";
  zip_code = "78621";
}

-- Everything is in the zone, and no minimum holds.
abbrev pub open_zone : Environment
open_zone = record {
  minimum_delivery_order = 0;
  minimum_delivery_order_enabled = false;
  check_delivery_eligibility = λ a. record {
    deliverable = true;
    delivery_status = in_zone;
    delivery_source = address_cache;
    distance_miles = none;
    threshold_miles = 500;
    canonical_address = some a.street;
    checked_at = 1;
  };
}

abbrev pub delivery_to : String → FulfillmentContext
delivery_to street = record {
  user_id = 1;
  delivery_address = some (home street);
  vehicle_description = none;
  subtotal = 1010 * cent;
}

abbrev pub no_pos : PosSettings
no_pos = record {
  pos_provider = none;
  base_url = none;
  username = none;
  password = none;
  sak_catch_all_product_id = none;
  sak_catch_all_variant_id = none;
}

-- The gateway knows one transaction, for order 7.
abbrev pub gateway : String → Option Transaction
gateway trans_id = some (record { is_captured = true; invoice = some 7; amount = 1093 })
