-- ===== src/Orders/Create/Tests.antt =====
-- Checkouts of the sample shop.
use generic_ecommerce_store.Common.{ℕ, ◌*◌, ◌/◌, ◌≡◌, none, some, [], ◌∷◌, refl}
use generic_ecommerce_store.Money.{cent}
use generic_ecommerce_store.Money.Doubles.{to_double, add, mul, to_fixed}
use generic_ecommerce_store.Orders.Lines.{PricedLine}
use generic_ecommerce_store.Orders.Lines.Tax.{tax_of, subtotal_double, line_double}
use generic_ecommerce_store.Samples.{shop_with, base_store, open_zone}
use generic_ecommerce_store.Shop.{pickup, in_store, variants_not_found}
use generic_ecommerce_store.Orders.Create.{create_order, CreateOrderData, known}
use generic_ecommerce_store.Orders.Create.Frame.{Untouched}
use generic_ecommerce_store.Orders.Create.Failure.{create_order-Untouched}

-- Two units of a variant, picked up and paid in the store.
abbrev two_of : ℕ → CreateOrderData
two_of variant_id = record {
  user_id = 1;
  items = record { variant_id = variant_id; quantity = 2000000000000 } ∷ [];
  cash_app_username = some " $ann ";
  delivery_method = known pickup;
  delivery_address = none;
  vehicle_description = none;
  payment_method = known in_store;
}

create_order-Untouched_example :
    Untouched
      (shop_with none)
      (create_order open_zone (some base_store) (two_of 4) (shop_with none)).1
unfolding create_order generic_ecommerce_store.Orders.Create.take_order
    generic_ecommerce_store.Payments.validate generic_ecommerce_store.Orders.Create.save_cashapp
    generic_ecommerce_store.Text.trimmed generic_ecommerce_store.Orders.Create.check_out
    generic_ecommerce_store.Orders.Create.all_found
create_order-Untouched_example =
    create_order-Untouched open_zone (some base_store) (two_of 4) (shop_with none)
      variants_not_found refl

abbrev line_at : ℕ → ℕ → PricedLine
line_at price quantity = record {
  variant_id = 3;
  product_name = "Tea";
  variant_label = "Tin";
  quantity = quantity;
  unit_price = price;
}

-- The exact tax of six dollars is 49 cents and a half, and that of ten dollars 82 and a half: the double of
-- the first is less, that of the second is not.
six_dollars : tax_of (line_at 600 cent ∷ []) ≡ 49
unfolding tax_of subtotal_double line_double add mul to_double to_fixed
six_dollars = refl

ten_dollars : tax_of (line_at 500 (2 * cent) ∷ []) ≡ 83
unfolding tax_of subtotal_double line_double add mul to_double to_fixed
ten_dollars = refl

-- The doubles of two lines add up to a bit more than the double of their exact sum, six dollars.
two_lines : tax_of (line_at 159 (32 * cent / 10) ∷ line_at 24 (38 * cent / 10) ∷ []) ≡ 50
unfolding tax_of subtotal_double line_double add mul to_double to_fixed
two_lines = refl
