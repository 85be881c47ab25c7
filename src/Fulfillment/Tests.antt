-- ===== src/Fulfillment/Tests.antt =====
-- Deliveries of the sample user.
use generic_ecommerce_store.Common.{◌≡◌, none, some, refl}
use generic_ecommerce_store.Samples.{shop_with, open_zone, home, delivery_to}
use generic_ecommerce_store.Shop.{Shop, delivery, ok}
use generic_ecommerce_store.Fulfillment.{Address, validate, build_order_fields, delivery_fields}
use generic_ecommerce_store.Fulfillment.Sharing.{build_order_fields-validate}

abbrev first : Shop
first = (validate open_zone delivery (delivery_to "1 Main St") (shop_with none)).1

abbrev second : Shop
second = (validate open_zone delivery (delivery_to "2 Oak St") first).1

build_order_fields-validate_example :
    (a b : Address) × (some (home "1 Main St") ≡ some a)
    × (some (home "2 Oak St") ≡ some b)
    × ((build_order_fields delivery (delivery_to "1 Main St") first).0
        ≡ ok (delivery_fields (some (open_zone.check_delivery_eligibility a))))
    × ((build_order_fields delivery (delivery_to "1 Main St") second).0
        ≡ ok (delivery_fields (some (open_zone.check_delivery_eligibility b))))
unfolding validate generic_ecommerce_store.Text.trim
build_order_fields-validate_example =
    build_order_fields-validate open_zone (delivery_to "1 Main St") (delivery_to "2 Oak St")
      (shop_with none) refl refl
