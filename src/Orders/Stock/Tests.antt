-- ===== src/Orders/Stock/Tests.antt =====
-- Sales of the sample variant, of which there are five units.
use generic_ecommerce_store.Common.{ℕ, ◌≡◌, ◌+◌, none, some, [], ◌∷◌, refl, List}
use generic_ecommerce_store.Samples.{shop_with, base_store}
use generic_ecommerce_store.Orders.Stock.Laws.{stock_at, run_sales, run_sales_conserves}

-- Four units, then three, of which there are not enough left, then one.
abbrev wanted : List ℕ
wanted = 4000 ∷ 3000 ∷ 1000 ∷ []

run_sales_conserves_example :
    (left : ℕ) × (stock_at base_store (run_sales base_store 3 "Tea" wanted (shop_with none)).1 3
      ≡ some left)
    × ((run_sales base_store 3 "Tea" wanted (shop_with none)).0 + left ≡ 5000)
run_sales_conserves_example =
    run_sales_conserves base_store 3 "Tea" wanted 5000 (shop_with none) refl
