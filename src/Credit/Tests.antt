-- ===== src/Credit/Tests.antt =====
-- Credit of the sample users.
use generic_ecommerce_store.Common.{none, some, refl, arith}
use generic_ecommerce_store.Common.Int.{pos, ◌+ℤ◌}
use generic_ecommerce_store.Money.{to_amount}
use generic_ecommerce_store.Samples.{shop_with, order_of}
use generic_ecommerce_store.Shop.{Shop, transaction, OrderStatus, pickup, store_credit}
use generic_ecommerce_store.Credit.{add_credit, remove_credit, use_credit, ledger_sum}
use generic_ecommerce_store.Credit.Ledger.{
  IsSound, CreditRun, add, remove, use_for, here, then_step, CreditRun-IsSound,
}

abbrev shop : Shop
shop = shop_with (some (order_of OrderStatus.pending pickup store_credit))

abbrev topped_up : Shop
topped_up = (add_credit 1 (to_amount (pos 250)) none 2 shop).1

-- The second user has nothing that could be removed.
abbrev after_both : Shop
after_both = (remove_credit 2 (to_amount (pos 100)) none 1 topped_up).1

-- The first user pays an order with a part of it.
abbrev after_all : Shop
after_all = (transaction (use_credit 1 (to_amount (pos 120)) 7) after_both).1

abbrev run : CreditRun shop after_all
run =
    then_step
      (then_step (then_step here (add 1 (pos 250) none 2 refl)) (remove 2 (pos 100) none 1 refl))
      (use_for 1 (pos 120) 7 refl)

shop-IsSound : IsSound shop
unfolding ledger_sum ◌+ℤ◌
shop-IsSound = (λ k user found. ground arith, λ k user found. ground arith)

CreditRun-IsSound_example : IsSound after_all
CreditRun-IsSound_example = CreditRun-IsSound run shop-IsSound
