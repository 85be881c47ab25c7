-- ===== src/Checkout/Tests.antt =====
-- A card payment that fails and then succeeds.
use generic_ecommerce_store.Common.{ℕ, List, [], ◌∷◌, ◌≡◌, ◌⊎◌, false}
use generic_ecommerce_store.Common.Lists.{any}
use generic_ecommerce_store.Checkout.{
  FlowAction, submit, order_created_cc, payment_failed, payment_confirmed, initial_checkout_flow,
  run_flow,
}
use generic_ecommerce_store.Checkout.Shown.{Needs, IsGiven, creates_order, run_flow-Needs}

abbrev paid_later : List (FlowAction ℕ ℕ ℕ)
paid_later = submit ∷ order_created_cc 7 1 ∷ payment_failed 7 ∷ payment_confirmed ∷ []

run_flow-Needs_example :
    Needs
      (run_flow initial_checkout_flow paid_later).state
      (run_flow initial_checkout_flow paid_later)
    × ((any creates_order paid_later ≡ false)
        ⊎ IsGiven (run_flow initial_checkout_flow paid_later).order_state)
run_flow-Needs_example = run_flow-Needs paid_later
