-- ===== src/Checkout/Shown.antt =====
-- What the page shows in each state is there.
use generic_ecommerce_store.Common.{
  [], Option, none, some, List, [], ◌∷◌, Bool, true, false, ◌||◌, ◌≡◌, ◌⊎◌, inl, inr, ap, sym, ◌∙◌,
  Bool-cases,
}
use generic_ecommerce_store.Common.Lists.{any}
use generic_ecommerce_store.Checkout.{
  submit, order_created_external, order_created_cc, order_created_immediate, payment_confirmed,
  payment_failed, external_payment_confirmed, cancel, submit_error, other, payment_failed,
  order_created_immediate, order_created_cc, order_created_external, Flow, FlowAction,
  CheckoutFlowState, awaiting_payment, cc_payment, retry, initial_checkout_flow,
  checkout_flow_reducer, run_flow,
}

-- The option holds a value.
abbrev pub IsGiven : {A : Type 0} → Option A → Type 0
IsGiven none = ⊥
IsGiven (some a) = Unit

module _ {O M R : Type 0} where
  -- What the state needs: the order while a payment is awaited, the card modal in CC_PAYMENT, and the
  -- order to pay again in RETRY.
  abbrev pub Needs : CheckoutFlowState → Flow O M R → Type 0
  Needs awaiting_payment flow = IsGiven flow.order_state
  Needs cc_payment flow = IsGiven flow.order_state × IsGiven flow.cc_modal
  Needs retry flow = IsGiven flow.retry_order
  Needs state flow = Unit

  reducer-Needs :
      (flow : Flow O M R) (a : FlowAction O M R)
      → Needs flow.state flow
      → Needs (checkout_flow_reducer flow a).state (checkout_flow_reducer flow a)
  unfolding checkout_flow_reducer
  reducer-Needs flow submit h = tt
  reducer-Needs flow (order_created_external o) h = tt
  reducer-Needs flow (order_created_cc o m) h = (tt, tt)
  reducer-Needs flow (order_created_immediate o) h = tt
  reducer-Needs flow payment_confirmed h = tt
  reducer-Needs flow (payment_failed r) h = tt
  reducer-Needs flow external_payment_confirmed h = tt
  reducer-Needs flow cancel h = tt
  reducer-Needs flow submit_error h = tt
  reducer-Needs flow other h = h

  run_from-Needs :
      (flow : Flow O M R) (actions : List (FlowAction O M R))
      → Needs flow.state flow
      → Needs (run_flow flow actions).state (run_flow flow actions)
  unfolding run_flow
  run_from-Needs flow [] h = h
  run_from-Needs flow (a ∷ actions) h =
      run_from-Needs (checkout_flow_reducer flow a) actions (reducer-Needs flow a h)

  -- The actions that bring an order.
  abbrev pub creates_order : FlowAction O M R → Bool
  creates_order (order_created_external o) = true
  creates_order (order_created_cc o m) = true
  creates_order (order_created_immediate o) = true
  creates_order a = false

  -- An order that is there stays, and one that is created is there.
  reducer-IsGiven :
      (flow : Flow O M R) (a : FlowAction O M R)
      → (creates_order a ≡ true) ⊎ IsGiven flow.order_state
      → IsGiven (checkout_flow_reducer flow a).order_state
  unfolding checkout_flow_reducer
  reducer-IsGiven flow (order_created_external o) h = tt
  reducer-IsGiven flow (order_created_cc o m) h = tt
  reducer-IsGiven flow (order_created_immediate o) h = tt
  reducer-IsGiven flow a (inr there) = there
  reducer-IsGiven flow a (inl none_made) = absurd (cc)

  run_from-IsGiven :
      (flow : Flow O M R) (actions : List (FlowAction O M R))
      → (any creates_order actions ≡ true) ⊎ IsGiven flow.order_state
      → IsGiven (run_flow flow actions).order_state
  unfolding run_flow
  run_from-IsGiven flow [] (inl none_made) = absurd (cc)
  run_from-IsGiven flow [] (inr there) = there
  run_from-IsGiven flow (a ∷ actions) (inr there) =
      run_from-IsGiven (checkout_flow_reducer flow a) actions
        (inr (reducer-IsGiven flow a (inr there)))
  run_from-IsGiven flow (a ∷ actions) (inl made) = elim (Bool-cases (creates_order a)) [
    | inl now ↦
        run_from-IsGiven (checkout_flow_reducer flow a) actions
          (inr (reducer-IsGiven flow a (inl now)))
    | inr later ↦
        run_from-IsGiven (checkout_flow_reducer flow a) actions
          (inl (ap (λ b. b || any creates_order actions) (sym later) ∙ made))
  ]

-- Whatever is dispatched to a fresh checkout page, in whatever order: while a payment is awaited the
-- order is there, in CC_PAYMENT also the data of the card modal, and in RETRY the order to pay again. Once
-- an order was created it is there in every later state, SUCCESS among them.
pub run_flow-Needs :
    {O M R : Type 0} (actions : List (FlowAction O M R))
    → Needs (run_flow initial_checkout_flow actions).state (run_flow initial_checkout_flow actions)
      × ((any creates_order actions ≡ false)
          ⊎ IsGiven (run_flow initial_checkout_flow actions).order_state)
run_flow-Needs actions = (
  run_from-Needs initial_checkout_flow actions tt,
  elim (Bool-cases (any creates_order actions)) [
    | inl made ↦ inr (run_from-IsGiven initial_checkout_flow actions (inl made))
    | inr free ↦ inl free
  ],
)
