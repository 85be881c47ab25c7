-- ===== src/Checkout.antt =====
-- web/src/features/cart/checkout/checkoutMachine.js: the reducer behind the checkout page. What an
-- order, a card modal and a retry hold is never looked at, so their types are parameters.
pub mod Shown
mod Tests
use generic_ecommerce_store.Common.{Option, none, some, List, [], ◌∷◌}

pub data CheckoutFlowState : Type 0 where
  editing submitting awaiting_payment cc_payment success retry cancelled : CheckoutFlowState

pub record Flow (O M R : Type 0) : Type 0 where
  pub state : CheckoutFlowState
  pub order_state : Option O
  pub cc_modal : Option M
  pub retry_order : Option R

-- The actions by their `type`; `other` is any that the reducer does not know.
pub data FlowAction (O M R : Type 0) : Type 0 where
  submit : FlowAction O M R
  order_created_external : O → FlowAction O M R
  order_created_cc : O → M → FlowAction O M R
  order_created_immediate : O → FlowAction O M R
  payment_confirmed : FlowAction O M R
  payment_failed : R → FlowAction O M R
  external_payment_confirmed : FlowAction O M R
  cancel : FlowAction O M R
  submit_error : FlowAction O M R
  other : FlowAction O M R

module _ {O M R : Type 0} where
  abbrev pub initial_checkout_flow : Flow O M R
  initial_checkout_flow = record {
    state = editing;
    order_state = none;
    cc_modal = none;
    retry_order = none;
  }

  unfoldable pub checkout_flow_reducer : Flow O M R → FlowAction O M R → Flow O M R
  checkout_flow_reducer flow submit = record flow { state = submitting }
  checkout_flow_reducer flow (order_created_external o) = record flow {
    state = awaiting_payment;
    order_state = some o;
  }
  checkout_flow_reducer flow (order_created_cc o m) = record flow {
    state = cc_payment;
    order_state = some o;
    cc_modal = some m;
  }
  checkout_flow_reducer flow (order_created_immediate o) = record flow {
    state = success;
    order_state = some o;
  }
  checkout_flow_reducer flow payment_confirmed = record flow { state = success; cc_modal = none }
  checkout_flow_reducer flow (payment_failed r) = record flow {
    state = retry;
    cc_modal = none;
    retry_order = some r;
  }
  checkout_flow_reducer flow external_payment_confirmed = record flow { state = success }
  checkout_flow_reducer flow cancel = record flow { state = cancelled }
  checkout_flow_reducer flow submit_error = record flow { state = editing }
  checkout_flow_reducer flow other = flow

  -- The flow after a sequence of dispatches.
  unfoldable pub run_flow : Flow O M R → List (FlowAction O M R) → Flow O M R
  unfolding checkout_flow_reducer
  run_flow flow [] = flow
  run_flow flow (a ∷ actions) = run_flow (checkout_flow_reducer flow a) actions
