-- ===== src/Orders/Create/Failure.antt =====
-- A checkout that fails.
use generic_ecommerce_store.Common.{
  ◌*◌, ◌+◌, not, sym, subst, inr, inl, ℕ, ◌≡◌, List, some, none, Option, Bool-cases,
}
use generic_ecommerce_store.Shop.{
  no_items, transaction-eq-err, bind-ind, ◌>>◌, ◌>>=◌, Shop, PaymentMethod, DeliveryMethod, ok, err,
  AppError, Action, Result, transaction, throw_if, pure,
}
use generic_ecommerce_store.Payments
use generic_ecommerce_store.Fulfillment
use generic_ecommerce_store.Fulfillment.{Environment}
use generic_ecommerce_store.Text.{trimmed}
use generic_ecommerce_store.Orders.Stock.{StoreContext}
use generic_ecommerce_store.Orders.Lines.{price_lines, PricedLine, subtotal_from}
use generic_ecommerce_store.Orders.Lines.Tax.{tax_of}
use generic_ecommerce_store.Orders.Create.{
  is_nil, cent, lift, variants_not_found, missing_tenant_context, or_throw, all_found, settle,
  conclude, take_order, CreateOrderData, create_order, check_out, place_order, announce,
  save_cashapp, get_payment_method, get_delivery_method, fulfillment_context, payment_context,
}
use generic_ecommerce_store.Orders.Create.Frame.{
  get_payment_method-frame, get_delivery_method-frame, Untouched, Untouched-refl, Untouched-trans,
  Safe, Safe-bind, Payments_validate-frame, Fulfillment_validate-Untouched, save_cashapp-Untouched,
}

announce-Safe :
    (m : PaymentMethod) (order_id user_id : ℕ) (start s : Shop)
    → Safe start ((announce m order_id user_id >> pure order_id) s)
announce-Safe m order_id user_id start s = elim (Bool-cases (Payments.notifies_on_create m)) [
  | inl told ↦ rw told tt
  | inr silent ↦ rw silent tt
]

transaction-Safe :
    {A : Type 0} (m : Action A) (f : A → Action ℕ) (start s : Shop)
    → Untouched start s
    → ((a : A) (t : Shop) → Safe start (f a t))
    → Safe start ((transaction m >>= f) s)
transaction-Safe m f start s kept next =
    bind-ind (Safe start) (transaction m) f s (λ a t e. next a t)
      (λ x t e. subst (Untouched start) (sym (transaction-eq-err m s t x e)) kept)

module _ (request : CreateOrderData) (d : DeliveryMethod) (m : PaymentMethod) (start : Shop) where
  conclude-Safe :
      (c : StoreContext) (before : Shop) (priced : List PricedLine) (subtotal tax : ℕ) (s : Shop)
      → Untouched start s
      → Safe start (conclude c request d m before priced subtotal tax s)
  unfolding conclude
  conclude-Safe c before priced subtotal tax s kept =
      transaction-Safe (place_order c request d m before priced subtotal tax)
        (λ order_id. announce m order_id request.user_id >> pure order_id) start s kept
        (λ order_id t. announce-Safe m order_id request.user_id start t)

  settle-Safe :
      (env : Environment) (c : StoreContext) (before : Shop) (priced : List PricedLine) (s : Shop)
      → Untouched start s
      → Safe start (settle env c request d m before priced s)
  unfolding settle
  settle-Safe env c before priced s kept =
      let subtotal = subtotal_from 0 priced in
      let tax = tax_of priced in
      let total = subtotal + tax * cent in
      Safe-bind (Fulfillment.validate env d (fulfillment_context request subtotal))
        (λ _.
          Payments.validate m (payment_context request d total)
          >> conclude c request d m before priced subtotal tax)
        start s
        (Untouched-trans kept
          (Fulfillment_validate-Untouched env d (fulfillment_context request subtotal) s))
        λ a t kept_t.
          Safe-bind (Payments.validate m (payment_context request d total))
            (λ _. conclude c request d m before priced subtotal tax) start t
            (rw (Payments_validate-frame m (payment_context request d total) t) kept_t)
            λ b u kept_u. conclude-Safe c before priced subtotal tax u kept_u

  check_out-Safe :
      (env : Environment) (c : StoreContext) (s : Shop)
      → Untouched start s
      → Safe start (check_out env c request d m s)
  unfolding check_out
  check_out-Safe env c s kept =
      Safe-bind (throw_if (not (all_found s request.items)) variants_not_found)
        (λ _. lift (price_lines c s request.items) >>= settle env c request d m s) start s kept
        λ a t kept_t.
          Safe-bind (lift (price_lines c s request.items)) (settle env c request d m s) start t
            kept_t λ priced u kept_u. settle-Safe env c s priced u kept_u

  take_order-Safe :
      (env : Environment) (context : Option StoreContext) (s : Shop)
      → Untouched start s
      → Safe start (take_order env context request d m s)
  unfolding take_order
  take_order-Safe env context s kept =
      let ctx = payment_context request d 0 in
      let name = trimmed request.cash_app_username in
      Safe-bind (Payments.validate m ctx)
        (λ _.
          save_cashapp request.user_id name
          >> (or_throw context missing_tenant_context >>= λ c. check_out env c request d m))
        start s (rw (Payments_validate-frame m ctx s) kept)
        λ a t kept_t.
          Safe-bind (save_cashapp request.user_id name)
            (λ _. or_throw context missing_tenant_context >>= λ c. check_out env c request d m)
            start t (Untouched-trans kept_t (save_cashapp-Untouched request.user_id name t))
            λ b u kept_u. with_context context u kept_u
    where
      with_context :
          (context : Option StoreContext) (u : Shop)
          → Untouched start u
          → Safe start
              ((or_throw context missing_tenant_context >>= λ c. check_out env c request d m) u)
      with_context none u kept_u = kept_u
      with_context (some c) u kept_u = check_out-Safe env c u kept_u

create_order-Safe :
    (env : Environment) (context : Option StoreContext) (request : CreateOrderData) (s : Shop)
    → Safe s (create_order env context request s)
unfolding create_order
create_order-Safe env context request s =
    Safe-bind (get_payment_method request.payment_method)
      (λ m. get_delivery_method request.delivery_method >>= λ d.
        throw_if (is_nil request.items) no_items >> take_order env context request d m)
      s s (rw (get_payment_method-frame request.payment_method s) (Untouched-refl s))
      λ m t kept_t.
        Safe-bind (get_delivery_method request.delivery_method)
          (λ d. throw_if (is_nil request.items) no_items >> take_order env context request d m) s t
          (rw (get_delivery_method-frame request.delivery_method t) kept_t)
          λ d u kept_u.
            Safe-bind (throw_if (is_nil request.items) no_items)
              (λ _. take_order env context request d m) s u kept_u
              λ a v kept_v. take_order-Safe request d m s env context v kept_v

-- A `createOrder` that throws, for whatever reason, has placed nothing: orders, items, payments,
-- stocks, credit entries, the outbox and the event bus are as before, and no credit balance has
-- changed. Only the users' other columns and the delivery strategy's memory may differ.
pub create_order-Untouched :
    (env : Environment) (context : Option StoreContext) (request : CreateOrderData) (s : Shop)
    (e : AppError)
    → (create_order env context request s).0 ≡ err e
    → Untouched s (create_order env context request s).1
create_order-Untouched env context request s e failed =
    from (create_order env context request s) (create_order-Safe env context request s) failed
  where
    from : (p : Result ℕ × Shop) → Safe s p → p.0 ≡ err e → Untouched s p.1
    from (ok a, t) safe h = absurd (cc)
    from (err x, t) safe h = safe
