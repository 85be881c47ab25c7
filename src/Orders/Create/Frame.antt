-- ===== src/Orders/Create/Frame.antt =====
-- Which part of the shop each step of `createOrder` may change.
use generic_ecommerce_store.Common.{
  subst, String, ℕ, ◌≡◌, List, [], ◌∷◌, arith, some, none, refl, ◌∙◌, Option, false,
}
use generic_ecommerce_store.Common.Int.{ℤ}
use generic_ecommerce_store.Shop.{
  bind-ind, ◌>>=◌, err, Shop, PaymentMethod, in_store, DeliveryMethod, delivery, pickup, curbside,
  ok,
}
use generic_ecommerce_store.Payments
use generic_ecommerce_store.Payments.{OrderContext}
use generic_ecommerce_store.Fulfillment
use generic_ecommerce_store.Fulfillment.{Environment, FulfillmentContext}
use generic_ecommerce_store.Orders.Stock.{StoreContext}
use generic_ecommerce_store.Orders.Lines.{Line, PricedLine, active_variant}
use generic_ecommerce_store.Orders.Create.{
  Given, known, missing, unknown, get_payment_method, get_delivery_method, Action, Result, add_item,
  Variant, save_cashapp, create_items, decrement_all, decrement_line,
}

-- The balance of a user, none if there is no such user.
abbrev pub balance_of : Shop → ℕ → Option ℤ
balance_of s k = elim (s.users k) [ none ↦ none | some u ↦ some u.store_credit_balance ]

-- Only users and the strategy's eligibility may differ, and no balance does.
pub record Untouched (s t : Shop) : Type 0 where
  pub rest : t ≡ record s { users = t.users; last_eligibility = t.last_eligibility }
  pub balances : (k : ℕ) → balance_of t k ≡ balance_of s k

pub Untouched-refl : (s : Shop) → Untouched s s
Untouched-refl s = record { rest = refl; balances = λ k. refl }

pub Untouched-trans : {s t u : Shop} → Untouched s t → Untouched t u → Untouched s u
Untouched-trans f g = record {
  rest = ground (arith, f.rest, g.rest);
  balances = λ k. g.balances k ∙ f.balances k;
}

pub Payments_validate-frame :
    (m : PaymentMethod) (ctx : OrderContext) (s : Shop) → (Payments.validate m ctx s).1 ≡ s
unfolding Payments.validate
Payments_validate-frame in_store ctx s = refl
Payments_validate-frame _ ctx s = refl

pub Fulfillment_validate-Untouched :
    (env : Environment) (m : DeliveryMethod) (ctx : FulfillmentContext) (s : Shop)
    → Untouched s (Fulfillment.validate env m ctx s).1
unfolding Fulfillment.validate
Fulfillment_validate-Untouched env delivery ctx s = record {
  rest = ground arith;
  balances = λ k. ground arith;
}
Fulfillment_validate-Untouched env pickup ctx s = Untouched-refl s
Fulfillment_validate-Untouched env curbside ctx s = record {
  rest = ground arith;
  balances = λ k. ground arith;
}

pub save_cashapp-Untouched :
    (user_id : ℕ) (name : Option String) (s : Shop) → Untouched s (save_cashapp user_id name s).1
unfolding save_cashapp
save_cashapp-Untouched user_id none s = Untouched-refl s
save_cashapp-Untouched user_id (some name) s = record {
  rest = ground arith;
  balances = λ k. ground arith;
}

pub create_items-frame :
    (order_id : ℕ) (ps : List PricedLine) (s : Shop)
    → ((create_items order_id ps s).0 ≡ ok tt)
      × ((create_items order_id ps s).1 ≡ record s {
        items = (create_items order_id ps s).1.items;
        next_item = (create_items order_id ps s).1.next_item;
      })
unfolding create_items
create_items-frame order_id [] s = (refl, refl)
create_items-frame order_id (p ∷ ps) s =
    ground (arith, create_items-frame order_id ps (add_item order_id false p s))

decrement_line-frame :
    (c : StoreContext) (line : Line) (v : Option Variant) (s : Shop)
    → (decrement_line c line v s).1 ≡ record s {
      variants = (decrement_line c line v s).1.variants;
      overrides = (decrement_line c line v s).1.overrides;
    }
unfolding decrement_line
decrement_line-frame c line none s = refl
decrement_line-frame c line (some v) s = ground arith

pub decrement_all-frame :
    (c : StoreContext) (before : Shop) (lines : List Line) (s : Shop)
    → (decrement_all c before lines s).1 ≡ record s {
      variants = (decrement_all c before lines s).1.variants;
      overrides = (decrement_all c before lines s).1.overrides;
    }
unfolding decrement_all
decrement_all-frame c before [] s = refl
decrement_all-frame c before (line ∷ lines) s =
    let v = active_variant before line.variant_id in
    ground (
      arith,
      decrement_line-frame c line v s,
      decrement_all-frame c before lines (decrement_line c line v s).1,
    )

pub Fulfillment_apply-frame :
    (m : DeliveryMethod) (user_id : ℕ) (s : Shop)
    → ((Fulfillment.apply_in_transaction m user_id s).1
        ≡ record s { users = (Fulfillment.apply_in_transaction m user_id s).1.users })
      × ((k : ℕ) → balance_of (Fulfillment.apply_in_transaction m user_id s).1 k ≡ balance_of s k)
unfolding Fulfillment.apply_in_transaction
Fulfillment_apply-frame delivery user_id s = (ground arith, λ k. ground arith)
Fulfillment_apply-frame _ user_id s = (refl, λ k. refl)

-- A result that is no error, or leaves the shop untouched.
abbrev pub Safe : {A : Type 0} → Shop → Result A × Shop → Type 0
Safe s (ok a, t) = Unit
Safe s (err e, t) = Untouched s t

pub Safe-bind :
    {A B : Type 0} (m : Action A) (f : A → Action B) (start s : Shop)
    → Untouched start (m s).1
    → ((a : A) (t : Shop) → Untouched start t → Safe start (f a t))
    → Safe start ((m >>= f) s)
Safe-bind m f start s kept next =
    bind-ind (Safe start) m f s (λ a t e. next a t (subst (λ p. Untouched start p.1) e kept))
      (λ x t e. subst (λ p. Untouched start p.1) e kept)

pub get_payment_method-frame :
    (given : Given PaymentMethod) (s : Shop) → (get_payment_method given s).1 ≡ s
get_payment_method-frame (known m) s = refl
get_payment_method-frame missing s = refl
get_payment_method-frame unknown s = refl

pub get_delivery_method-frame :
    (given : Given DeliveryMethod) (s : Shop) → (get_delivery_method given s).1 ≡ s
get_delivery_method-frame (known m) s = refl
get_delivery_method-frame missing s = refl
get_delivery_method-frame unknown s = refl
