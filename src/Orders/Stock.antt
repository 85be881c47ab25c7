-- ===== src/Orders/Stock.antt =====
-- `decrementStockGuarded` of order.crud.service.ts: a stock is lowered only if it is large enough.
pub mod Laws
mod Tests
use generic_ecommerce_store.Common.{
  ℕ, zero, suc, ◌*◌, ◌-◌, Bool, Option, none, some, String, leb, ◌==◌, ◌||◌, true, false,
  if◌then◌else◌, List, [], ◌∷◌,
}
use generic_ecommerce_store.Money.{thousandth, to_thousandths}
use generic_ecommerce_store.Pricing.{Variant, Override}
use generic_ecommerce_store.Shop.{
  Shop, Action, insufficient_stock, ◌>>=◌, ◌>>◌, gets, throw_if, throw, pure, modify, update,
}

-- The store of a request: `ctx.storeId` and `ctx.isDefaultStore`.
pub record StoreContext : Type 0 where
  pub store_id : Option ℕ
  pub is_default_store : Bool

-- `storeId`, with 0 for null, which every use treats alike.
abbrev pub store_or_zero : StoreContext → ℕ
store_or_zero c = elim c.store_id [ none ↦ 0 | some k ↦ k ]

-- `isBaseContext`: no store of its own, so the variants' own stock and price are used.
abbrev pub is_base_context : StoreContext → Bool
is_base_context c = c.is_default_store || store_or_zero c == 0

-- `{ decrement: quantity }` on a stock column.
abbrev pub lowered : ℕ → ℕ → ℕ
lowered stock quantity = to_thousandths (stock * thousandth - quantity)

-- The rows that `updateMany` finds: those with `stock >= quantity`.
abbrev pub enough : ℕ → ℕ → Bool
enough quantity stock = leb quantity (stock * thousandth)

unfoldable pub lower_variant : ℕ → ℕ → String → Option Variant → Action (Unit {0})
lower_variant variant_id quantity name none = throw (insufficient_stock name)
lower_variant variant_id quantity name (some v) =
    if enough quantity v.stock
    then modify (λ s. record s {
      variants =
          update s.variants variant_id (some (record v { stock = lowered v.stock quantity }));
    })
    else throw (insufficient_stock name)

unfoldable pub lower_override : ℕ → ℕ → ℕ → String → Option Override → Action (Unit {0})
lower_override store variant_id quantity name none = throw (insufficient_stock name)
lower_override store variant_id quantity name (some o) =
    if enough quantity o.stock
    then modify (λ s. record s {
      overrides = update s.overrides store (
          update (s.overrides store) variant_id
            (some (record o { stock = lowered o.stock quantity })));
    })
    else throw (insufficient_stock name)

unfoldable pub decrement_stock_guarded : StoreContext → ℕ → ℕ → String → Action (Unit {0})
unfolding lower_variant lower_override
decrement_stock_guarded c variant_id quantity name =
    if is_base_context c
    then (do row ← gets (λ s. s.variants variant_id); lower_variant variant_id quantity name row)
    else (do
      row ← gets (λ s. s.overrides (store_or_zero c) variant_id)
      lower_override (store_or_zero c) variant_id quantity name row)
