-- ===== src/Orders/Stock/Laws.antt =====
-- No overselling: what the sales of a variant take is what its stock loses.
use mathlib.Core.Option
use generic_ecommerce_store.Common.{
  ◌∙◌, ap, refl, leb, ℕ, ◌+◌, ◌-◌, ◌*◌, ◌≤◌, ◌<◌, ◌≡◌, ◌≢◌, ◌⊎◌, Option, some, none, arith, String,
  List, [], ◌∷◌, if◌then◌else◌, Bool-cases, Option-cases, inl, inr,
}
use generic_ecommerce_store.Money.{thousandth, to_thousandths}
use generic_ecommerce_store.Shop.{Shop, Result, ok, err, insufficient_stock}
use generic_ecommerce_store.Orders.Stock.{
  StoreContext, is_base_context, store_or_zero, decrement_stock_guarded, lowered, enough,
}

-- The stock that an order at this store draws on: none if the store has no row for the variant.
abbrev pub stock_at : StoreContext → Shop → ℕ → Option ℕ
stock_at c s k =
    if is_base_context c
    then Option.map (λ v. v.stock) (s.variants k)
    else Option.map (λ o. o.stock) (s.overrides (store_or_zero c) k)

-- What an order of `m` thousandths did, by the stock that it met.
abbrev pub Sale :
    StoreContext → ℕ → ℕ → String → Shop → Result (Unit {0}) × Shop → Option ℕ → Type 0
Sale c k m name s p none = p ≡ (err (insufficient_stock name), s)
Sale c k m name s p (some n) =
    ((n < m) × (p ≡ (err (insufficient_stock name), s)))
    ⊎ ((m ≤ n) × (p.0 ≡ ok tt) × (stock_at c p.1 k ≡ some (n - m)))

enough-whole : (m n : ℕ) → enough (m * thousandth) n ≡ leb m n
enough-whole m n = ground arith

lowered-whole : (m n : ℕ) → m ≤ n → lowered n (m * thousandth) ≡ n - m
unfolding to_thousandths
lowered-whole m n h = omega arith

module _ (c : StoreContext) (k m : ℕ) (name : String) (s : Shop) where
  -- Ordering `m` thousandths of a variant throws and changes nothing if the store has no stock row
  -- or less than `m`, and otherwise lowers the stock by exactly `m`.
  pub decrement_stock_guarded-Sale :
      Sale c k m name s (decrement_stock_guarded c k (m * thousandth) name s) (stock_at c s k)
  unfolding decrement_stock_guarded
  decrement_stock_guarded-Sale = elim (Bool-cases (is_base_context c)) [
    | inl base ↦ elim (Option-cases (s.variants k)) [
      | inl missing ↦ rw (base, missing) refl
      | inr (v, found) ↦
          rw (base, found) (ground (arith, enough-whole m v.stock, lowered-whole m v.stock))
    ]
    | inr other ↦ elim (Option-cases (s.overrides (store_or_zero c) k)) [
      | inl missing ↦ rw (other, missing) refl
      | inr (o, found) ↦
          rw (other, found) (ground (arith, enough-whole m o.stock, lowered-whole m o.stock))
    ]
  ]

  -- It changes the stock of no other variant, at this store.
  decrement_stock_guarded_others :
      (j : ℕ)
      → j ≢ k
      → (quantity : ℕ)
      → stock_at c (decrement_stock_guarded c k quantity name s).1 j ≡ stock_at c s j
  unfolding decrement_stock_guarded
  decrement_stock_guarded_others j ne quantity = ground arith

abbrev pub sold : Result (Unit {0}) → ℕ → ℕ
sold (ok a) m = m
sold (err e) m = 0

-- Orders for one variant at one store, one after another in whatever order their transactions
-- commit: the thousandths that they sold, and the shop after them.
unfoldable pub run_sales : StoreContext → ℕ → String → List ℕ → Shop → ℕ × Shop
run_sales c k name [] s = (0, s)
run_sales c k name (m ∷ ms) s =
    let (r, s') = decrement_stock_guarded c k (m * thousandth) name s in
    let (total, t) = run_sales c k name ms s' in (sold r m + total, t)

Sale-conserves :
    (c : StoreContext) (k m n : ℕ) (name : String) (s : Shop) (p : Result (Unit {0}) × Shop)
    → stock_at c s k ≡ some n
    → Sale c k m name s p (some n)
    → (left : ℕ) × (stock_at c p.1 k ≡ some left) × (sold p.0 m + left ≡ n)
Sale-conserves c k m n name s (r, t) start (inl (short, e)) =
    (n, ap (λ (q : Result (Unit {0}) × Shop). stock_at c q.1 k) e ∙ start, ground arith)
Sale-conserves c k m n name s (r, t) start (inr (within, done, after)) =
    (n - m, after, rw done (omega arith))

-- However many orders of whole thousandths, one after the other, compete for a variant whose stock is
-- known, what they sold and what is left add up to the stock before: they never sell more than there was.
pub run_sales_conserves :
    (c : StoreContext) (k : ℕ) (name : String) (ms : List ℕ) (n : ℕ) (s : Shop)
    → stock_at c s k ≡ some n
    → (left : ℕ) × (stock_at c (run_sales c k name ms s).1 k ≡ some left)
      × ((run_sales c k name ms s).0 + left ≡ n)
unfolding run_sales
run_sales_conserves c k name [] n s start = (n, start, omega arith)
run_sales_conserves c k name (m ∷ ms) n s start =
    let p = decrement_stock_guarded c k (m * thousandth) name s in
    let sale : Sale c k m name s p (some n) =
      rw start at (decrement_stock_guarded-Sale c k m name s) in
    let (mid, at_mid, paid) = Sale-conserves c k m n name s p start sale in
    let (left, at_left, rest) = run_sales_conserves c k name ms mid p.1 at_mid in
    (left, at_left, omega arith)
