-- ===== src/Money/Laws.antt =====
-- Rounding to a column: whole numbers are kept, the error is at most half a unit.
use generic_ecommerce_store.Common.{ℕ, ◌+◌, ◌*◌, ◌≤◌, ◌<◌, ◌≡◌, arith}
use generic_ecommerce_store.Common.Int.{ℤ, pos, ◌+ℤ◌, ◌-ℤ◌, ◌≤ℤ◌}
use generic_ecommerce_store.Money.{
  to_amount, to_cents_ℤ, cent, to_cents, to_thousandths, thousandth,
}

pub to_cents-whole : (c : ℕ) → to_cents (c * cent) ≡ c
unfolding to_cents
to_cents-whole c = omega arith

pub to_cents-add_whole : (a c : ℕ) → to_cents (a + c * cent) ≡ to_cents a + c
unfolding to_cents
to_cents-add_whole a c = omega arith

pub to_cents_bounds :
    (a : ℕ) → (to_cents a * cent ≤ a + 500_000_000_000) × (a < to_cents a * cent + 500_000_000_001)
unfolding to_cents
to_cents_bounds a = omega arith

pub to_cents_mono : (a b : ℕ) → a ≤ b → to_cents a ≤ to_cents b
unfolding to_cents
to_cents_mono a b h = omega arith

pub to_thousandths-whole : (m : ℕ) → to_thousandths (m * thousandth) ≡ m
unfolding to_thousandths
to_thousandths-whole m = omega arith

-- Signed amounts.
pub to_amount-add : (a b : ℤ) → to_amount a +ℤ to_amount b ≡ to_amount (a +ℤ b)
unfolding to_amount ◌+ℤ◌
to_amount-add a b = ground arith

pub to_amount-neg : (a : ℤ) → pos 0 -ℤ to_amount a ≡ to_amount (pos 0 -ℤ a)
unfolding to_amount ◌-ℤ◌
to_amount-neg a = ground arith

pub to_cents_ℤ-to_amount : (a : ℤ) → to_cents_ℤ (to_amount a) ≡ a
unfolding to_cents_ℤ to_amount to_cents ◌-ℤ◌
to_cents_ℤ-to_amount a = ground arith

pub to_cents_ℤ_nonneg : (a : ℤ) → pos 0 ≤ℤ a → pos 0 ≤ℤ to_cents_ℤ a
unfolding to_cents_ℤ to_cents ◌-ℤ◌
to_cents_ℤ_nonneg a h = ground arith
