-- ===== src/Money.antt =====
-- Numbers of the order code. A price or a balance is a number of cents, as its Decimal(12, 2)
-- column holds it; a quantity is a number of 10^-12, so that the tolerance 1e-9 of `pricing.ts` is
-- `epsilon`, and a stock is a number of thousandths, as its Decimal(12, 3) column holds it.
-- A product of a price and a quantity is an amount, in 10^-12 cents, which is exact. A column keeps
-- an amount rounded to the nearest cent, a half away from zero. Numbers are exact here, but for the tax:
-- there the doubles of the source are modelled (Money/Doubles), since `toFixed(2)` of a product that is
-- half a cent in exact numbers goes by the double. Elsewhere the rounding of a double between two
-- operations is not modelled.
pub mod Doubles
pub mod Laws
use generic_ecommerce_store.Common.{ℕ, ◌+◌, ◌*◌, ◌/◌}
use generic_ecommerce_store.Common.Int.{ℤ, pos, negsuc, ◌-ℤ◌}

-- One cent as an amount, and one as a quantity.
abbrev pub cent : ℕ
cent = 1_000_000_000_000

-- `const EPSILON = 1e-9`
abbrev pub epsilon : ℕ
epsilon = 1000

-- A thousandth as a quantity: the unit of a stock column.
abbrev pub thousandth : ℕ
thousandth = 1_000_000_000

-- An amount as a Decimal(12, 2) column keeps it.
unfoldable pub to_cents : ℕ → ℕ
to_cents a = (a + 500_000_000_000) / cent

-- A signed amount as such a column keeps it.
unfoldable pub to_cents_ℤ : ℤ → ℤ
unfolding to_cents ◌-ℤ◌
to_cents_ℤ (pos a) = pos (to_cents a)
to_cents_ℤ (negsuc a) = pos 0 -ℤ pos (to_cents (a + 1))

-- A number of cents as an amount.
unfoldable pub to_amount : ℤ → ℤ
to_amount (pos c) = pos (c * cent)
to_amount (negsuc c) = negsuc (c * cent + 999_999_999_999)

-- A quantity as a Decimal(12, 3) column keeps it.
unfoldable pub to_thousandths : ℕ → ℕ
to_thousandths q = (q + 500_000_000) / thousandth
