-- ===== src/Money/Doubles.antt =====
-- The binary doubles that JavaScript computes with, as far as createOrder of
-- backend/src/services/order.crud.service.ts needs them for the tax: nonnegative ones below 2^53, with
-- products and sums rounded to 53 bits, to even on a tie. No value is so small that it loses bits.
use generic_ecommerce_store.Common.{
  ℕ, zero, suc, ◌+◌, ◌*◌, ◌/◌, ◌%◌, ◌^◌, true, false, leb, ltb, if◌then◌else◌,
}

-- The number `mantissa / 2 ^ exponent`.
pub record Double : Type 0 where
  pub mantissa : ℕ
  pub exponent : ℕ

-- By how many bits n / d is shifted to have 53 of them; 128 rounds reach down to 2 ^ -76, while an amount
-- of this code that is not 0 is at least 10 ^ -14 dollars.
abbrev bits_missing : ℕ → ℕ → ℕ → ℕ
bits_missing zero n d = 0
bits_missing (suc fuel) n d = elim (leb (2 ^ 52 * d) n) [
  | true ↦ 0
  | false ↦ suc (bits_missing fuel (n * 2) d)
]

-- The natural number nearest to n / d, the even one on a tie.
abbrev nearest : ℕ → ℕ → ℕ
nearest n d =
    let q = n / d in
    let r = n % d in if ltb (2 * r) d then q else if ltb d (2 * r) then q + 1 else q + q % 2

-- The double nearest to n / d.
unfoldable pub to_double : ℕ → ℕ → Double
to_double n d =
    let e = bits_missing 128 n d in record { mantissa = nearest (n * 2 ^ e) d; exponent = e }

unfoldable pub add : Double → Double → Double
unfolding to_double
add a b =
    to_double (a.mantissa * 2 ^ b.exponent + b.mantissa * 2 ^ a.exponent)
      (2 ^ (a.exponent + b.exponent))

unfoldable pub mul : Double → Double → Double
unfolding to_double
mul a b = to_double (a.mantissa * b.mantissa) (2 ^ (a.exponent + b.exponent))

-- `toFixed(2)` in hundredths: the one nearest to the exact value of the double, the larger on a tie.
unfoldable pub to_fixed : Double → ℕ
to_fixed x = (200 * x.mantissa + 2 ^ x.exponent) / 2 ^ (x.exponent + 1)
