-- ===== src/Orders/Lines/Tax.antt =====
-- The tax of createOrder in backend/src/services/order.crud.service.ts, on doubles as the source
-- computes it: a half cent that the exact product has need not be there.
use generic_ecommerce_store.Common.{ℕ, List, [], ◌∷◌}
use generic_ecommerce_store.Money.{cent}
use generic_ecommerce_store.Money.Doubles.{Double, to_double, add, mul, to_fixed}
use generic_ecommerce_store.Orders.Lines.{PricedLine}

-- `unitPrice.toNumber() * item.quantity`, in dollars; `cent` is the quantity 1.
unfoldable pub line_double : PricedLine → Double
unfolding to_double mul
line_double p = mul (to_double p.unit_price 100) (to_double p.quantity cent)

-- `subtotal +=`, line by line.
unfoldable pub subtotal_double : Double → List PricedLine → Double
unfolding add line_double
subtotal_double sum [] = sum
subtotal_double sum (p ∷ ps) = subtotal_double (add sum (line_double p)) ps

-- `DEFAULT_TAX_RATE`
abbrev tax_rate : Double
unfolding to_double
tax_rate = to_double 825 10000

-- `Number((subtotal * DEFAULT_TAX_RATE).toFixed(2))`, in cents.
unfoldable pub tax_of : List PricedLine → ℕ
unfolding subtotal_double to_double mul to_fixed
tax_of priced = to_fixed (mul (subtotal_double (to_double 0 1) priced) tax_rate)
