-- ===== src/Orders/Lines/Laws.antt =====
-- The subtotal of a checkout, and what a priced line has passed.
use generic_ecommerce_store.Common.{ℕ, ◌+◌, ◌*◌, ◌≡◌, List, [], ◌∷◌, arith}
use generic_ecommerce_store.Orders.Lines.{PricedLine, subtotal_from}

-- The sum of price times quantity over the lines.
abbrev pub line_sum : List PricedLine → ℕ
line_sum [] = 0
line_sum (p ∷ ps) = p.unit_price * p.quantity + line_sum ps

subtotal_from-add : (sum : ℕ) (ps : List PricedLine) → subtotal_from sum ps ≡ sum + line_sum ps
unfolding subtotal_from
subtotal_from-add sum [] = omega arith
subtotal_from-add sum (p ∷ ps) =
    omega (arith, subtotal_from-add (sum + p.unit_price * p.quantity) ps)

pub subtotal_from-zero : (ps : List PricedLine) → subtotal_from 0 ps ≡ line_sum ps
subtotal_from-zero ps = omega (arith, subtotal_from-add 0 ps)
