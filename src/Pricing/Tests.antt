-- ===== src/Pricing/Tests.antt =====
-- Prices of the sample variant.
use generic_ecommerce_store.Common.{zero, suc, ℕ, none, some, [], ◌∷◌, List, arith}
use generic_ecommerce_store.Pricing.{PriceBreak, Override, resolve_unit_price}
use generic_ecommerce_store.Pricing.UnitPrice.{IsAscending, IsBest, resolve_unit_price-IsBest}

abbrev breaks : List PriceBreak
breaks =
    record { min_quantity = 2000000000000; unit_price = 900 }
    ∷ record { min_quantity = 5000000000000; unit_price = 800 }
    ∷ []

breaks-IsAscending : IsAscending breaks
breaks-IsAscending zero zero a b lt at_i at_j = absurd (omega arith)
breaks-IsAscending zero (suc zero) a b lt at_i at_j = ground arith
breaks-IsAscending zero (suc (suc j)) a b lt at_i at_j = absurd (cc)
breaks-IsAscending (suc zero) zero a b lt at_i at_j = absurd (omega arith)
breaks-IsAscending (suc zero) (suc zero) a b lt at_i at_j = absurd (omega arith)
breaks-IsAscending (suc zero) (suc (suc j)) a b lt at_i at_j = absurd (cc)
breaks-IsAscending (suc (suc i)) j a b lt at_i at_j = absurd (cc)

resolve_unit_price-IsBest_example :
    IsBest 1010 breaks 3000000000000 (resolve_unit_price 1010 breaks 3000000000000)
resolve_unit_price-IsBest_example =
    resolve_unit_price-IsBest 1010 breaks 3000000000000 breaks-IsAscending

abbrev by_the_unit : List ℕ
by_the_unit = 1000000000000 ∷ []

abbrev flat : Override
flat = record { stock = 10; price_override = some 990; active_override = none }
