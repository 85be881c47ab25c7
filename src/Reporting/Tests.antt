-- ===== src/Reporting/Tests.antt =====
-- Five rows in pages of two.
use generic_ecommerce_store.Common.{ℕ, ◌≡◌, some, List, [], ◌∷◌, arith}
use generic_ecommerce_store.Reporting.Walk.{walk, walk_all}

abbrev rows : List ℕ
rows = 1 ∷ 2 ∷ 3 ∷ 4 ∷ 5 ∷ []

walk_all_example : walk 6 1 2 rows ≡ some rows
walk_all_example = walk_all 2 rows (omega arith)
