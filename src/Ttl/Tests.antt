-- ===== src/Ttl/Tests.antt =====
-- A value that is still alive after a read of another key.
use generic_ecommerce_store.Common.{ℕ, ◌≡◌, List, [], ◌∷◌, arith}
use generic_ecommerce_store.Ttl.{get}
use generic_ecommerce_store.Ttl.Refinement.{Call, got, put, run, lookup, get-lookup}

abbrev calls : List (ℕ × Call ℕ)
calls = (240, got "b") ∷ (200, put "a" 1) ∷ (10, put "b" 2) ∷ []

get-lookup_example : (get 250 "a" (run 100 calls)).0 ≡ lookup 100 250 "a" calls
get-lookup_example = get-lookup 100 250 "a" calls (omega arith, (omega arith, (omega arith, tt)))
