-- ===== src/Sessions/Tests.antt =====
-- A user who logs in, refreshes, and whose old token is presented again.
use generic_ecommerce_store.Common.{◌≡◌, some, List, [], ◌∷◌, refl, true, arith}
use text.Mathlib.Text.{◌==◌ as str_eq}
use generic_ecommerce_store.Sessions.{
  Account, Sessions, Crypto, RefreshToken, unauthorized, refresh, new_token,
}
use generic_ecommerce_store.Sessions.Families.{live, AtMostOne}
use generic_ecommerce_store.Sessions.Rotation.{
  Call, logged_in, refreshed, run, run-AtMostOne, refresh-theft,
}

abbrev crypto : Crypto
crypto = record {
  hash_refresh_token = λ raw. raw;
  compare_password = λ given stored. str_eq given stored;
  case_map = record { lower_other = λ c. c ∷ []; upper_other = λ c. c ∷ [] };
}

abbrev ann : Account
ann = record { id = 4; username = "ann"; password = "secret"; approved = true }

abbrev nobody_in : Sessions
nobody_in = record { accounts = ann ∷ []; tokens = []; next_id = 1 }

abbrev calls : List Call
calls =
    logged_in " Ann " "secret" "r1" "f1" 10 ∷ refreshed "r1" "r2" 20 ∷ refreshed "r1" "r3" 30 ∷ []

run-AtMostOne_example : AtMostOne (run crypto calls nobody_in)
unfolding AtMostOne
run-AtMostOne_example = run-AtMostOne crypto calls nobody_in (refl, tt) (λ f. omega arith)

abbrev stolen : RefreshToken
stolen = record (new_token crypto 1 4 "f1" "r1" 10) { revoked_at = some 20 }

abbrev rotated : Sessions
rotated = record {
  accounts = ann ∷ [];
  tokens = stolen ∷ new_token crypto 2 4 "f1" "r2" 20 ∷ [];
  next_id = 3;
}

refresh-theft_example :
    ((refresh crypto "r1" "r3" 90000 rotated).0 ≡ unauthorized)
    × (live "f1" (refresh crypto "r1" "r3" 90000 rotated).1.tokens ≡ 0)
refresh-theft_example =
    refresh-theft crypto "r1" "r3" 90000 20 rotated stolen refl refl refl (omega arith)
