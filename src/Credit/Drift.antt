-- ===== src/Credit/Drift.antt =====
-- An order's total can hold half a cent, and then the balance and the ledger part.
use generic_ecommerce_store.Common.{false, ℕ, ◌+◌, ◌*◌, ◌<◌, ◌≡◌, some, arith}
use generic_ecommerce_store.Common.Int.{ltb_ℤ, ℤ, pos, ◌+ℤ◌, ◌-ℤ◌, int_laws}
use generic_ecommerce_store.Money.{cent, to_amount, to_cents_ℤ}
use generic_ecommerce_store.Shop.{Shop, User, Order, ok}
use generic_ecommerce_store.Credit.{use_credit, ledger_sum}
use generic_ecommerce_store.Credit.Ledger.{IsReconciled}

-- An amount of `n` cents and a half.
abbrev pub half_cents : ℕ → ℤ
half_cents n = pos (n * cent + 500_000_000_000)

half_enough :
    (n b : ℕ) → n < b → ltb_ℤ (to_amount (pos b) +ℤ (pos 0 -ℤ half_cents n)) (pos 0) ≡ false
unfolding to_amount ◌+ℤ◌ ◌-ℤ◌
half_enough n b lt = ground arith

half_balance :
    (n b : ℕ) → n < b → to_cents_ℤ (to_amount (pos b) +ℤ (pos 0 -ℤ half_cents n)) ≡ pos b -ℤ pos n
unfolding to_cents_ℤ to_amount ◌+ℤ◌ ◌-ℤ◌
half_balance n b lt = ground arith

half_entry : (n : ℕ) → to_cents_ℤ (pos 0 -ℤ half_cents n) ≡ pos 0 -ℤ pos (n + 1)
unfolding to_cents_ℤ ◌-ℤ◌
half_entry n = ground arith

drift_sum :
    (n b : ℕ) (sum : ℤ) → pos b ≡ sum → pos b -ℤ pos n ≡ pos 0 -ℤ pos (n + 1) +ℤ sum +ℤ pos 1
drift_sum n b sum h = rw (← h) (omega int_laws)

-- Using credit for `n` cents and a half takes `n` cents off the balance and enters `n + 1` in the
-- ledger: from a reconciled shop, the user's balance is one cent above the sum of the ledger.
pub use_credit_drifts :
    (user_id n b order_id : ℕ) (user : User) (order : Order) (s : Shop)
    → IsReconciled s
    → s.users user_id ≡ some user
    → s.orders order_id ≡ some order
    → user.store_credit_balance ≡ pos b
    → n < b
    → let (r, s') = use_credit user_id (half_cents n) order_id s in
      (r ≡ ok tt)
      × (s'.users user_id ≡ some (record user { store_credit_balance = pos b -ℤ pos n }))
      × (pos b -ℤ pos n ≡ ledger_sum user_id s'.credit_transactions +ℤ pos 1)
unfolding use_credit ledger_sum
use_credit_drifts user_id n b order_id user order s reconciled found placed balance lt = ground (
  arith,
  half_enough n b lt,
  half_balance n b lt,
  half_entry n,
  reconciled user_id user found,
  drift_sum n b (ledger_sum user_id s.credit_transactions),
)
