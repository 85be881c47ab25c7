-- ===== src/Credit.antt =====
-- backend/src/services/store-credit.service.ts: the store credit of a user, and its ledger.
mod Moves
pub mod Ledger
pub mod Drift
mod Tests
use generic_ecommerce_store.Common.{
  ℕ, Bool, Option, none, some, List, [], ◌∷◌, String, true, false, ◌==◌, if◌then◌else◌,
}
use generic_ecommerce_store.Common.Int.{ℤ, pos, ◌+ℤ◌, ◌-ℤ◌, ltb_ℤ, leb_ℤ, eq_ℤ}
use generic_ecommerce_store.Money.{to_amount, to_cents_ℤ}
use generic_ecommerce_store.Shop.{
  Shop, User, CreditKind, added, used, refunded, removed, CreditTransaction, Action, AppError,
  user_not_found, insufficient_credit, bad_amount, foreign_key, ◌>>=◌, ◌>>◌, gets, or_throw,
  throw_if, modify, transaction, update,
}

-- `StoreCreditChangeFields`
pub record ChangeFields : Type 0 where
  pub kind : CreditKind
  pub note : Option String
  pub order_id : Option ℕ
  pub created_by : Option ℕ

-- An optional reference is broken if it names a row that is not there.
abbrev pub dangling {ℓ} : {A : Type ℓ} → (ℕ → Option A) → Option ℕ → Bool
dangling table none = false
dangling table (some k) = elim (table k) [ none ↦ true | some row ↦ false ]

-- `storeCreditTransaction.create`, with the foreign keys of the table.
unfoldable pub create_transaction : CreditTransaction → Action (Unit {0})
create_transaction row = do
  throw_if (dangling (← gets (λ s. s.users)) (some row.user_id)) foreign_key
  throw_if (dangling (← gets (λ s. s.users)) row.created_by) foreign_key
  throw_if (dangling (← gets (λ s. s.orders)) row.order_id) foreign_key
  modify (λ s. record s { credit_transactions = row ∷ s.credit_transactions })

-- `applyStoreCreditChange`; the delta is an amount, in 10^-12 cents.
unfoldable pub apply_store_credit_change : ℕ → ℤ → ChangeFields → Action (Unit {0})
unfolding create_transaction
apply_store_credit_change user_id delta fields = do
  user ← or_throw (← gets (λ s. s.users user_id)) user_not_found
  let new_balance = to_amount user.store_credit_balance +ℤ delta
  throw_if (ltb_ℤ new_balance (pos 0)) insufficient_credit
  modify (λ s. record s {
    users =
        update s.users user_id
          (some (record user { store_credit_balance = to_cents_ℤ new_balance }));
  })
  create_transaction (record {
    user_id = user_id;
    amount = to_cents_ℤ delta;
    balance_after = to_cents_ℤ new_balance;
    kind = fields.kind;
    order_id = fields.order_id;
    note = fields.note;
    created_by = fields.created_by;
  })

unfoldable pub get_user_credit_balance : ℕ → Action ℤ
get_user_credit_balance user_id = do
  user ← or_throw (← gets (λ s. s.users user_id)) user_not_found
  gets (λ s. user.store_credit_balance)

unfoldable pub add_credit : ℕ → ℤ → Option String → ℕ → Action (Unit {0})
unfolding apply_store_credit_change
add_credit user_id amount note created_by = do
  throw_if (leb_ℤ amount (pos 0)) bad_amount
  transaction (
      apply_store_credit_change user_id amount
        (record { kind = added; note = note; order_id = none; created_by = some created_by }))

unfoldable pub remove_credit : ℕ → ℤ → Option String → ℕ → Action (Unit {0})
unfolding apply_store_credit_change
remove_credit user_id amount note created_by = do
  throw_if (leb_ℤ amount (pos 0)) bad_amount
  transaction (
      apply_store_credit_change user_id (pos 0 -ℤ amount)
        (record { kind = removed; note = note; order_id = none; created_by = some created_by }))

-- Runs in the transaction of its caller.
unfoldable pub use_credit : ℕ → ℤ → ℕ → Action (Unit {0})
unfolding apply_store_credit_change
use_credit user_id amount order_id =
    apply_store_credit_change user_id (pos 0 -ℤ amount)
      (record { kind = used; note = none; order_id = some order_id; created_by = none })

unfoldable pub refund_credit : ℕ → ℤ → ℕ → String → Action (Unit {0})
unfolding apply_store_credit_change
refund_credit user_id amount order_id note = transaction (
    apply_store_credit_change user_id amount
      (record { kind = refunded; note = some note; order_id = some order_id; created_by = none }))

-- The aggregate of `reconcileBalance`.
unfoldable pub ledger_sum : ℕ → List CreditTransaction → ℤ
ledger_sum user_id [] = pos 0
ledger_sum user_id (row ∷ rows) =
    if row.user_id == user_id
    then row.amount +ℤ ledger_sum user_id rows
    else ledger_sum user_id rows

-- `reconcileBalance`: the cached balance, the sum of the ledger, and whether they agree.
unfoldable pub reconcile_balance : ℕ → Action (ℤ × ℤ × Bool)
unfolding ledger_sum
reconcile_balance user_id = do
  user ← or_throw (← gets (λ s. s.users user_id)) user_not_found
  sum ← gets (λ s. ledger_sum user_id s.credit_transactions)
  gets (λ s. (user.store_credit_balance, sum, eq_ℤ user.store_credit_balance sum))
