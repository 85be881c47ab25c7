-- ===== src/Credit/Moves.antt =====
-- What a change of store credit does, case by case, with the services shut.
use generic_ecommerce_store.Common.{inr, arith, inl, ◌∷◌, Option-cases, some, ℕ, ◌≡◌}
use generic_ecommerce_store.Common.Int.{ℤ, pos, ◌+ℤ◌, ◌≤ℤ◌}
use generic_ecommerce_store.Money.{to_amount, to_cents_ℤ}
use generic_ecommerce_store.Shop.{Shop, User, CreditTransaction, ok, update}
use generic_ecommerce_store.Credit.{ChangeFields, apply_store_credit_change}

-- The row that a change writes into the ledger.
abbrev pub ledger_row : ℕ → ℤ → ℤ → ChangeFields → CreditTransaction
ledger_row user_id delta new_balance fields = record {
  user_id = user_id;
  amount = to_cents_ℤ delta;
  balance_after = to_cents_ℤ new_balance;
  kind = fields.kind;
  order_id = fields.order_id;
  note = fields.note;
  created_by = fields.created_by;
}

-- The shop after a change that went through.
abbrev pub changed : ℕ → ℤ → ChangeFields → User → Shop → Shop
changed user_id delta fields user s =
    let new_balance = to_amount user.store_credit_balance +ℤ delta in
    record s {
      users =
          update s.users user_id
            (some (record user { store_credit_balance = to_cents_ℤ new_balance }));
      credit_transactions = ledger_row user_id delta new_balance fields ∷ s.credit_transactions;
    }

-- A change that succeeds found the user, did not overdraw, and wrote the balance and the row.
pub apply_store_credit_change-eq-ok :
    (user_id : ℕ) (delta : ℤ) (fields : ChangeFields) (s : Shop)
    → (apply_store_credit_change user_id delta fields s).0 ≡ ok tt
    → (user : User) × (s.users user_id ≡ some user)
      × (pos 0 ≤ℤ to_amount user.store_credit_balance +ℤ delta)
      × ((apply_store_credit_change user_id delta fields s).1 ≡ changed user_id delta fields user s)
unfolding apply_store_credit_change
apply_store_credit_change-eq-ok user_id delta fields s h = elim (Option-cases (s.users user_id)) [
  | inl missing ↦ ground arith
  | inr (user, found) ↦ (user, found, ground arith, ground arith)
]
