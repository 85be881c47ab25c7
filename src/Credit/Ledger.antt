-- ===== src/Credit/Ledger.antt =====
-- The balances and the ledger over any run of the service.
use generic_ecommerce_store.Common.{
  sym, true, subst, ==_iff, Bool-cases, inr, inl, refl, ℕ, ◌≡◌, arith, none, some, Option, String,
  ◌==◌,
}
use generic_ecommerce_store.Common.Int.{ℤ, pos, ◌+ℤ◌, ◌-ℤ◌, ◌≤ℤ◌, int_laws}
use generic_ecommerce_store.Money.{to_amount, to_cents_ℤ}
use generic_ecommerce_store.Money.Laws.{
  to_amount-neg, to_amount-add, to_cents_ℤ-to_amount, to_cents_ℤ_nonneg,
}
use generic_ecommerce_store.Shop.{transaction-ind, Shop, User, Result, ok, err}
use generic_ecommerce_store.Credit.{
  reconcile_balance, removed, refunded, added, transaction, ChangeFields, apply_store_credit_change,
  add_credit, remove_credit, refund_credit, use_credit, used, ledger_sum,
}
use generic_ecommerce_store.Credit.Moves.{changed, apply_store_credit_change-eq-ok}

-- What a transactional change by `delta` did, by how it ended.
abbrev pub Outcome : ℕ → ℤ → Shop → Result (Unit {0}) × Shop → Type 0
Outcome user_id delta s (ok _, s') =
    (fields : ChangeFields) × (user : User) × (s.users user_id ≡ some user)
    × (pos 0 ≤ℤ to_amount user.store_credit_balance +ℤ delta)
    × (s' ≡ changed user_id delta fields user s)
Outcome user_id delta s (err _, s') = s' ≡ s

-- No balance is negative.
abbrev pub IsSolvent : Shop → Type 0
IsSolvent s = (k : ℕ) (user : User) → s.users k ≡ some user → pos 0 ≤ℤ user.store_credit_balance

-- Each balance is the sum of its ledger entries: `reconcileBalance` answers true.
abbrev pub IsReconciled : Shop → Type 0
IsReconciled s =
    (k : ℕ) (user : User)
    → s.users k ≡ some user
    → user.store_credit_balance ≡ ledger_sum k s.credit_transactions

module _ (user_id : ℕ) (delta : ℤ) (fields : ChangeFields) (user : User) (s : Shop) where
  changed-IsSolvent :
      pos 0 ≤ℤ to_amount user.store_credit_balance +ℤ delta
      → IsSolvent s
      → IsSolvent (changed user_id delta fields user s)
  changed-IsSolvent enough solvent k u found =
      ground (arith, to_cents_ℤ_nonneg (to_amount user.store_credit_balance +ℤ delta), solvent k u)

  changed-IsReconciled :
      (c : ℤ)
      → delta ≡ to_amount c
      → s.users user_id ≡ some user
      → IsReconciled s
      → IsReconciled (changed user_id delta fields user s)
  unfolding ledger_sum
  changed-IsReconciled c whole found reconciled k u found' =
      let new : to_cents_ℤ (to_amount user.store_credit_balance +ℤ delta)
          ≡ user.store_credit_balance +ℤ c =
        rw (whole, to_amount-add, to_cents_ℤ-to_amount) refl in
      let entry : to_cents_ℤ delta ≡ c = rw (whole, to_cents_ℤ-to_amount) refl in
      elim (Bool-cases (user_id == k)) [
        | inl same ↦
            let e : user_id ≡ k = (==_iff user_id k).0 same in
            grind (int_laws, new, entry, reconciled user_id user found)
        | inr other ↦ ground (arith, reconciled k u)
      ]

transaction-Outcome :
    (user_id : ℕ) (delta : ℤ) (fields : ChangeFields) (s : Shop)
    → Outcome user_id delta s (transaction (apply_store_credit_change user_id delta fields) s)
transaction-Outcome user_id delta fields s =
    transaction-ind (Outcome user_id delta s) (apply_store_credit_change user_id delta fields) s
      (λ a done.
        let (user, found, enough, e) =
          apply_store_credit_change-eq-ok user_id delta fields s done in
        (fields, user, found, enough, e))
      (λ e failed. refl)

-- `addCredit` throws and changes nothing, or it moves the one balance by the amount, to a balance
-- that is not negative, writes its ledger entry and changes nothing else.
pub add_credit-Outcome :
    (user_id : ℕ) (amount : ℤ) (note : Option String) (by : ℕ) (s : Shop)
    → Outcome user_id amount s (add_credit user_id amount note by s)
unfolding add_credit
add_credit-Outcome user_id amount note by s = ground (
  arith,
  transaction-Outcome user_id amount
      (record { kind = added; note = note; order_id = none; created_by = some by }) s,
)

pub remove_credit-Outcome :
    (user_id : ℕ) (amount : ℤ) (note : Option String) (by : ℕ) (s : Shop)
    → Outcome user_id (pos 0 -ℤ amount) s (remove_credit user_id amount note by s)
unfolding remove_credit
remove_credit-Outcome user_id amount note by s = ground (
  arith,
  transaction-Outcome user_id (pos 0 -ℤ amount)
      (record { kind = removed; note = note; order_id = none; created_by = some by }) s,
)

pub refund_credit-Outcome :
    (user_id : ℕ) (amount : ℤ) (order_id : ℕ) (note : String) (s : Shop)
    → Outcome user_id amount s (refund_credit user_id amount order_id note s)
unfolding refund_credit
refund_credit-Outcome user_id amount order_id note s =
    transaction-Outcome user_id amount
      (record { kind = refunded; note = some note; order_id = some order_id; created_by = none }) s

-- `useCredit` in the transaction of its caller.
pub use_credit-Outcome :
    (user_id : ℕ) (amount : ℤ) (order_id : ℕ) (s : Shop)
    → Outcome user_id (pos 0 -ℤ amount) s (transaction (use_credit user_id amount order_id) s)
unfolding use_credit
use_credit-Outcome user_id amount order_id s =
    transaction-Outcome user_id (pos 0 -ℤ amount)
      (record { kind = used; note = none; order_id = some order_id; created_by = none }) s

-- A call of the service, with an amount in whole cents; a use is in a transaction, as in a checkout.
pub data CreditStep (s t : Shop) : Type 0 where
  add :
      (user_id : ℕ) (c : ℤ) (note : Option String) (by : ℕ)
      → t ≡ (add_credit user_id (to_amount c) note by s).1
      → CreditStep s t
  remove :
      (user_id : ℕ) (c : ℤ) (note : Option String) (by : ℕ)
      → t ≡ (remove_credit user_id (to_amount c) note by s).1
      → CreditStep s t
  refund :
      (user_id : ℕ) (c : ℤ) (order_id : ℕ) (note : String)
      → t ≡ (refund_credit user_id (to_amount c) order_id note s).1
      → CreditStep s t
  use_for :
      (user_id : ℕ) (c : ℤ) (order_id : ℕ)
      → t ≡ (transaction (use_credit user_id (to_amount c) order_id) s).1
      → CreditStep s t

pub data CreditRun (s : Shop) : Shop → Type 0 where
  here : CreditRun s s
  then_step : {t u : Shop} → CreditRun s t → CreditStep t u → CreditRun s u

-- What the calls keep.
abbrev pub IsSound : Shop → Type 0
IsSound s = IsSolvent s × IsReconciled s

Outcome-IsSound :
    (user_id : ℕ) (delta c : ℤ) (s : Shop) (p : Result (Unit {0}) × Shop)
    → delta ≡ to_amount c
    → Outcome user_id delta s p
    → IsSound s
    → IsSound p.1
Outcome-IsSound user_id delta c s (ok a, s') whole (fields, user, found, enough, e)
      (solvent, reconciled) =
    subst IsSound (sym e) (
      changed-IsSolvent user_id delta fields user s enough solvent,
      changed-IsReconciled user_id delta fields user s c whole found reconciled,
    )
Outcome-IsSound user_id delta c s (err x, s') whole e sound = subst IsSound (sym e) sound

CreditStep-IsSound : {s t : Shop} → CreditStep s t → IsSound s → IsSound t
CreditStep-IsSound {s} (add user_id c note by e) h = subst IsSound (sym e) (
    Outcome-IsSound user_id (to_amount c) c s _ refl
      (add_credit-Outcome user_id (to_amount c) note by s) h)
CreditStep-IsSound {s} (remove user_id c note by e) h = subst IsSound (sym e) (
    Outcome-IsSound user_id (pos 0 -ℤ to_amount c) (pos 0 -ℤ c) s _ (to_amount-neg c)
      (remove_credit-Outcome user_id (to_amount c) note by s) h)
CreditStep-IsSound {s} (refund user_id c order_id note e) h = subst IsSound (sym e) (
    Outcome-IsSound user_id (to_amount c) c s _ refl
      (refund_credit-Outcome user_id (to_amount c) order_id note s) h)
CreditStep-IsSound {s} (use_for user_id c order_id e) h = subst IsSound (sym e) (
    Outcome-IsSound user_id (pos 0 -ℤ to_amount c) (pos 0 -ℤ c) s _ (to_amount-neg c)
      (use_credit-Outcome user_id (to_amount c) order_id s) h)

-- From a shop where no balance is negative and each is the sum of its ledger entries, any run of
-- calls of `addCredit`, `removeCredit`, `refundCredit` and `useCredit`, the last in a transaction of its
-- caller, with amounts in whole cents, failing calls included, leads to such a shop.
pub CreditRun-IsSound : {s t : Shop} → CreditRun s t → IsSound s → IsSound t
CreditRun-IsSound here h = h
CreditRun-IsSound (then_step r st) h = CreditStep-IsSound st (CreditRun-IsSound r h)

-- In a shop where no balance is negative and each is the sum of its ledger entries, `reconcileBalance`
-- of a user that is there answers the balance, the same number as the sum, and true.
pub reconcile_balance-IsSound :
    (user_id : ℕ) (user : User) (s : Shop)
    → s.users user_id ≡ some user
    → IsSound s
    → (reconcile_balance user_id s).0
      ≡ ok (user.store_credit_balance, user.store_credit_balance, true)
unfolding reconcile_balance
reconcile_balance-IsSound user_id user s found h = ground (arith, h.1 user_id user)
