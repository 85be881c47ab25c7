-- ===== src/Orders/Edit/Deletion.antt =====
-- What deleting an order leaves, and what becomes of the store credit it was paid with.
use generic_ecommerce_store.Common.{◌≢◌, ap}
use generic_ecommerce_store.Shop.{
  ◌>>◌, modify, or_throw, order_not_found, bind-eq-ok, transaction-eq-ok, PaymentMethod, external,
  in_store, cc, OrderStatus,
}
use generic_ecommerce_store.Common.{ℕ, ◌≡◌, Option, some, none, arith, false, refl, ◌∙◌}
use generic_ecommerce_store.Common.Int.{ℤ, pos, ltb_ℤ, ◌+ℤ◌}
use generic_ecommerce_store.Money.{to_amount}
use generic_ecommerce_store.Credit.{
  ChangeFields, refund_credit, apply_store_credit_change, create_transaction,
}
use generic_ecommerce_store.Payments.{refund_on_delete}
use generic_ecommerce_store.Shop.{
  Shop, Order, User, ok, err, store_credit, refunded, foreign_key, bind-ok, transaction-err, modify,
  ◌>>◌,
}
use generic_ecommerce_store.Orders.Edit.{check_requester, delete_order, delete_row}

abbrev refund_fields : ℕ → ChangeFields
refund_fields order_id = record {
  kind = refunded;
  note = some "Order cancelled";
  order_id = some order_id;
  created_by = none;
}

-- A credit change that names an order which is not there breaks the foreign key.
apply_store_credit_change-foreign_key :
    (user_id order_id : ℕ) (delta : ℤ) (fields : ChangeFields) (user : User) (s : Shop)
    → s.users user_id ≡ some user
    → ltb_ℤ (to_amount user.store_credit_balance +ℤ delta) (pos 0) ≡ false
    → fields.order_id ≡ some order_id
    → fields.created_by ≡ none
    → s.orders order_id ≡ none
    → (apply_store_credit_change user_id delta fields s).0 ≡ err foreign_key
unfolding apply_store_credit_change create_transaction
apply_store_credit_change-foreign_key user_id order_id delta fields user s here enough names nobody
      gone =
    ground arith

-- An order paid by store credit is deleted without its refund: where the order is there, the
-- requester may delete it, the user is there and the refund would not leave the balance negative,
-- `deleteOrder` removes the row first, the credit entry then refers to no order, and the method
-- throws that foreign key with the order gone and every user, balances included, as before.
pub delete_order-eq-foreign_key :
    (order_id : ℕ) (requester : Option ℕ) (order : Order) (user : User) (s : Shop)
    → s.orders order_id ≡ some order
    → check_requester order requester s ≡ (ok tt, s)
    → order.payment_method ≡ store_credit
    → s.users order.user_id ≡ some user
    → ltb_ℤ (to_amount user.store_credit_balance +ℤ to_amount (pos order.total)) (pos 0) ≡ false
    → delete_order order_id requester s ≡ (err foreign_key, delete_row order_id s)
unfolding delete_order delete_row refund_on_delete refund_credit
delete_order-eq-foreign_key order_id requester order user s here allowed paid owner enough =
    let refund = refund_on_delete order.payment_method order_id order.user_id order.total in
    rw here (
      bind-ok (check_requester order requester) (λ _. modify (delete_row order_id) >> refund) s s tt
        allowed
      ∙ rw paid (
          transaction-err
            (apply_store_credit_change order.user_id (to_amount (pos order.total))
              (refund_fields order_id))
            (delete_row order_id s) foreign_key
            (apply_store_credit_change-foreign_key order.user_id order_id
              (to_amount (pos order.total)) (refund_fields order_id) user (delete_row order_id s)
              owner enough refl refl (ground arith))))

apply_store_credit_change-names_order :
    (user_id order_id : ℕ) (delta : ℤ) (fields : ChangeFields) (s t : Shop)
    → fields.order_id ≡ some order_id
    → s.orders order_id ≡ none
    → ¬ (apply_store_credit_change user_id delta fields s ≡ (ok tt, t))
unfolding apply_store_credit_change create_transaction
apply_store_credit_change-names_order user_id order_id delta fields s t names gone h =
    absurd (ground arith)

refund_on_delete-eq-ok :
    (m : PaymentMethod) (order_id user_id total : ℕ) (s t : Shop)
    → s.orders order_id ≡ none
    → refund_on_delete m order_id user_id total s ≡ (ok tt, t)
    → (m ≢ store_credit) × (t ≡ s)
unfolding refund_on_delete refund_credit
refund_on_delete-eq-ok store_credit order_id user_id total s t gone h =
    let change =
      apply_store_credit_change user_id (to_amount (pos total)) (refund_fields order_id) in
    absurd (
      apply_store_credit_change-names_order user_id order_id (to_amount (pos total))
        (refund_fields order_id) s t refl gone (transaction-eq-ok change s t tt h))
refund_on_delete-eq-ok external order_id user_id total s t gone h = ground arith
refund_on_delete-eq-ok in_store order_id user_id total s t gone h = ground arith
refund_on_delete-eq-ok cc order_id user_id total s t gone h = ground arith

check_requester-eq-ok :
    (order : Order) (requester : Option ℕ) (s t : Shop)
    → check_requester order requester s ≡ (ok tt, t)
    → (t ≡ s)
      × ((k : ℕ) → requester ≡ some k → (order.user_id ≡ k) × (order.status ≡ OrderStatus.pending))
check_requester-eq-ok order none s t h = ground arith
check_requester-eq-ok order (some k) s t h = ground arith

-- A deletion that succeeds was of an order that store credit did not pay for; where a customer asked
-- for it, the order was theirs and pending. What is left is the shop without the order's row, its
-- lines, payments, events and outbox rows, with its id erased from the credit ledger.
pub delete_order-eq-ok :
    (order_id : ℕ) (requester : Option ℕ) (s t : Shop)
    → delete_order order_id requester s ≡ (ok tt, t)
    → (order : Order) × (s.orders order_id ≡ some order)
      × (order.payment_method ≢ store_credit)
      × ((k : ℕ) → requester ≡ some k → (order.user_id ≡ k) × (order.status ≡ OrderStatus.pending))
      × (t ≡ delete_row order_id s)
unfolding delete_order delete_row
delete_order-eq-ok order_id requester s t h =
    let refund = λ (o : Order). refund_on_delete o.payment_method order_id o.user_id o.total in
    let go_on =
      λ (o : Order). check_requester o requester >> (modify (delete_row order_id) >> refund o) in
    let (order, s1, e1, h1) =
      bind-eq-ok (or_throw (s.orders order_id) order_not_found) go_on s t tt h in
    let (_, s2, e2, h2) =
      bind-eq-ok (check_requester order requester)
        (λ _. modify (delete_row order_id) >> refund order) s1 t tt h1 in
    let (same, allowed) = check_requester-eq-ok order requester s1 s2 e2 in
    let same2 : s2 ≡ s = ground (arith, e1, same) in
    let (unpaid, after) =
      refund_on_delete-eq-ok order.payment_method order_id order.user_id order.total
        (delete_row order_id s2) t (ground arith) h2 in
    (order, ground (arith, e1), unpaid, allowed, rw after (ap (delete_row order_id) same2))
