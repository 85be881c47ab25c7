-- ===== src/Orders/Status/Laws.antt =====
-- Who may set which status, and what an approval does to the payments.
use generic_ecommerce_store.Common.{
  [], Bool-cases, ◌≢◌, ◌==◌, ◌≢◌, not, All, keep, ◌⊎◌, Bool-cases, if◌then◌else◌, ℕ, ◌≡◌, Option,
  some, none, arith, true, refl, String, List, ◌∷◌, ◌&&◌, inl, inr,
}
use generic_ecommerce_store.Roles.{Role}
use generic_ecommerce_store.Shop.{
  Shop, Order, OrderStatus, ok, bind-eq-ok, transaction-eq-ok, transaction, publish,
  order_status_changed, ◌>>◌, or_throw, order_not_found, update,
}
use generic_ecommerce_store.Orders.Status.{
  is_unsettled, external, PaymentStatus, Payment, should_push_status, PosSettings, get_order_sync,
  drives_only, check_driver, is_delivered, is_deliverable_from, is_approved, is_external,
  settle_payments, write_status, enqueue_status, update_order_status,
}

check_driver-eq-ok :
    (roles : Option (List Role)) (old new : OrderStatus) (s t : Shop)
    → check_driver roles old new s ≡ (ok tt, t)
    → (t ≡ s)
      × (drives_only roles ≡ true → (is_delivered new ≡ true) × (is_deliverable_from old ≡ true))
unfolding check_driver
check_driver-eq-ok roles old new s t h = ground arith

-- The shop with the new status, its event and the payments that it settles.
abbrev pub recorded : ℕ → Order → OrderStatus → Option ℕ → Option String → Shop → Shop
recorded order_id order new changed_by remark s = record s {
  orders = update s.orders order_id (some (record order { status = new }));
  status_events =
      record {
        order_id = order_id;
        from_status = some order.status;
        to_status = new;
        changed_by = changed_by;
        note = remark;
      }
      ∷ s.status_events;
  payments =
      if is_approved new && is_external order.payment_method
      then settle_payments order_id s.payments
      else s.payments;
}

write_status-eq-ok :
    (sync : Option String) (order_id : ℕ) (order : Order) (new : OrderStatus)
    (changed_by : Option ℕ) (remark : Option String) (s t : Shop)
    → write_status sync order_id order new changed_by remark s ≡ (ok tt, t)
    → t ≡ enqueue_status sync order_id new (recorded order_id order new changed_by remark s)
unfolding write_status
write_status-eq-ok sync order_id order new changed_by remark s t h = ground arith

-- Enqueueing writes the outbox alone.
pub enqueue_status-frame :
    (sync : Option String) (order_id : ℕ) (new : OrderStatus) (s : Shop)
    → let t = enqueue_status sync order_id new s in
      t ≡ record s { outbox = t.outbox; next_outbox = t.next_outbox }
unfolding enqueue_status
enqueue_status-frame none order_id new s = refl
enqueue_status-frame (some provider) order_id new s = elim (Bool-cases (is_approved new)) [
  | inl approves ↦ rw approves refl
  | inr other ↦ rw other (elim (Bool-cases (should_push_status new)) [
    | inl push ↦ rw push refl
    | inr silent ↦ rw silent refl
  ])
]

-- What a successful change of status wrote, but for the outbox.
pub record Updated (order_id : ℕ) (new : OrderStatus) (changed_by : Option ℕ)
    (remark : Option String) (roles : Option (List Role)) (s t : Shop) : Type 0 where
  pub order : Order
  pub stored : s.orders order_id ≡ some order
  pub by_driver :
      drives_only roles ≡ true
      → (is_delivered new ≡ true) × (is_deliverable_from order.status ≡ true)
  pub written : t ≡ record (recorded order_id order new changed_by remark s) {
    outbox = t.outbox;
    next_outbox = t.next_outbox;
    published = order_status_changed order_id order.user_id new order.status ∷ s.published;
  }

pub update_order_status-Updated :
    (settings : PosSettings) (order_id : ℕ) (new : OrderStatus) (changed_by : Option ℕ)
    (remark : Option String) (roles : Option (List Role)) (s t : Shop)
    → update_order_status settings order_id new changed_by remark roles s ≡ (ok tt, t)
    → Updated order_id new changed_by remark roles s t
unfolding update_order_status
update_order_status-Updated settings order_id new changed_by remark roles s t h =
    let sync = get_order_sync settings in
    let go_on = λ (order : Order).
      check_driver roles order.status new
      >> (transaction (write_status sync order_id order new changed_by remark)
          >> publish (order_status_changed order_id order.user_id new order.status)) in
    let (order, s1, e1, h1) =
      bind-eq-ok (or_throw (s.orders order_id) order_not_found) go_on s t tt h in
    let here : s.orders order_id ≡ some order = ground (arith, e1) in
    let told = publish (order_status_changed order_id order.user_id new order.status) in
    let write = write_status sync order_id order new changed_by remark in
    let (_, s2, e2, h2) =
      bind-eq-ok (check_driver roles order.status new) (λ _. transaction write >> told) s1 t tt
        h1 in
    let (_, s3, e3, h3) = bind-eq-ok (transaction write) (λ _. told) s2 t tt h2 in
    let (same, driver) = check_driver-eq-ok roles order.status new s1 s2 e2 in
    let e4 =
      write_status-eq-ok sync order_id order new changed_by remark s2 s3
        (transaction-eq-ok write s2 s3 tt e3) in
    let same1 : s2 ≡ s = ground (arith, e1, same) in
    let e5 =
      enqueue_status-frame sync order_id new (recorded order_id order new changed_by remark s2) in
    record {
      order = order;
      stored = here;
      by_driver = driver;
      written = ground (arith, h3, e4, e5, same1);
    }

-- Who is a driver and none of EMPLOYEE, MANAGEMENT and ADMIN sets no status but DELIVERED, and that
-- only on an order that is ready for delivery or out for it.
pub update_order_status_by_driver :
    (settings : PosSettings) (order_id : ℕ) (new : OrderStatus) (changed_by : Option ℕ)
    (remark : Option String) (roles : List Role) (s t : Shop)
    → drives_only (some roles) ≡ true
    → update_order_status settings order_id new changed_by remark (some roles) s ≡ (ok tt, t)
    → (new ≡ OrderStatus.delivered)
      × ((order : Order) × (s.orders order_id ≡ some order)
          × ((order.status ≡ OrderStatus.ready_for_delivery)
              ⊎ (order.status ≡ OrderStatus.out_for_delivery)))
update_order_status_by_driver settings order_id new changed_by remark roles s t driver h =
    let u =
      update_order_status-Updated settings order_id new changed_by remark (some roles) s t h in
    let (to_delivered, from_ready) = u.by_driver driver in
    (ground (arith, to_delivered), (u.order, u.stored, deliverable u.order.status from_ready))
  where
    deliverable :
        (status : OrderStatus)
        → is_deliverable_from status ≡ true
        → (status ≡ OrderStatus.ready_for_delivery) ⊎ (status ≡ OrderStatus.out_for_delivery)
    deliverable status e = ground arith

settle_payments-All :
    (order_id : ℕ) (ps : List Payment)
    → All
        (λ p. p.order_id ≡ order_id → p.status ≢ PaymentStatus.pending)
        (settle_payments order_id ps)
unfolding settle_payments
settle_payments-All order_id [] = tt
settle_payments-All order_id (p ∷ ps) = (
  λ own. elim (Bool-cases (is_unsettled p.status)) [
    | inl waits ↦ ground arith
    | inr final ↦ ground arith
  ],
  settle_payments-All order_id ps,
)

settle_payments_others :
    (order_id : ℕ) (ps : List Payment)
    → keep (λ p. not (p.order_id == order_id)) (settle_payments order_id ps)
      ≡ keep (λ p. not (p.order_id == order_id)) ps
unfolding settle_payments
settle_payments_others order_id [] = refl
settle_payments_others order_id (p ∷ ps) = ground (arith, settle_payments_others order_id ps)

-- Approving an order that is paid outside the shop leaves none of its payments pending, and touches
-- no payment of another order.
pub update_order_status_settles :
    (settings : PosSettings) (order_id : ℕ) (order : Order) (changed_by : Option ℕ)
    (remark : Option String) (roles : Option (List Role)) (s t : Shop)
    → s.orders order_id ≡ some order
    → order.payment_method ≡ external
    → update_order_status settings order_id OrderStatus.approved changed_by remark roles s
      ≡ (ok tt, t)
    → All (λ p. p.order_id ≡ order_id → p.status ≢ PaymentStatus.pending) t.payments
      × (keep (λ p. not (p.order_id == order_id)) t.payments
          ≡ keep (λ p. not (p.order_id == order_id)) s.payments)
update_order_status_settles settings order_id order changed_by remark roles s t stored outside h =
    let u =
      update_order_status-Updated settings order_id OrderStatus.approved changed_by remark roles s t
        h in
    let same : u.order ≡ order = ground (arith, u.stored, stored) in
    let by_external : is_external u.order.payment_method ≡ true = rw same (rw outside refl) in
    let after : t.payments ≡ settle_payments order_id s.payments =
      ground (arith, u.written, by_external) in
    rw after (settle_payments-All order_id s.payments, settle_payments_others order_id s.payments)
