-- ===== src/Orders/Edit/Items.antt =====
-- What editing the lines of an order does to its total.
use generic_ecommerce_store.Money.Laws.{to_cents_mono}
use generic_ecommerce_store.Common.{
  ap, ◌∙◌, ◌≤◌, ◌≤◌, false, Option-cases, true, inr, inl, ◌&&◌, ◌*◌, All, Bool-cases, ◌+◌, ℕ, ◌≡◌,
  ◌≢◌, some, arith, refl, List, ◌∷◌, [], ◌==◌, if◌then◌else◌,
}
use generic_ecommerce_store.Shop.{err, ok, OrderItem}
use generic_ecommerce_store.Orders.Edit.{
  already_voided, to_cents, Order, recalculate, Shop, void_order_item, find_item, items_of,
  mark_voided, sum_order_items,
}

-- What a line counts for: nothing if it is voided.
abbrev pub worth : OrderItem → ℕ
worth i = if i.voided then 0 else i.unit_price * i.quantity

find_item-eq-some :
    (order_id item_id : ℕ) (item : OrderItem) (items : List OrderItem)
    → find_item order_id item_id items ≡ some item
    → (item.id ≡ item_id) × (item.order_id ≡ order_id)
find_item-eq-some order_id item_id item [] h = absurd (ground arith)
find_item-eq-some order_id item_id item (i ∷ items) h =
    elim (Bool-cases (i.id == item_id && i.order_id == order_id)) [
      | inl here ↦ ground arith
      | inr elsewhere ↦ find_item-eq-some order_id item_id item items (ground arith)
    ]

-- Ids are the primary key: no two lines have one.
unfoldable pub IsKeyed : List OrderItem → Type 0
IsKeyed [] = Unit
IsKeyed (i ∷ items) = All (λ j. j.id ≢ i.id) items × IsKeyed items

mark_voided_missing :
    (item_id : ℕ) (items : List OrderItem)
    → All (λ j. j.id ≢ item_id) items
    → mark_voided item_id items ≡ items
mark_voided_missing item_id [] h = refl
mark_voided_missing item_id (i ∷ items) h =
    ground (arith, mark_voided_missing item_id items h.1, h.0)

-- Voiding a line takes its worth out of the sum of its order.
sum_order_items-mark_voided :
    (order_id item_id : ℕ) (item : OrderItem) (items : List OrderItem)
    → IsKeyed items
    → find_item order_id item_id items ≡ some item
    → sum_order_items (items_of order_id (mark_voided item_id items)) + worth item
      ≡ sum_order_items (items_of order_id items)
unfolding IsKeyed sum_order_items
sum_order_items-mark_voided order_id item_id item [] keyed h = absurd (ground arith)
sum_order_items-mark_voided order_id item_id item (i ∷ items) (apart, keyed) h =
    elim (Bool-cases (i.id == item_id && i.order_id == order_id)) [
      | inl here ↦
          let mine : i.id ≡ item_id = ground arith in
          let of_order : i.order_id ≡ order_id = ground arith in
          let same : i ≡ item = ground (arith, here, h) in
          let rest = mark_voided_missing item_id items (rw (← mine) apart) in
          rw (← same) (rw rest (ground (arith, mine, of_order)))
      | inr elsewhere ↦
          let found : find_item order_id item_id items ≡ some item = ground (arith, elsewhere, h) in
          let ih = sum_order_items-mark_voided order_id item_id item items keyed found in
          ground (arith, elsewhere, ih)
    ]

find_item-mark_voided :
    (order_id item_id : ℕ) (item : OrderItem) (items : List OrderItem)
    → find_item order_id item_id items ≡ some item
    → find_item order_id item_id (mark_voided item_id items) ≡ some (record item { voided = true })
find_item-mark_voided order_id item_id item [] h = absurd (ground arith)
find_item-mark_voided order_id item_id item (i ∷ items) h =
    elim (Bool-cases (i.id == item_id && i.order_id == order_id)) [
      | inl here ↦ ground (arith, here, h)
      | inr elsewhere ↦
          let found : find_item order_id item_id items ≡ some item = ground (arith, elsewhere, h) in
          ground (arith, elsewhere, find_item-mark_voided order_id item_id item items found)
    ]

-- What a successful voiding found and wrote.
pub record Voided (order_id item_id : ℕ) (s t : Shop) : Type 0 where
  pub item : OrderItem
  pub found : find_item order_id item_id s.items ≡ some item
  pub live : item.voided ≡ false
  pub written : t ≡ recalculate order_id (record s { items = mark_voided item_id s.items })

void_order_item-Voided :
    (order_id item_id : ℕ) (s t : Shop)
    → void_order_item order_id item_id s ≡ (ok tt, t)
    → Voided order_id item_id s t
unfolding void_order_item
void_order_item-Voided order_id item_id s t h =
    elim (Option-cases (find_item order_id item_id s.items)) [
      | inl missing ↦ absurd (ground arith)
      | inr (item, found) ↦ record {
        item = item;
        found = found;
        live = ground arith;
        written = ground arith;
      }
    ]

recalculate-items : (order_id : ℕ) (s : Shop) → (recalculate order_id s).items ≡ s.items
unfolding recalculate
recalculate-items order_id s = elim (Option-cases (s.orders order_id)) [
  | inl missing ↦ rw (missing, recalculate) refl
  | inr (order, here) ↦ rw (here, recalculate) refl
]

recalculate-orders :
    (order_id : ℕ) (order : Order) (s : Shop)
    → s.orders order_id ≡ some order
    → (recalculate order_id s).orders order_id
      ≡ some (record order { total = to_cents (sum_order_items (items_of order_id s.items)) })
unfolding recalculate
recalculate-orders order_id order s here = ground arith

-- A line is voided once: to void it again is refused.
pub void_order_item_once :
    (order_id item_id : ℕ) (s t : Shop)
    → void_order_item order_id item_id s ≡ (ok tt, t)
    → void_order_item order_id item_id t ≡ (err already_voided, t)
unfolding void_order_item
void_order_item_once order_id item_id s t h =
    let v = void_order_item-Voided order_id item_id s t h in
    let items : t.items ≡ mark_voided item_id s.items =
      rw v.written
        (recalculate-items order_id (record s { items = mark_voided item_id s.items })) in
    let found : find_item order_id item_id t.items ≡ some (record v.item { voided = true }) =
      rw items (find_item-mark_voided order_id item_id v.item s.items v.found) in
    rw found refl

-- Voiding a line of an order drops the tax from its total. Where the lines have distinct ids and the
-- total was the rounded sum of the lines and the tax, as a checkout leaves it, the new total is the
-- rounded sum of the remaining lines alone, so it is lower by at least the tax, while the subtotal
-- and the tax that are stored stay as they are.
pub void_order_item_drops_tax :
    (order_id item_id : ℕ) (order : Order) (s t : Shop)
    → IsKeyed s.items
    → s.orders order_id ≡ some order
    → order.total ≡ to_cents (sum_order_items (items_of order_id s.items)) + order.tax
    → void_order_item order_id item_id s ≡ (ok tt, t)
    → (item after : _) × (find_item order_id item_id s.items ≡ some item)
      × (t.orders order_id ≡ some after)
      × (order.total
          ≡ to_cents (sum_order_items (items_of order_id t.items) + item.unit_price * item.quantity)
            + order.tax)
      × (after ≡ record order { total = to_cents (sum_order_items (items_of order_id t.items)) })
      × (after.total + order.tax ≤ order.total)
void_order_item_drops_tax order_id item_id order s t keyed stored whole h =
    let v = void_order_item-Voided order_id item_id s t h in
    let marked = record s { items = mark_voided item_id s.items } in
    let items : t.items ≡ mark_voided item_id s.items =
      rw v.written (recalculate-items order_id marked) in
    let row = recalculate-orders order_id order marked stored in
    let sum = sum_order_items-mark_voided order_id item_id v.item s.items keyed v.found in
    let left = sum_order_items (items_of order_id t.items) in
    let right = sum_order_items (items_of order_id s.items) in
    let lost = v.item.unit_price * v.item.quantity in
    let live : worth v.item ≡ lost = rw v.live refl in
    let split : left + lost ≡ right = rw items (rw (← live) sum) in
    let here : t.orders order_id ≡ some (record order { total = to_cents left }) =
      rw items (ap (λ (u : Shop). u.orders order_id) v.written ∙ row) in
    let less = to_cents_mono left right (omega (arith, split)) in
    (
      v.item,
      record order { total = to_cents left },
      v.found,
      here,
      rw split whole,
      refl,
      omega (arith, less, whole),
    )
