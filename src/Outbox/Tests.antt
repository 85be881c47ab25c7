-- ===== src/Outbox/Tests.antt =====
-- Runs of the worker over concrete queues.
use generic_ecommerce_store.Common.{
  ℕ, ◌≡◌, Option, some, List, [], ◌∷◌, ◌++◌, All, map, refl, inl, arith,
}
use generic_ecommerce_store.Shop.{
  Order, OutboxKind, order_created, order_updated, OutboxStatus, pickup, cc, OrderStatus,
}
use generic_ecommerce_store.Samples.{order_of}
use generic_ecommerce_store.Outbox.{Queued, Provider, thrown, run_outbox_once}
use generic_ecommerce_store.Outbox.Attempts.{IsBounded, run_outbox_once-IsBounded}
use generic_ecommerce_store.Outbox.Blocked.{IsBlocked, run_outbox_once-IsBlocked}

-- A provider that is out of order.
abbrev down : Provider
down = record { push_order = λ o. thrown; push_status = λ o external_id. thrown }

abbrev orders : ℕ → Option Order
orders k = some (order_of OrderStatus.approved pickup cc)

abbrev queued : ℕ → OutboxKind → ℕ → Queued
queued id kind attempts = record {
  row = record {
    id = id;
    order_id = id;
    provider = "foreverpos";
    kind = kind;
    status = OutboxStatus.pending;
    attempts = attempts;
  };
  updated_at = 0;
}

-- One row has an attempt left, the other has four.
abbrev two : List Queued
two = queued 1 order_created 4 ∷ queued 2 order_created 1 ∷ []

run_outbox_once-IsBounded_example :
    All IsBounded (run_outbox_once (λ row. some down) orders 9 5 two []).0
run_outbox_once-IsBounded_example =
    run_outbox_once-IsBounded (λ row. some down) orders 9 5 two []
      (inl (omega arith), (inl (omega arith), tt))

abbrev update : ℕ → Queued
update id = queued id order_updated 0

abbrev ten : List Queued
ten =
    update 1
    ∷ update 2
    ∷ update 3
    ∷ update 4
    ∷ update 5
    ∷ update 6
    ∷ update 7
    ∷ update 8
    ∷ update 9
    ∷ update 10
    ∷ []

ten-All : All (IsBlocked (λ row. some down) orders 9 5 []) ten
ten-All = (
  (refl, refl, refl, (down, refl)),
  (
    (refl, refl, refl, (down, refl)),
    (
      (refl, refl, refl, (down, refl)),
      (
        (refl, refl, refl, (down, refl)),
        (
          (refl, refl, refl, (down, refl)),
          (
            (refl, refl, refl, (down, refl)),
            (
              (refl, refl, refl, (down, refl)),
              (
                (refl, refl, refl, (down, refl)),
                ((refl, refl, refl, (down, refl)), ((refl, refl, refl, (down, refl)), tt)),
              ),
            ),
          ),
        ),
      ),
    ),
  ),
)

run_outbox_once-IsBlocked_example :
    let (queue, ms) = run_outbox_once (λ row. some down) orders 9 5 (ten ++ two) [] in
    (map (λ q. q.row) queue ≡ map (λ q. q.row) (ten ++ two)) × (ms ≡ [])
run_outbox_once-IsBlocked_example =
    run_outbox_once-IsBlocked (λ row. some down) orders 9 5 [] ten two refl ten-All
