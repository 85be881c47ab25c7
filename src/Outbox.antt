-- ===== src/Outbox.antt =====
-- The worker that pushes orders to the point of sale: `runOutboxOnce` of
-- backend/src/services/pos/orders/outboxWorker.ts and `processOutboxRow` of posOrderService.ts. The
-- queue stands in the order of the ids. The settings' answer for a row (a provider or none), and what
-- the provider answers, are arguments. The column `lastError` is left out.
pub mod Attempts
pub mod Blocked
mod Tests
use text.Mathlib.Text.{◌==◌ as str_eq}
use generic_ecommerce_store.Text.{is_empty}
use generic_ecommerce_store.Common.{
  ℕ, zero, suc, ◌+◌, Bool, true, false, ◌&&◌, ◌==◌, Option, none, some, List, [], ◌∷◌, String, ltb,
  leb, find?, if◌then◌else◌,
}
use generic_ecommerce_store.Shop.{
  Order, OutboxRow, OutboxKind, order_created, order_updated, OutboxStatus,
}

-- A row of the queue with its `updatedAt`.
pub record Queued : Type 0 where
  pub row : OutboxRow
  pub updated_at : ℕ

-- `OrderPosMapping`
pub record Mapping : Type 0 where
  pub order_id : ℕ
  pub provider : String
  pub external_id : String

-- How a call of the provider ends: with a value or by throwing.
pub data Answer (A : Type 0) : Type 0 where
  answered : A → Answer A
  thrown : Answer A

-- The provider of a store, as far as the worker calls it.
pub record Provider : Type 0 where
  pub push_order : Order → Answer (Option String)
  pub push_status : Order → String → Answer (Unit {0})

-- How the processing of a row ends: normally, with a DeferralError, or with another error.
pub data Handled : Type 0 where
  finished deferred failing : Handled

-- `const MAX_ATTEMPTS = 5` and `const BATCH = 10`
abbrev pub max_attempts : ℕ
max_attempts = 5

abbrev pub batch : ℕ
batch = 10

-- `orderPosMapping.findUnique`
abbrev pub mapping_of : OutboxRow → List Mapping → Option Mapping
mapping_of row = find? (λ m. m.order_id == row.order_id && str_eq m.provider row.provider)

-- What follows `pushOrder`; a missing or empty id is an error, which costs an attempt.
abbrev pub record_push : OutboxRow → List Mapping → Answer (Option String) → Handled × List Mapping
record_push row mappings thrown = (failing, mappings)
record_push row mappings (answered none) = (failing, mappings)
record_push row mappings (answered (some external_id)) =
    if is_empty external_id then (failing, mappings) else (
      finished,
      record { order_id = row.order_id; provider = row.provider; external_id = external_id }
          ∷ mappings,
    )

abbrev pub after_status : Answer (Unit {0}) → Handled
after_status (answered a) = finished
after_status thrown = failing

-- `processOutboxRow`, by the row's type and its mapping; a row whose order is gone is done.
unfoldable pub push_row :
    Provider
    → OutboxKind
    → Option Mapping
    → Option Order
    → OutboxRow
    → List Mapping
    → Handled × List Mapping
push_row p order_created (some m) order row mappings = (finished, mappings)
push_row p order_created none none row mappings = (finished, mappings)
push_row p order_created none (some order) row mappings =
    record_push row mappings (p.push_order order)
push_row p order_updated none order row mappings = (deferred, mappings)
push_row p order_updated (some m) none row mappings = (finished, mappings)
push_row p order_updated (some m) (some order) row mappings =
    (after_status (p.push_status order m.external_id), mappings)

-- The same, or nothing to do where the row's store has no provider.
unfoldable pub process_row :
    Option Provider → (ℕ → Option Order) → OutboxRow → List Mapping → Handled × List Mapping
unfolding push_row
process_row none orders row mappings = (finished, mappings)
process_row (some p) orders row mappings =
    push_row p row.kind (mapping_of row mappings) (orders row.order_id) row mappings

-- What the worker writes to the row.
unfoldable pub settle_row : Handled → OutboxRow → OutboxRow
settle_row finished row = record row { status = OutboxStatus.done }
settle_row deferred row = record row { status = OutboxStatus.pending }
settle_row failing row =
    let attempts = row.attempts + 1 in
    if leb max_attempts attempts
    then record row { status = OutboxStatus.failed; attempts = attempts }
    else record row { status = OutboxStatus.pending; attempts = attempts }

-- The rows that a run may claim: pending, or claimed so long ago that the lease is over.
abbrev pub is_claimable : ℕ → OutboxStatus → ℕ → Bool
is_claimable cutoff OutboxStatus.pending updated_at = true
is_claimable cutoff OutboxStatus.processing updated_at = ltb updated_at cutoff
is_claimable cutoff OutboxStatus.done updated_at = false
is_claimable cutoff OutboxStatus.failed updated_at = false

-- Phase 1: the first rows that can be claimed, at most so many, are marked PROCESSING. The flag says
-- which were.
unfoldable pub claim : ℕ → ℕ → ℕ → List Queued → List (Bool × Queued)
claim now cutoff budget [] = []
claim now cutoff zero (q ∷ queue) = (false, q) ∷ claim now cutoff zero queue
claim now cutoff (suc budget) (q ∷ queue) =
    let with_it = claim now cutoff budget queue in
    let without = claim now cutoff (suc budget) queue in
    if is_claimable cutoff q.row.status q.updated_at
    then (
      true,
      record { row = record q.row { status = OutboxStatus.processing }; updated_at = now },
    )
      ∷ with_it
    else (false, q) ∷ without

-- Phase 2: the claimed rows, one after another.
unfoldable pub work :
    (OutboxRow → Option Provider)
    → (ℕ → Option Order)
    → ℕ
    → List (Bool × Queued)
    → List Mapping
    → List Queued × List Mapping
unfolding process_row settle_row
work provider_of orders now [] mappings = ([], mappings)
work provider_of orders now ((false, q) ∷ queue) mappings =
    let (rest, ms) = work provider_of orders now queue mappings in (q ∷ rest, ms)
work provider_of orders now ((true, q) ∷ queue) mappings =
    let (handled, ms) = process_row (provider_of q.row) orders q.row mappings in
    let (rest, ms') = work provider_of orders now queue ms in
    (record { row = settle_row handled q.row; updated_at = now } ∷ rest, ms')

-- `runOutboxOnce`
unfoldable pub run_outbox_once :
    (OutboxRow → Option Provider)
    → (ℕ → Option Order)
    → ℕ
    → ℕ
    → List Queued
    → List Mapping
    → List Queued × List Mapping
unfolding claim work
run_outbox_once provider_of orders now cutoff queue mappings =
    work provider_of orders now (claim now cutoff batch queue) mappings
