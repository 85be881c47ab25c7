-- ===== src/Outbox/Attempts.antt =====
-- The attempts of a row.
use generic_ecommerce_store.Common.{
  ℕ, zero, suc, ◌<◌, ◌≡◌, ◌⊎◌, inl, inr, Bool, true, false, Option, List, [], ◌∷◌, All, arith,
  Bool-cases,
}
use generic_ecommerce_store.Shop.{Order, OutboxRow, OutboxStatus}
use generic_ecommerce_store.Outbox.{
  Queued, Mapping, Provider, Handled, finished, deferred, failing, max_attempts, batch,
  is_claimable, process_row, settle_row, claim, work, run_outbox_once,
}

-- Less than five attempts, or given up after the fifth.
abbrev pub IsBounded : Queued → Type 0
IsBounded q =
    (q.row.attempts < max_attempts)
    ⊎ ((q.row.attempts ≡ max_attempts) × (q.row.status ≡ OutboxStatus.failed))

-- A claimed row has an attempt left.
abbrev IsFlagged : Bool × Queued → Type 0
IsFlagged (true, q) = q.row.attempts < max_attempts
IsFlagged (false, q) = IsBounded q

claimable_has_attempts :
    (cutoff : ℕ) (q : Queued)
    → is_claimable cutoff q.row.status q.updated_at ≡ true
    → IsBounded q
    → q.row.attempts < max_attempts
claimable_has_attempts cutoff q able (inl h) = h
claimable_has_attempts cutoff q able (inr (e, f)) = absurd (ground arith)

claim-IsFlagged :
    (now cutoff budget : ℕ) (queue : List Queued)
    → All IsBounded queue
    → All IsFlagged (claim now cutoff budget queue)
unfolding claim
claim-IsFlagged now cutoff budget [] h = tt
claim-IsFlagged now cutoff zero (q ∷ queue) h = (h.0, claim-IsFlagged now cutoff zero queue h.1)
claim-IsFlagged now cutoff (suc budget) (q ∷ queue) h =
    elim (Bool-cases (is_claimable cutoff q.row.status q.updated_at)) [
      | inl able ↦
          rw able
            (claimable_has_attempts cutoff q able h.0, claim-IsFlagged now cutoff budget queue h.1)
      | inr not_able ↦ rw not_able (h.0, claim-IsFlagged now cutoff (suc budget) queue h.1)
    ]

settle_row-IsBounded :
    (handled : Handled) (row : OutboxRow) (now : ℕ)
    → row.attempts < max_attempts
    → IsBounded (record { row = settle_row handled row; updated_at = now })
unfolding settle_row
settle_row-IsBounded finished row now h = inl h
settle_row-IsBounded deferred row now h = inl h
settle_row-IsBounded failing row now h = ground arith

work-IsBounded :
    (provider_of : OutboxRow → Option Provider) (orders : ℕ → Option Order) (now : ℕ)
    (queue : List (Bool × Queued)) (mappings : List Mapping)
    → All IsFlagged queue
    → All IsBounded (work provider_of orders now queue mappings).0
unfolding work
work-IsBounded provider_of orders now [] mappings h = tt
work-IsBounded provider_of orders now ((false, q) ∷ queue) mappings h =
    (h.0, work-IsBounded provider_of orders now queue mappings h.1)
work-IsBounded provider_of orders now ((true, q) ∷ queue) mappings h =
    let p = process_row (provider_of q.row) orders q.row mappings in
    (settle_row-IsBounded p.0 q.row now h.0, work-IsBounded provider_of orders now queue p.1 h.1)

-- A run keeps every row within its attempts, whatever the providers answer: less than five, or five
-- and given up as FAILED.
pub run_outbox_once-IsBounded :
    (provider_of : OutboxRow → Option Provider) (orders : ℕ → Option Order) (now cutoff : ℕ)
    (queue : List Queued) (mappings : List Mapping)
    → All IsBounded queue
    → All IsBounded (run_outbox_once provider_of orders now cutoff queue mappings).0
unfolding run_outbox_once
run_outbox_once-IsBounded provider_of orders now cutoff queue mappings h =
    work-IsBounded provider_of orders now (claim now cutoff batch queue) mappings
      (claim-IsFlagged now cutoff batch queue h)
