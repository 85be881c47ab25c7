-- ===== src/Outbox/Blocked.antt =====
-- Updates that wait for a mapping that never comes.
use generic_ecommerce_store.Common.{
  subst, sym, ℕ, ◌≡◌, refl, ap, true, Option, none, some, List, [], ◌∷◌, ◌++◌, All, length, map,
  arith,
}
use generic_ecommerce_store.Shop.{Order, OutboxRow, OutboxStatus, order_updated}
use generic_ecommerce_store.Outbox.{
  is_claimable, push_row, Queued, Mapping, Provider, batch, mapping_of, process_row, push_row,
  settle_row, claim, work, run_outbox_once,
}

module _ (provider_of : OutboxRow → Option Provider) (orders : ℕ → Option Order) (now cutoff : ℕ)
    (mappings : List Mapping) where
  -- A pending update of an order that has no mapping, for a store with a provider.
  abbrev pub IsBlocked : Queued → Type 0
  IsBlocked q =
      (q.row.status ≡ OutboxStatus.pending)
      × (q.row.kind ≡ order_updated)
      × (mapping_of q.row mappings ≡ none)
      × ((p : Provider) × (provider_of (record q.row { status = OutboxStatus.processing })
            ≡ some p))

  work_unclaimed :
      (queue : List Queued)
      → work provider_of orders now (claim now cutoff 0 queue) mappings ≡ (queue, mappings)
  unfolding work claim
  work_unclaimed [] = refl
  work_unclaimed (q ∷ queue) = rw (work_unclaimed queue) refl

  process_row-IsBlocked :
      (q : Queued)
      → IsBlocked q
      → let row = record q.row { status = OutboxStatus.processing } in
        (settle_row (process_row (provider_of row) orders row mappings).0 row ≡ q.row)
        × ((process_row (provider_of row) orders row mappings).1 ≡ mappings)
  unfolding process_row push_row settle_row
  process_row-IsBlocked q (pending, updates, unmapped, (p, given)) =
      (ground (arith, given, updates, unmapped, pending), ground (arith, given, updates, unmapped))

  blocked_run :
      (blocked rest : List Queued)
      → All IsBlocked blocked
      → let (queue, ms) =
          work provider_of orders now
            (claim now cutoff (length blocked) (blocked ++ rest))
            mappings in
        (map (λ q. q.row) queue ≡ map (λ q. q.row) (blocked ++ rest)) × (ms ≡ mappings)
  unfolding work claim
  blocked_run [] rest h = rw (work_unclaimed rest) (refl, refl)
  blocked_run (q ∷ blocked) rest h =
      let claimed : is_claimable cutoff q.row.status q.updated_at ≡ true = rw h.0.0 refl in
      let (same, kept) = process_row-IsBlocked q h.0 in
      let ih = blocked_run blocked rest h.1 in
      let row = record q.row { status = OutboxStatus.processing } in
      let tail = claim now cutoff (length blocked) (blocked ++ rest) in
      let head = settle_row (process_row (provider_of row) orders row mappings).0 row in
      rw claimed (
        subst
          (λ ms.
            (head ∷ map (λ (x : Queued). x.row) (work provider_of orders now tail ms).0
              ≡ q.row ∷ map (λ (x : Queued). x.row) (blocked ++ rest))
            × ((work provider_of orders now tail ms).1 ≡ mappings))
          (sym kept) (rw same (ap (λ l. q.row ∷ l) ih.0, ih.1)))

  -- Ten blocked updates at the head of the queue stop it: a run leaves every row as it was but for
  -- its `updatedAt`, attempts included, and adds no mapping. So the next run finds them again, and the
  -- rows behind them are never reached.
  pub run_outbox_once-IsBlocked :
      (blocked rest : List Queued)
      → length blocked ≡ batch
      → All IsBlocked blocked
      → let (queue, ms) =
          run_outbox_once provider_of orders now cutoff (blocked ++ rest) mappings in
        (map (λ q. q.row) queue ≡ map (λ q. q.row) (blocked ++ rest)) × (ms ≡ mappings)
  unfolding run_outbox_once
  run_outbox_once-IsBlocked blocked rest full h = rw (← full) (blocked_run blocked rest h)
