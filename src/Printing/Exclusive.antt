-- ===== src/Printing/Exclusive.antt =====
-- backend/src/services/printJob.service.ts: who gets a job.
use generic_ecommerce_store.Common.{
  ℕ, suc, ◌+◌, ◌≤◌, ◌<◌, ◌≡◌, ◌≢◌, refl, sym, ap, subst, ◌∙◌, Bool, Option, none, some, List, [],
  ◌∷◌, ◌++◌, String, true, false, arith, ◌==◌, if-elim, ==_iff,
}
use mathlib.Core.Option.{some-injective}
use generic_ecommerce_store.Common.Lists.{All, All-append, keep}
use generic_ecommerce_store.Tenancy.{TenantContext, real_store}
use generic_ecommerce_store.Printing.{
  PrintJob, PrintJobReason, pending, claimed, Queue, create_print_job, claim_next_job, mark_success,
  mark_failure, claim_timeout_ms, is_claimable, oldest, update_where, claim, is_held_by, new_job,
}
use generic_ecommerce_store.Printing.Rows.{update_where-All, keep-All, oldest-All}

-- A call of the service, by whom and when.
pub data Call : Type 0 where
  created : TenantContext → ℕ → PrintJobReason → ℕ → Call
  claimed_next : TenantContext → String → ℕ → Call
  succeeded : TenantContext → ℕ → String → Option String → ℕ → Call
  failed_with : TenantContext → ℕ → String → String → String → ℕ → Call

abbrev pub time_of : Call → ℕ
time_of (created ctx order reason now) = now
time_of (claimed_next ctx agent now) = now
time_of (succeeded ctx id agent native now) = now
time_of (failed_with ctx id agent code message now) = now

-- The job that a call hands out, and the queue after it.
abbrev pub call : Call → Queue → Option PrintJob × Queue
call (created ctx order reason now) q = (none, create_print_job ctx order reason now q)
call (claimed_next ctx agent now) q = claim_next_job ctx agent now q
call (succeeded ctx id agent native now) q = (none, (mark_success ctx id agent native now q).1)
call (failed_with ctx id agent code message now) q =
    (none, (mark_failure ctx id agent code message now q).1)

abbrev pub run : List Call → Queue → Queue
run [] q = q
run (c ∷ cs) q = run cs (call c q).1

-- The jobs that the calls hand out.
abbrev pub handed : List Call → Queue → List (Option PrintJob)
handed [] q = []
handed (c ∷ cs) q = (call c q).0 ∷ handed cs (call c q).1

-- A job that was claimed at `t`, or is finished.
abbrev is_taken : ℕ → PrintJob → Bool
is_taken t j = elim j.status [
  | pending ↦ false
  | claimed ↦ elim j.claimed_at [ none ↦ false | some u ↦ u == t ]
  | _ ↦ true
]

-- Every row of the id is taken, and no new row will have it.
abbrev Taken : ℕ → ℕ → Queue → Type 0
Taken k t q = All (λ j. j.id ≡ k → is_taken t j ≡ true) q.jobs × (k < q.next_id)

module _ (k t : ℕ) where
  -- A row that is claimable by `now` is not one that was claimed at `t`, within the five minutes.
  not_claimable :
      (ctx : TenantContext) (now : ℕ) (j : PrintJob)
      → now ≤ t + claim_timeout_ms
      → is_taken t j ≡ true
      → is_claimable ctx now j ≡ true
      → ⊥
  not_claimable ctx now j soon taken free = ground arith

  -- The job that is handed out within the five minutes is another one, and the row stays taken.
  claim_next_job-Taken :
      (ctx : TenantContext) (agent : String) (now : ℕ) (q : Queue)
      → now ≤ t + claim_timeout_ms
      → Taken k t q
      → ((j : PrintJob) → (claim_next_job ctx agent now q).0 ≡ some j → j.id ≢ k)
        × Taken k t (claim_next_job ctx agent now q).1
  unfolding claim_next_job
  claim_next_job-Taken ctx agent now q soon (rows, fresh) = go (oldest found) refl
    where
      found : List PrintJob
      found = keep (is_claimable ctx now) q.jobs

      other_id : (m : PrintJob) → oldest found ≡ some m → m.id ≢ k
      other_id m e same =
          let (taken, free) =
            oldest-All (λ j. (j.id ≡ k → is_taken t j ≡ true) × (is_claimable ctx now j ≡ true))
              found m
              (keep-All (λ j. j.id ≡ k → is_taken t j ≡ true) (is_claimable ctx now) q.jobs rows)
              e in
          not_claimable ctx now m soon (taken same) free

      go :
          (o : Option PrintJob)
          → oldest found ≡ o
          → let r : Option PrintJob × Queue = elim o [
            | none ↦ (none, q)
            | some j ↦ (
              some (claim agent now j),
              record q { jobs = update_where (λ i. i.id == j.id) (claim agent now) q.jobs },
            )
          ] in
            ((j : PrintJob) → r.0 ≡ some j → j.id ≢ k) × Taken k t r.1
      go none e = (λ j h. absurd (cc), (rows, fresh))
      go (some m) e = (
        λ j h same.
            other_id m e
              (ap (λ (i : PrintJob). i.id) (some-injective (claim agent now m) j h) ∙ same),
        (
          update_where-All (λ j. j.id ≡ k → is_taken t j ≡ true) (λ i. i.id == m.id)
              (claim agent now) q.jobs
              (λ i old hit same. absurd (other_id m e (sym ((==_iff i.id m.id).0 hit) ∙ same)))
              rows,
          fresh,
        ),
      )

  -- No call hands out the row within the five minutes, and it stays taken.
  call-Taken :
      (c : Call) (q : Queue)
      → time_of c ≤ t + claim_timeout_ms
      → Taken k t q
      → ((j : PrintJob) → (call c q).0 ≡ some j → j.id ≢ k) × Taken k t (call c q).1
  unfolding create_print_job mark_success mark_failure
  call-Taken (claimed_next ctx agent now) q soon h = claim_next_job-Taken ctx agent now q soon h
  call-Taken (created ctx order reason now) q soon (rows, fresh) =
      (λ j e. absurd (cc), go (real_store ctx.store_id))
    where
      go :
          (o : Option ℕ)
          → Taken k t (elim o as (λ x. Queue) [
            | none ↦ q
            | some store ↦ record {
              jobs = q.jobs ++ new_job q.next_id ctx.tenant_id store order reason now ∷ [];
              next_id = suc q.next_id;
            }
          ])
      go none = (rows, fresh)
      go (some store) = (
        All-append (λ (j : PrintJob). j.id ≡ k → is_taken t j ≡ true) q.jobs _ rows
            ((λ same. absurd (omega arith)), tt),
        omega arith,
      )
  call-Taken (succeeded ctx id agent native now) q soon (rows, fresh) = (
    λ j e. absurd (cc),
    (
      update_where-All (λ j. j.id ≡ k → is_taken t j ≡ true) (is_held_by ctx id agent) _ q.jobs
          (λ j old hit same. refl) rows,
      fresh,
    ),
  )
  call-Taken (failed_with ctx id agent code message now) q soon (rows, fresh) = (
    λ j e. absurd (cc),
    (
      update_where-All (λ j. j.id ≡ k → is_taken t j ≡ true) (is_held_by ctx id agent) _ q.jobs
          (λ j old hit same. refl) rows,
      fresh,
    ),
  )

  handed-distinct :
      (cs : List Call) (q : Queue)
      → All (λ c. time_of c ≤ t + claim_timeout_ms) cs
      → Taken k t q
      → All (λ (o : Option PrintJob). (j : PrintJob) → o ≡ some j → j.id ≢ k) (handed cs q)
  handed-distinct [] q soon h = tt
  handed-distinct (c ∷ cs) q (now, soon) h =
      let (other, next) = call-Taken c q now h in (other, handed-distinct cs (call c q).1 soon next)

claimed-Taken :
    (id : ℕ) (agent : String) (now : ℕ) (js : List PrintJob)
    → All
        (λ j. j.id ≡ id → is_taken now j ≡ true)
        (update_where (λ i. i.id == id) (claim agent now) js)
claimed-Taken id agent now [] = tt
claimed-Taken id agent now (j ∷ js) = (
  if-elim (λ (i : PrintJob). i.id ≡ id → is_taken now i ≡ true) (j.id == id)
      (λ hit same. ground arith) (λ miss same. absurd (ground arith)),
  claimed-Taken id agent now js,
)

claim_next_job-takes :
    (ctx : TenantContext) (agent : String) (now : ℕ) (q : Queue)
    → All (λ i. i.id < q.next_id) q.jobs
    → (j : PrintJob) → (claim_next_job ctx agent now q).0 ≡ some j
    → Taken j.id now (claim_next_job ctx agent now q).1
unfolding claim_next_job
claim_next_job-takes ctx agent now q ids = go (oldest found) refl
  where
    found : List PrintJob
    found = keep (is_claimable ctx now) q.jobs

    go :
        (o : Option PrintJob)
        → oldest found ≡ o
        → let r : Option PrintJob × Queue = elim o [
          | none ↦ (none, q)
          | some j ↦ (
            some (claim agent now j),
            record q { jobs = update_where (λ i. i.id == j.id) (claim agent now) q.jobs },
          )
        ] in
          (j : PrintJob) → r.0 ≡ some j → Taken j.id now r.1
    go none e j h = absurd (cc)
    go (some m) e j h =
        let same : m.id ≡ j.id =
          ap (λ (i : PrintJob). i.id) (some-injective (claim agent now m) j h) in
        let below : m.id < q.next_id =
          (oldest-All (λ i. (i.id < q.next_id) × (is_claimable ctx now i ≡ true)) found m
            (keep-All (λ i. i.id < q.next_id) (is_claimable ctx now) q.jobs ids) e).0 in
        subst
          (λ id.
            Taken id now
              (record q { jobs = update_where (λ i. i.id == m.id) (claim agent now) q.jobs }))
          same (claimed-Taken m.id agent now q.jobs, below)

-- In a queue whose ids are all below the next id, after a job was handed to an agent no call of the next
-- five minutes hands it to an agent again, whatever was created, claimed and reported in between.
pub claim_next_job-IsExclusive :
    (ctx : TenantContext) (agent : String) (now : ℕ) (q q' : Queue) (j : PrintJob) (cs : List Call)
    → All (λ i. i.id < q.next_id) q.jobs
    → claim_next_job ctx agent now q ≡ (some j, q')
    → All (λ c. time_of c ≤ now + claim_timeout_ms) cs
    → All (λ (o : Option PrintJob). (i : PrintJob) → o ≡ some i → i.id ≢ j.id) (handed cs q')
claim_next_job-IsExclusive ctx agent now q q' j cs ids h soon =
    handed-distinct j.id now cs q' soon (
      subst (λ (x : Option PrintJob × Queue). x.0 ≡ some j → Taken j.id now x.1) h
        (claim_next_job-takes ctx agent now q ids j) refl)
