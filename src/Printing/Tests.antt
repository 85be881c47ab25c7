-- ===== src/Printing/Tests.antt =====
-- Two agents of one store, and one job.
use generic_ecommerce_store.Common.{◌≡◌, ◌≢◌, Option, none, some, List, [], ◌∷◌, refl, true, arith}
use generic_ecommerce_store.Common.Lists.{All}
use generic_ecommerce_store.Tenancy.{TenantContext}
use generic_ecommerce_store.Printing.{
  PrintJob, Queue, order_created, claim_next_job, new_job, claim,
}
use generic_ecommerce_store.Printing.Exclusive.{
  Call, created, claimed_next, succeeded, handed, claim_next_job-IsExclusive,
}

abbrev ctx : TenantContext
ctx = record { tenant_id = 3; store_id = some 5; is_default_store = true }

abbrev queue : Queue
queue = record { jobs = new_job 1 3 5 7 order_created 10 ∷ []; next_id = 2 }

abbrev after : Queue
after = (claim_next_job ctx "a" 100 queue).1

abbrev calls : List Call
calls =
    claimed_next ctx "b" 2000
    ∷ created ctx 8 order_created 2500
    ∷ claimed_next ctx "b" 3000
    ∷ succeeded ctx 1 "a" none 4000
    ∷ claimed_next ctx "b" 5000
    ∷ []

claim_next_job-IsExclusive_example :
    All (λ (o : Option PrintJob). (i : PrintJob) → o ≡ some i → i.id ≢ 1) (handed calls after)
unfolding claim_next_job
claim_next_job-IsExclusive_example =
    claim_next_job-IsExclusive ctx "a" 100 queue after
      (claim "a" 100 (new_job 1 3 5 7 order_created 10)) calls (omega arith, tt) refl
      (omega arith, (omega arith, (omega arith, (omega arith, (omega arith, tt)))))
