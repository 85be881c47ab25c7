-- ===== src/Printing.antt =====
-- backend/src/services/printJob.service.ts: the queue of print jobs. Times are milliseconds and stand as
-- arguments; the payload of a job is left out. A call without a tenant context throws before it reads
-- anything; here there is one. SQL leaves open which of two jobs of the same
-- `createdAt` comes first: here it is the one that was inserted first.
pub mod Rows
pub mod Exclusive
mod Tests
use text.Mathlib.Text.{◌==◌ as str_eq}
use generic_ecommerce_store.Common.{
  ℕ, zero, suc, ◌+◌, ◌*◌, Bool, Option, none, some, List, [], ◌∷◌, ◌++◌, map, String, leb, ltb,
  ◌==◌, ◌&&◌, ◌||◌, if◌then◌else◌, true, false,
}
use generic_ecommerce_store.Common.Lists.{any, find?, keep}
use generic_ecommerce_store.Text.{is_empty}
use generic_ecommerce_store.Tenancy.{TenantContext, real_store}
use generic_ecommerce_store.Payments.{same_text}

pub data PrintJobStatus : Type 0 where
  pending claimed printed failed : PrintJobStatus

pub data PrintJobReason : Type 0 where
  order_created manual_reprint : PrintJobReason

pub record PrintJob : Type 0 where
  pub id : ℕ
  pub order_id : ℕ
  pub reason : PrintJobReason
  pub status : PrintJobStatus
  pub created_at : ℕ
  pub claimed_at : Option ℕ
  pub completed_at : Option ℕ
  pub failed_at : Option ℕ
  pub claimed_by_agent_id : Option String
  pub native_job_id : Option String
  pub attempt_count : ℕ
  pub last_error_code : Option String
  pub last_error_message : Option String
  pub tenant_id : ℕ
  pub store_id : ℕ

-- The table, and the id of the next row.
pub record Queue : Type 0 where
  pub jobs : List PrintJob
  pub next_id : ℕ

abbrev pub claim_timeout_ms : ℕ
claim_timeout_ms = 5 * 60 * 1000

abbrev pub is_claimed : PrintJobStatus → Bool
is_claimed claimed = true
is_claimed other = false

abbrev pub new_job : ℕ → ℕ → ℕ → ℕ → PrintJobReason → ℕ → PrintJob
new_job id tenant store order_id reason now = record {
  id = id;
  order_id = order_id;
  reason = reason;
  status = pending;
  created_at = now;
  claimed_at = none;
  completed_at = none;
  failed_at = none;
  claimed_by_agent_id = none;
  native_job_id = none;
  attempt_count = 0;
  last_error_code = none;
  last_error_message = none;
  tenant_id = tenant;
  store_id = store;
}

-- The scoped client refuses to create a job without a store; then the queue stays as it is.
unfoldable pub create_print_job : TenantContext → ℕ → PrintJobReason → ℕ → Queue → Queue
create_print_job ctx order_id reason now q = elim (real_store ctx.store_id) [
  | none ↦ q
  | some store ↦ record {
    jobs = q.jobs ++ new_job q.next_id ctx.tenant_id store order_id reason now ∷ [];
    next_id = suc q.next_id;
  }
]

-- "claimedAt" < NOW() - INTERVAL '5 minutes'
abbrev pub is_stale : ℕ → Option ℕ → Bool
is_stale now none = false
is_stale now (some t) = ltb (t + claim_timeout_ms) now

abbrev pub is_free : ℕ → PrintJob → Bool
is_free now j = elim j.status [ pending ↦ true | claimed ↦ is_stale now j.claimed_at | _ ↦ false ]

-- The store of a job is that of the context; a comparison with null is not true.
abbrev pub in_store : Option ℕ → ℕ → Bool
in_store none store = false
in_store (some n) store = n == store

abbrev pub is_claimable : TenantContext → ℕ → PrintJob → Bool
is_claimable ctx now j =
    is_free now j && (j.tenant_id == ctx.tenant_id && in_store ctx.store_id j.store_id)

-- The first job of the smallest `createdAt`.
abbrev pub older : PrintJob → Option PrintJob → PrintJob
older j none = j
older j (some k) = if leb j.created_at k.created_at then j else k

abbrev pub oldest : List PrintJob → Option PrintJob
oldest [] = none
oldest (j ∷ js) = some (older j (oldest js))

abbrev pub update_where : (PrintJob → Bool) → (PrintJob → PrintJob) → List PrintJob → List PrintJob
update_where p f [] = []
update_where p f (j ∷ js) = (if p j then f j else j) ∷ update_where p f js

abbrev pub claim : String → ℕ → PrintJob → PrintJob
claim agent now j = record j {
  status = claimed;
  claimed_by_agent_id = some agent;
  claimed_at = some now;
  completed_at = none;
  failed_at = none;
}

-- The claimed row as the statement returns it, if there is one.
unfoldable pub claim_next_job : TenantContext → String → ℕ → Queue → Option PrintJob × Queue
claim_next_job ctx agent now q = elim (oldest (keep (is_claimable ctx now) q.jobs)) [
  | none ↦ (none, q)
  | some j ↦ (
    some (claim agent now j),
    record q { jobs = update_where (λ k. k.id == j.id) (claim agent now) q.jobs },
  )
]

-- The filter of both `updateMany`: the caller's, and the tenant and real store that the scoped
-- client adds.
abbrev pub scoped_to : TenantContext → PrintJob → Bool
scoped_to ctx j =
    j.tenant_id == ctx.tenant_id
    && elim (real_store ctx.store_id) [ none ↦ true | some n ↦ n == j.store_id ]

abbrev pub is_held_by : TenantContext → ℕ → String → PrintJob → Bool
is_held_by ctx id agent j =
    j.id == id
    && (is_claimed j.status && (same_text j.claimed_by_agent_id agent && scoped_to ctx j))

-- What `updateMany` with a count that must not be 0 does; `false` is PRINT_JOB_NOT_FOUND.
abbrev update_held : (PrintJob → Bool) → (PrintJob → PrintJob) → Queue → Bool × Queue
update_held p f q = (any p q.jobs, record q { jobs = update_where p f q.jobs })

-- `data.nativeJobId || null`
abbrev non_empty : Option String → Option String
non_empty none = none
non_empty (some s) = if is_empty s then none else some s

unfoldable pub mark_success : TenantContext → ℕ → String → Option String → ℕ → Queue → Bool × Queue
mark_success ctx id agent native now = update_held (is_held_by ctx id agent) (λ j. record j {
  status = printed;
  completed_at = some now;
  failed_at = none;
  native_job_id = non_empty native;
})

unfoldable pub mark_failure :
    TenantContext → ℕ → String → String → String → ℕ → Queue → Bool × Queue
mark_failure ctx id agent code message now = update_held (is_held_by ctx id agent) (λ j. record j {
  status = failed;
  failed_at = some now;
  attempt_count = suc j.attempt_count;
  last_error_code = some code;
  last_error_message = some message;
})
