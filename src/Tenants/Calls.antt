-- ===== src/Tenants/Calls.antt =====
-- backend/src/services/tenantManagement.service.ts: calls in turn, and what the log says after them.
use generic_ecommerce_store.Common.{ℕ, Bool, Option, List, [], ◌∷◌, String}
use generic_ecommerce_store.Tenants.Audited.{left}
use generic_ecommerce_store.Tenants.{
  AuditActor, Platform, Result, CreateTenantInput, create_tenant, set_tenant_status, delete_tenant,
  update_tenant, regenerate_tokens,
}

-- A call of the service; the tokens and the password are hashed.
pub data Call : Type 0 where
  create_call : CreateTenantInput → String → String → Call
  status_call : ℕ → Bool → Call
  delete_call : ℕ → Call
  update_call : ℕ → Option String → Option (Option String) → Call
  tokens_call : ℕ → String → String → Call

abbrev pub call : Platform → AuditActor × Call → Result
call p (actor, create_call input reporting print) = create_tenant p input actor reporting print
call p (actor, status_call id suspends) = set_tenant_status p id suspends actor
call p (actor, delete_call id) = delete_tenant p id actor
call p (actor, update_call id name plan) = update_tenant p id name plan actor
call p (actor, tokens_call id reporting print) = regenerate_tokens p id actor reporting print

-- The platform after calls in turn.
abbrev pub run : Platform → List (AuditActor × Call) → Platform
run p [] = p
run p (c ∷ later) = run (left p (call p c)) later
