-- ===== src/Tenants.antt =====
-- backend/src/services/tenantManagement.service.ts: the tenants of the platform, and the audit of what is
-- done to them. The tokens and the password's hash, which come from random bytes and a digest, are
-- arguments. The audit is kept newest first, as it is read.
pub mod Audited
pub mod Calls
pub mod Created
pub mod Resolving
pub mod Admitted
pub mod Reading
mod Tests
use text.Mathlib.Text.{◌==◌ as str_eq}
use generic_ecommerce_store.Pricing.{or_else}
use generic_ecommerce_store.Common.{
  ℕ, suc, Bool, Option, none, some, List, [], ◌∷◌, ◌++◌, map, String, ◌==◌, if◌then◌else◌, true,
  false,
}
use generic_ecommerce_store.Common.Lists.{any, find?}
use generic_ecommerce_store.Approval.{RoleRow}
use generic_ecommerce_store.Staff.{Assigned}
use generic_ecommerce_store.Stores.{Store, Stores, new_store}

pub data TenantStatus : Type 0 where
  active suspended deleted : TenantStatus

pub record Tenant : Type 0 where
  pub id : ℕ
  pub slug : String
  pub name : String
  pub custom_domain : Option String
  pub status : TenantStatus
  pub plan : Option String
  pub reporting_token_hash : Option String
  pub print_agent_key_hash : Option String

-- A row of `users`, as a new tenant's administrator has it.
pub record PlatformUser : Type 0 where
  pub id : ℕ
  pub username : String
  pub password : String
  pub approved : Bool
  pub tenant_id : ℕ

pub data AuditAction : Type 0 where
  tenant_created tenant_suspended tenant_restored tenant_deleted : AuditAction
  tenant_updated tenant_tokens_regenerated : AuditAction

-- The `detail` of an audit row.
pub data Detail : Type 0 where
  creation : String → String → Option String → Detail
  transition : TenantStatus → TenantStatus → Detail
  profile : String → Option String → Detail
  no_detail : Detail

pub record AuditActor : Type 0 where
  pub user_id : Option ℕ
  pub username : Option String
  pub request_id : Option String

pub record AuditRow : Type 0 where
  pub action : AuditAction
  pub target_tenant_id : ℕ
  pub actor_user_id : Option ℕ
  pub actor_username : String
  pub request_id : Option String
  pub detail : Detail

-- The tables, with the ids that the next rows get.
pub record Platform : Type 0 where
  pub tenants : List Tenant
  pub next_tenant : ℕ
  pub stores : Stores
  pub roles : List RoleRow
  pub next_role : ℕ
  pub users : List PlatformUser
  pub next_user : ℕ
  pub user_roles : List Assigned
  pub audit : List AuditRow

pub data TenantError : Type 0 where
  slug_exists tenant_missing : TenantError

pub data Result : Type 0 where
  fails : TenantError → Result
  gives : Platform → Result

abbrev pub has_id : ℕ → Tenant → Bool
has_id id t = t.id == id

abbrev pub has_slug : String → Tenant → Bool
has_slug slug t = str_eq t.slug slug

abbrev or_unknown : Option String → String
or_unknown none = "unknown"
or_unknown (some name) = name

abbrev pub audit_row : AuditAction → ℕ → AuditActor → Detail → AuditRow
audit_row action target actor detail = record {
  action = action;
  target_tenant_id = target;
  actor_user_id = actor.user_id;
  actor_username = or_unknown actor.username;
  request_id = actor.request_id;
  detail = detail;
}

abbrev pub record_tenant_audit : Platform → AuditAction → ℕ → AuditActor → Detail → Platform
record_tenant_audit p action target actor detail = record p {
  audit = audit_row action target actor detail ∷ p.audit;
}

-- `CreateTenantInput`, the password hashed.
pub record CreateTenantInput : Type 0 where
  pub slug : String
  pub name : String
  pub plan : Option String
  pub admin_username : String
  pub hashed_password : String

abbrev pub new_tenant : Platform → CreateTenantInput → String → String → Tenant
new_tenant p input reporting print = record {
  id = p.next_tenant;
  slug = input.slug;
  name = input.name;
  custom_domain = none;
  status = active;
  plan = input.plan;
  reporting_token_hash = some reporting;
  print_agent_key_hash = some print;
}

-- The tenant's default store.
abbrev pub main_store : Platform → CreateTenantInput → Store
main_store p input = record (new_store p.stores p.next_tenant input.name "main") {
  is_default = true;
}

abbrev pub add_store : Stores → Store → Stores
add_store t s = record { rows = t.rows ++ s ∷ []; next_id = suc t.next_id }

-- The ADMIN role, found or made.
abbrev pub admin_role : Platform → Option RoleRow → ℕ × Platform
admin_role p (some r) = (r.id, p)
admin_role p none = (
  p.next_role,
  record p {
    roles = p.roles ++ record { id = p.next_role; name = "ADMIN" } ∷ [];
    next_role = suc p.next_role;
  },
)

abbrev admin_user : Platform → CreateTenantInput → PlatformUser
admin_user p input = record {
  id = p.next_user;
  username = input.admin_username;
  password = input.hashed_password;
  approved = true;
  tenant_id = p.next_tenant;
}

-- The user's role at all stores.
abbrev admin_grant : Platform → ℕ → Assigned
admin_grant p role = record {
  user_id = p.next_user;
  role_id = role;
  tenant_id = some p.next_tenant;
  store_id = some 0;
}

-- The transaction of `createTenant`, with the ADMIN role's id.
abbrev pub provision :
    Platform → CreateTenantInput → AuditActor → String → String → ℕ × Platform → Platform
provision p input actor reporting print (role, q) =
    record_tenant_audit
      (record q {
        tenants = p.tenants ++ new_tenant p input reporting print ∷ [];
        next_tenant = suc p.next_tenant;
        stores = add_store p.stores (main_store p input);
        users = p.users ++ admin_user p input ∷ [];
        next_user = suc p.next_user;
        user_roles = p.user_roles ++ admin_grant p role ∷ [];
      })
      tenant_created p.next_tenant actor (creation input.slug input.name input.plan)

unfoldable pub create_tenant : Platform → CreateTenantInput → AuditActor → String → String → Result
create_tenant p input actor reporting print =
    if any (has_slug input.slug) p.tenants
    then fails slug_exists
    else gives (
        provision p input actor reporting print
          (admin_role p (find? (λ r. str_eq r.name "ADMIN") p.roles)))

-- `tx.tenant.update({ where: { id } })`
abbrev pub update_tenants : ℕ → (Tenant → Tenant) → List Tenant → List Tenant
update_tenants id f tenants = map (λ t. if t.id == id then f t else t) tenants

-- A transaction that reads the tenant, changes its row and records the change.
abbrev pub change_tenant :
    Platform
    → ℕ
    → AuditActor
    → AuditAction
    → (Tenant → Tenant)
    → (Tenant → Detail)
    → Option Tenant
    → Result
change_tenant p id actor action f detail none = fails tenant_missing
change_tenant p id actor action f detail (some t) = gives (
    record_tenant_audit (record p { tenants = update_tenants id f p.tenants }) action id actor
      (detail t))

abbrev pub status_action : TenantStatus → AuditAction
status_action suspended = tenant_suspended
status_action _ = tenant_restored

-- The status is one of ACTIVE and SUSPENDED: `true` is SUSPENDED.
abbrev pub wanted : Bool → TenantStatus
wanted true = suspended
wanted false = active

unfoldable pub set_tenant_status : Platform → ℕ → Bool → AuditActor → Result
set_tenant_status p id suspends actor =
    change_tenant p id actor (status_action (wanted suspends))
      (λ t. record t { status = wanted suspends }) (λ t. transition t.status (wanted suspends))
      (find? (has_id id) p.tenants)

unfoldable pub delete_tenant : Platform → ℕ → AuditActor → Result
delete_tenant p id actor =
    change_tenant p id actor tenant_deleted (λ t. record t { status = deleted })
      (λ t. transition t.status deleted) (find? (has_id id) p.tenants)

abbrev pub renamed : Option String → Option (Option String) → Tenant → Tenant
renamed name plan t = record t { name = or_else name t.name; plan = or_else plan t.plan }

unfoldable pub update_tenant :
    Platform → ℕ → Option String → Option (Option String) → AuditActor → Result
update_tenant p id name plan actor =
    change_tenant p id actor tenant_updated (renamed name plan)
      (λ t. profile (renamed name plan t).name (renamed name plan t).plan)
      (find? (has_id id) p.tenants)

unfoldable pub regenerate_tokens : Platform → ℕ → AuditActor → String → String → Result
regenerate_tokens p id actor reporting print =
    change_tenant p id actor tenant_tokens_regenerated
      (λ t. record t { reporting_token_hash = some reporting; print_agent_key_hash = some print })
      (λ t. no_detail) (find? (has_id id) p.tenants)
