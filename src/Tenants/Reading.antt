-- ===== src/Tenants/Reading.antt =====
-- backend/src/services/tenantManagement.service.ts: the list of tenants and the reading of the audit log.
-- A negative limit, which the minimum with 200 lets through, has no value here.
use Prim.Native.Nat.{◌≤◌}
use text.Mathlib.Text.{◌==◌ as str_eq}
use generic_ecommerce_store.Common.{
  ℕ, zero, suc, Bool, Option, none, some, List, [], ◌∷◌, map, String, ◌==◌, ◌&&◌, ◌||◌, not,
  if◌then◌else◌, true, false, ltb, arith,
}
use generic_ecommerce_store.Common.Lists.{keep, length}
use generic_ecommerce_store.Tenants.{
  active, suspended, deleted, Tenant, TenantStatus, AuditRow, AuditAction, tenant_created,
  tenant_suspended, tenant_restored, tenant_deleted, tenant_updated, tenant_tokens_regenerated,
}

-- `TenantListItem`
pub record TenantListItem : Type 0 where
  pub id : ℕ
  pub slug : String
  pub name : String
  pub status : TenantStatus
  pub plan : Option String
  pub has_reporting_token : Bool
  pub has_print_key : Bool

abbrev pub is_some : Option String → Bool
is_some none = false
is_some (some s) = true

abbrev status_name : TenantStatus → String
status_name active = "ACTIVE"
status_name suspended = "SUSPENDED"
status_name deleted = "DELETED"

abbrev is_status_name : String → Bool
is_status_name s = str_eq s "ACTIVE" || (str_eq s "SUSPENDED" || str_eq s "DELETED")

-- The `where` of `listTenants`; an unknown filter counts as none.
abbrev listed : Option String → Tenant → Bool
listed none t = not (str_eq (status_name t.status) "DELETED")
listed (some filter) t =
    if str_eq filter "all"
    then true
    else if is_status_name filter
    then str_eq (status_name t.status) filter
    else not (str_eq (status_name t.status) "DELETED")

abbrev pub list_item : Tenant → TenantListItem
list_item t = record {
  id = t.id;
  slug = t.slug;
  name = t.name;
  status = t.status;
  plan = t.plan;
  has_reporting_token = is_some t.reporting_token_hash;
  has_print_key = is_some t.print_agent_key_hash;
}

abbrev pub list_tenants : List Tenant → Option String → List TenantListItem
list_tenants tenants filter = map list_item (keep (listed filter) tenants)

abbrev action_name : AuditAction → String
action_name tenant_created = "TENANT_CREATED"
action_name tenant_suspended = "TENANT_SUSPENDED"
action_name tenant_restored = "TENANT_RESTORED"
action_name tenant_deleted = "TENANT_DELETED"
action_name tenant_updated = "TENANT_UPDATED"
action_name tenant_tokens_regenerated = "TENANT_TOKENS_REGENERATED"

abbrev same_target : Option ℕ → AuditRow → Bool
same_target none r = true
same_target (some id) r = r.target_tenant_id == id

-- An empty action is none.
abbrev same_action : Option String → AuditRow → Bool
same_action none r = true
same_action (some action) r = str_eq action "" || str_eq (action_name r.action) action

abbrev taken : Option ℕ → ℕ
taken none = 100
taken (some n) = if ltb n 200 then n else 200

abbrev first_rows : ℕ → List AuditRow → List AuditRow
first_rows zero rows = []
first_rows (suc n) [] = []
first_rows (suc n) (r ∷ rows) = r ∷ first_rows n rows

abbrev pub get_audit_log : List AuditRow → Option ℕ → Option String → Option ℕ → List AuditRow
get_audit_log audit tenant action limit =
    first_rows (taken limit) (keep (λ r. same_target tenant r && same_action action r) audit)

length-first_rows : (n : ℕ) (rows : List AuditRow) → length (first_rows n rows) ≤ n
length-first_rows zero rows = omega arith
length-first_rows (suc n) [] = omega arith
length-first_rows (suc n) (r ∷ rows) = omega (arith, length-first_rows n rows)

-- No reading is longer than 200 rows.
pub length-get_audit_log :
    (audit : List AuditRow) (tenant : Option ℕ) (action : Option String) (limit : Option ℕ)
    → length (get_audit_log audit tenant action limit) ≤ 200
length-get_audit_log audit tenant action none = omega (arith, length-first_rows 100 _)
length-get_audit_log audit tenant action (some n) = omega (arith, length-first_rows _ _, at_most n)
  where
    at_most : (n : ℕ) → (if ltb n 200 then n else 200) ≤ 200
    at_most n = ground arith
