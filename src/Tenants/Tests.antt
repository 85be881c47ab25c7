-- ===== src/Tenants/Tests.antt =====
-- Two tenants that are made, suspended and restored, and requests to their hosts.
use generic_ecommerce_store.Common.{
  subst, true, false, none, some, List, [], ◌∷◌, ◌≡◌, refl, inl, inr, arith,
}
use generic_ecommerce_store.Common.Lists.{IsIn}
use generic_ecommerce_store.Tenancy.{TenantContext}
use generic_ecommerce_store.Stores.{
  Patch, suspended as store_off, asked, no_store, resolve_active_store,
}
use generic_ecommerce_store.Stores.Defaults.{IsSound}
use generic_ecommerce_store.Stores.Open.{update_call as update_store, IsServed}
use generic_ecommerce_store.Stores.Open.{run as run_stores}
use generic_ecommerce_store.Tenants.{
  Platform, CreateTenantInput, AuditActor, Tenant, create_tenant, provision, admin_role,
}
use generic_ecommerce_store.Tenants.Calls.{
  Call, create_call, status_call, delete_call, update_call as rename_call, run,
}
use generic_ecommerce_store.Tenants.Created.{HasFreshIds, create_tenant-IsServed}
use generic_ecommerce_store.Tenants.Resolving.{Request, Token, bearer, cookie, resolve_tenant}
use generic_ecommerce_store.Tenants.Admitted.{
  IsAdmitted, without_store, resolve_tenant-IsAdmitted, resolve_tenant-host_wins,
}

abbrev empty : Platform
empty = record {
  tenants = [];
  next_tenant = 1;
  stores = record { rows = []; next_id = 1 };
  roles = [];
  next_role = 1;
  users = [];
  next_user = 1;
  user_roles = [];
  audit = [];
}

abbrev actor : AuditActor
actor = record { user_id = some 9; username = none; request_id = some "r-1" }

abbrev input : CreateTenantInput
input = record {
  slug = "tea";
  name = "Tea";
  plan = none;
  admin_username = "ann";
  hashed_password = "x1";
}

abbrev calls : List (AuditActor × Call)
calls =
    (actor, create_call input "h1" "h2")
    ∷ (actor, create_call input "h3" "h4")
    ∷ (actor, status_call 1 true)
    ∷ (actor, delete_call 1)
    ∷ (actor, rename_call 1 none (some none))
    ∷ (actor, status_call 1 false)
    ∷ (actor, status_call 5 false)
    ∷ []

empty-HasFreshIds : HasFreshIds empty
empty-HasFreshIds = record {
  fresh = λ i h. omega arith;
  unique = λ i. omega arith;
  unclaimed = omega arith;
}

-- The platform with the new tenant.
abbrev after : Platform
after = provision empty input actor "h1" "h2" (admin_role empty none)

abbrev suspension : Patch
suspension = record { name = none; slug = none; status = some store_off }

create_tenant-IsServed_example :
    IsServed 1 true (run_stores after.stores (update_store 1 1 suspension ∷ [])).rows (
      resolve_active_store
        (run_stores after.stores (update_store 1 1 suspension ∷ [])).rows
        1
        (asked (some 8))
        true)
unfolding create_tenant
create_tenant-IsServed_example =
    create_tenant-IsServed empty empty-HasFreshIds input actor "h1" "h2" after refl
      (update_store 1 1 suspension ∷ []) (asked (some 8)) true

-- A token of tenant 4, on the host of tenant 1.
abbrev token : Token
token = record { verified_roles = some ("ADMIN" ∷ []); claimed_tenant = some 4 }

abbrev request : Request
request = record {
  hostname = "tea.yourapp.com";
  labels = "tea" ∷ "yourapp" ∷ "com" ∷ [];
  tenant_id_header = none;
  tenant_slug_header = none;
  store_header = no_store;
  authorization = bearer (some token);
}

after-IsSound : (t : Tenant) → IsIn t after.tenants → IsSound t.id after.stores
after-IsSound t (inl same) =
    subst (λ (x : Tenant). IsSound x.id after.stores) same
      (record {
        fresh = λ i h. ground (arith, h);
        unique = λ i. ground arith;
        served = refl;
        single = omega arith;
      })
after-IsSound t (inr later) = elim later [ ]

abbrev ctx : TenantContext
ctx = record { tenant_id = 1; store_id = some 1; is_default_store = true }

resolve_tenant-IsAdmitted_example : IsAdmitted after.tenants after.stores.rows true ctx
unfolding resolve_tenant resolve_active_store
resolve_tenant-IsAdmitted_example =
    resolve_tenant-IsAdmitted after.tenants 2 request after.stores after-IsSound ctx refl

resolve_tenant-host_wins_example :
    without_store (resolve_tenant after.tenants after.stores.rows 2 request)
    ≡ without_store (
        resolve_tenant after.tenants after.stores.rows 2
          (record request { authorization = cookie none }))
resolve_tenant-host_wins_example =
    resolve_tenant-host_wins after.tenants after.stores.rows 2 request (cookie none) refl refl refl
