-- ===== src/Tenants/Resolving.antt =====
-- backend/src/middleware/tenant.middleware.ts: the tenant and the store of a request.
-- The results of `verifyToken` and of `jwt.decode` on the request's token are in the token; header ids that
-- are no numbers, which the database client refuses, have no value here.
use text.Mathlib.Text.{◌==◌ as str_eq}
use generic_ecommerce_store.Common.{
  ℕ, Bool, Option, none, some, List, [], ◌∷◌, String, ◌||◌, if◌then◌else◌, false, leb,
}
use generic_ecommerce_store.Common.Lists.{any, find?, length}
use generic_ecommerce_store.Tenancy.{TenantContext}
use generic_ecommerce_store.Stores.{Store, StoreHeader, resolve_active_store}
use generic_ecommerce_store.Tenants.{
  Tenant, TenantStatus, active, suspended, deleted, has_id, has_slug,
}

-- What `verifyToken` gives, its roles, and the tenant that `jwt.decode` reads without a check.
pub record Token : Type 0 where
  pub verified_roles : Option (List String)
  pub claimed_tenant : Option ℕ

-- The token is a Bearer header's, if there is one, and else the cookie's.
pub data Authorization : Type 0 where
  bearer cookie : Option Token → Authorization

pub record Request : Type 0 where
  pub hostname : String
  pub labels : List String
  pub tenant_id_header : Option ℕ
  pub tenant_slug_header : Option String
  pub store_header : StoreHeader
  pub authorization : Authorization

-- How a request is answered or goes on.
pub data Resolution : Type 0 where
  not_found store_suspended super_admin : Resolution
  resolved : TenantContext → Resolution

abbrev pub token_of : Authorization → Option Token
token_of (bearer token) = token
token_of (cookie token) = token

abbrev pub is_admin_name : String → Bool
is_admin_name name = str_eq name "ADMIN" || str_eq name "SUPER_ADMIN"

abbrev pub has_admin_role : Option (List String) → Bool
has_admin_role none = false
has_admin_role (some roles) = any is_admin_name roles

abbrev pub is_admin_caller : Option Token → Bool
is_admin_caller none = false
is_admin_caller (some token) = has_admin_role token.verified_roles

-- `hostname.split('.')` of at most `root_labels` labels has no subdomain.
abbrev pub first_label : List String → String
first_label [] = ""
first_label (l ∷ ls) = l

abbrev pub subdomain_of : ℕ → List String → String
subdomain_of root_labels labels = if leb (length labels) root_labels then "" else first_label labels

abbrev pub is_domain : String → Option String → Bool
is_domain host none = false
is_domain host (some domain) = str_eq domain host

-- The tenant that the steps settle on, or the answer they give.
pub data Choice : Type 0 where
  missing platform : Choice
  chosen : Tenant → Choice

abbrev pub choice_of : Option Tenant → Choice
choice_of none = missing
choice_of (some t) = chosen t

-- The first that is there.
abbrev pub first_of : Option Tenant → Option Tenant → Option Tenant
first_of none other = other
first_of (some t) other = some t

abbrev pub by_claim : List Tenant → Option Token → Option Tenant
by_claim tenants none = none
by_claim tenants (some token) = elim token.claimed_tenant [
  | none ↦ none
  | some id ↦ find? (has_id id) tenants
]

abbrev pub by_subdomain : List Tenant → String → String → Choice
by_subdomain tenants host slug =
    choice_of (find? (λ t. is_domain host t.custom_domain || has_slug slug t) tenants)

-- The host's own domain, then the token, then the default tenant.
abbrev pub by_apex : List Tenant → String → Option Token → Choice
by_apex tenants host token = choice_of (
    first_of (find? (λ t. is_domain host t.custom_domain) tenants)
      (first_of (by_claim tenants token) (find? (has_slug "app") tenants)))

abbrev pub by_host : List Tenant → Request → String → Choice
by_host tenants r sub =
    if str_eq sub "admin"
    then platform
    else if str_eq sub "" || str_eq sub "www"
    then by_apex tenants r.hostname (token_of r.authorization)
    else by_subdomain tenants r.hostname sub

abbrev pub by_headers : List Tenant → ℕ → Request → Option ℕ → Option String → Choice
by_headers tenants root r (some id) slug = choice_of (find? (has_id id) tenants)
by_headers tenants root r none (some slug) = choice_of (find? (has_slug slug) tenants)
by_headers tenants root r none none = by_host tenants r (subdomain_of root r.labels)

abbrev pub context_of : ℕ → Option (ℕ × Bool) → TenantContext
context_of tenant none = record { tenant_id = tenant; store_id = none; is_default_store = false }
context_of tenant (some (id, is_default)) = record {
  tenant_id = tenant;
  store_id = some id;
  is_default_store = is_default;
}

abbrev pub admit : List Store → Request → ℕ → TenantStatus → Resolution
admit stores r tenant deleted = not_found
admit stores r tenant suspended = store_suspended
admit stores r tenant active = resolved (
    context_of tenant (
      resolve_active_store stores tenant r.store_header
        (is_admin_caller (token_of r.authorization))))

abbrev pub settle : List Store → Request → Choice → Resolution
settle stores r missing = not_found
settle stores r platform = super_admin
settle stores r (chosen t) = admit stores r t.id t.status

unfoldable pub resolve_tenant : List Tenant → List Store → ℕ → Request → Resolution
resolve_tenant tenants stores root r =
    settle stores r (by_headers tenants root r r.tenant_id_header r.tenant_slug_header)
