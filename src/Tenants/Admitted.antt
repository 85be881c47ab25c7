-- ===== src/Tenants/Admitted.antt =====
-- backend/src/middleware/tenant.middleware.ts: whose data a request reaches.
use text.Mathlib.Text.{◌==◌ as str_eq}
use generic_ecommerce_store.Common.{
  ℕ, Bool, Option, none, some, List, String, ◌||◌, if◌then◌else◌, false, ◌≡◌, refl, sym, ap, ◌∙◌,
  subst, if-elim,
}
use generic_ecommerce_store.Common.Lists.{find?, IsIn, find?-IsIn}
use generic_ecommerce_store.Tenancy.{TenantContext}
use generic_ecommerce_store.Stores.{Store, Stores, resolve_active_store}
use generic_ecommerce_store.Stores.Defaults.{IsSound}
use generic_ecommerce_store.Stores.Open.{IsServed, resolve_active_store-IsServed}
use generic_ecommerce_store.Tenants.{
  Tenant, TenantStatus, active, suspended, deleted, has_id, has_slug,
}
use generic_ecommerce_store.Tenants.Resolving.{
  Request, Authorization, Token, Resolution, Choice, resolved, missing, platform, chosen, choice_of,
  first_of, by_claim, by_subdomain, by_apex, by_host, by_headers, token_of, is_admin_caller,
  subdomain_of, context_of, admit, settle, resolve_tenant,
}

-- The store of a context, as `resolveActiveStore` gave it.
abbrev pub store_of : TenantContext → Option (ℕ × Bool)
store_of ctx = elim ctx.store_id [ none ↦ none | some id ↦ some (id, ctx.is_default_store) ]

-- A tenant of the table that is active, and a store of it, or all its stores for an administrator.
abbrev pub IsAdmitted : List Tenant → List Store → Bool → TenantContext → Type 0
IsAdmitted tenants stores is_admin ctx =
    ((t : Tenant) × IsIn t tenants × (t.id ≡ ctx.tenant_id) × (t.status ≡ active))
    × IsServed ctx.tenant_id is_admin stores (store_of ctx)

abbrev Admits : List Tenant → List Store → Bool → Resolution → Type 0
Admits tenants stores is_admin (resolved ctx) = IsAdmitted tenants stores is_admin ctx
Admits tenants stores is_admin _ = Unit

-- A chosen tenant is one of the table.
abbrev IsListed : List Tenant → Choice → Type 0
IsListed tenants (chosen t) = IsIn t tenants
IsListed tenants _ = Unit

abbrev IsFound : List Tenant → Option Tenant → Type 0
IsFound tenants none = Unit
IsFound tenants (some t) = IsIn t tenants

find?-IsFound : (p : Tenant → Bool) (tenants : List Tenant) → IsFound tenants (find? p tenants)
find?-IsFound p tenants = go (find? p tenants) refl
  where
    go : (o : Option Tenant) → find? p tenants ≡ o → IsFound tenants o
    go none e = tt
    go (some t) e = (find?-IsIn p tenants t e).0

first_of-IsFound :
    (tenants : List Tenant) (o other : Option Tenant)
    → IsFound tenants o
    → IsFound tenants other
    → IsFound tenants (first_of o other)
first_of-IsFound tenants none other h k = k
first_of-IsFound tenants (some t) other h k = h

choice_of-IsListed :
    (tenants : List Tenant) (o : Option Tenant) → IsFound tenants o → IsListed tenants (choice_of o)
choice_of-IsListed tenants none h = tt
choice_of-IsListed tenants (some t) h = h

by_claim-IsFound : (tenants : List Tenant) (o : Option Token) → IsFound tenants (by_claim tenants o)
by_claim-IsFound tenants none = tt
by_claim-IsFound tenants (some token) = go token.claimed_tenant
  where
    go :
        (o : Option ℕ)
        → IsFound tenants (elim o [ none ↦ none | some id ↦ find? (has_id id) tenants ])
    go none = tt
    go (some id) = find?-IsFound (has_id id) tenants

module _ (tenants : List Tenant) (root : ℕ) (r : Request) where
  by_apex-IsListed :
      (host : String) (token : Option Token) → IsListed tenants (by_apex tenants host token)
  by_apex-IsListed host token = choice_of-IsListed tenants _ (
      first_of-IsFound tenants _ _ (find?-IsFound _ tenants)
        (first_of-IsFound tenants _ _ (by_claim-IsFound tenants token) (find?-IsFound _ tenants)))

  by_headers-IsListed :
      (id : Option ℕ) (slug : Option String) → IsListed tenants (by_headers tenants root r id slug)
  by_headers-IsListed (some id) slug =
      choice_of-IsListed tenants _ (find?-IsFound (has_id id) tenants)
  by_headers-IsListed none (some slug) =
      choice_of-IsListed tenants _ (find?-IsFound (has_slug slug) tenants)
  by_headers-IsListed none none =
      let sub = subdomain_of root r.labels in
      if-elim (IsListed tenants) (str_eq sub "admin") (λ admin. tt)
        (λ plain.
          if-elim (IsListed tenants) (str_eq sub "" || str_eq sub "www")
            (λ apex. by_apex-IsListed r.hostname (token_of r.authorization))
            (λ named. choice_of-IsListed tenants _ (find?-IsFound _ tenants)))

  admit-Admits :
      (table : Stores) (t : Tenant) (status : TenantStatus)
      → IsIn t tenants
      → t.status ≡ status
      → IsSound t.id table
      → Admits tenants table.rows
          (is_admin_caller (token_of r.authorization))
          (admit table.rows r t.id status)
  admit-Admits table t deleted i e sound = tt
  admit-Admits table t suspended i e sound = tt
  admit-Admits table t active i e sound =
      let is_admin = is_admin_caller (token_of r.authorization) in
      let o = resolve_active_store table.rows t.id r.store_header is_admin in
      go o (resolve_active_store-IsServed t.id table sound is_admin r.store_header)
    where
      go :
          (o : Option (ℕ × Bool))
          → IsServed t.id (is_admin_caller (token_of r.authorization)) table.rows o
          → IsAdmitted tenants table.rows
              (is_admin_caller (token_of r.authorization))
              (context_of t.id o)
      go none served = ((t, i, refl, e), served)
      go (some x) served = ((t, i, refl, e), served)

  settle-Admits :
      (table : Stores) (c : Choice)
      → IsListed tenants c
      → ((t : Tenant) → IsIn t tenants → IsSound t.id table)
      → Admits tenants table.rows
          (is_admin_caller (token_of r.authorization))
          (settle table.rows r c)
  settle-Admits table missing h sound = tt
  settle-Admits table platform h sound = tt
  settle-Admits table (chosen t) h sound = admit-Admits table t t.status h refl (sound t h)

  -- Where every tenant keeps one active default store, a request that is let through for a tenant is for an
  -- active tenant of the table, with an active store of that very tenant, or with all its stores if its
  -- token proves an administrator. A request for the admin subdomain, which goes on for no tenant, is another
  -- outcome.
  pub resolve_tenant-IsAdmitted :
      (table : Stores)
      → ((t : Tenant) → IsIn t tenants → IsSound t.id table)
      → (ctx : TenantContext) → resolve_tenant tenants table.rows root r ≡ resolved ctx
      → IsAdmitted tenants table.rows (is_admin_caller (token_of r.authorization)) ctx
  unfolding resolve_tenant
  resolve_tenant-IsAdmitted table sound ctx h =
      subst (Admits tenants table.rows (is_admin_caller (token_of r.authorization))) h (
        settle-Admits table (by_headers tenants root r r.tenant_id_header r.tenant_slug_header)
          (by_headers-IsListed r.tenant_id_header r.tenant_slug_header) sound)

-- The answer without the store.
abbrev pub without_store : Resolution → Resolution
without_store (resolved ctx) = resolved (context_of ctx.tenant_id none)
without_store x = x

settle_any_token :
    (stores : List Store) (r : Request) (other : Authorization) (c : Choice)
    → without_store (settle stores r c)
      ≡ without_store (settle stores (record r { authorization = other }) c)
settle_any_token stores r other missing = refl
settle_any_token stores r other platform = refl
settle_any_token stores r other (chosen t) = go t.status
  where
    same :
        (o p : Option (ℕ × Bool))
        → without_store (resolved (context_of t.id o))
          ≡ without_store (resolved (context_of t.id p))
    same none none = refl
    same none (some x) = refl
    same (some x) none = refl
    same (some x) (some y) = refl

    go :
        (s : TenantStatus)
        → without_store (admit stores r t.id s)
          ≡ without_store (admit stores (record r { authorization = other }) t.id s)
    go deleted = refl
    go suspended = refl
    go active = same _ _

-- On a host with a subdomain of its own no token changes the tenant that a request is for, nor whether
-- it is let through: the host wins over the token.
pub resolve_tenant-host_wins :
    (tenants : List Tenant) (stores : List Store) (root : ℕ) (r : Request) (other : Authorization)
    → r.tenant_id_header ≡ none
    → r.tenant_slug_header ≡ none
    → (str_eq (subdomain_of root r.labels) "" || str_eq (subdomain_of root r.labels) "www") ≡ false
    → without_store (resolve_tenant tenants stores root r)
      ≡ without_store (resolve_tenant tenants stores root (record r { authorization = other }))
unfolding resolve_tenant
resolve_tenant-host_wins tenants stores root r other no_id no_slug named =
    let r' : Request = record r { authorization = other } in
    ap (λ c. without_store (settle stores r c))
      (no_headers r ∙ (by_name r.authorization ∙ sym (by_name other)) ∙ sym (no_headers r'))
    ∙ settle_any_token stores r other
        (by_headers tenants root r' r.tenant_id_header r.tenant_slug_header)
  where
    sub : String
    sub = subdomain_of root r.labels

    no_headers :
        (q : Request)
        → by_headers tenants root q r.tenant_id_header r.tenant_slug_header
          ≡ by_host tenants q (subdomain_of root q.labels)
    no_headers q =
        ap (λ i. by_headers tenants root q i r.tenant_slug_header) no_id
        ∙ ap (by_headers tenants root q none) no_slug

    by_name :
        (a : Authorization)
        → by_host tenants (record r { authorization = a }) sub
          ≡ (if str_eq sub "admin" then platform else by_subdomain tenants r.hostname sub)
    by_name a =
        ap
          (λ b.
            if str_eq sub "admin"
            then platform
            else if b
            then by_apex tenants r.hostname (token_of a)
            else by_subdomain tenants r.hostname sub)
          named
