-- ===== src/Tenancy/Scoped.antt =====
-- backend/src/config/database.ts: what the rewritten queries are held to.
use text.Mathlib.Text.{◌==◌ as str_eq}
use text.Mathlib.TextEquality.{eq_iff}
use generic_ecommerce_store.Common.{
  ℕ, zero, suc, ◌≡◌, refl, subst, sym, ◌∙◌, ap, Bool, Option, none, some, String, if◌then◌else◌,
  true, false, arith, inl, inr, Bool-cases, ◌⊎◌,
}
use generic_ecommerce_store.Tenancy.{
  number, object, Fields, end, field, get_field, set_field, get_field-set_field, real_store,
  is_unscoped, is_store_scoped, includes, TenantContext,
}
use generic_ecommerce_store.Tenancy.Inject.{
  stamp_store, inject_fields, tenant_scoped_fields, store_scoped_fields,
}
use generic_ecommerce_store.Tenancy.Interceptor.{
  Operation, create, update, upsert, create_many, find_first, find_first_or_throw, find_many,
  update_many, delete, delete_many, count, aggregate, group_by, find_unique, find_unique_or_throw,
  create_many_and_return, update_many_and_return, Query, query, missing_store_context, held_store,
  scoped, scoped_row, filtered, redirected, with_nested, object_at, rewrite, all_operations,
  with_create, with_upsert, needs_store,
}

-- The object names the tenant, and the store where the table has one.
pub IsHeld : String → TenantContext → Fields → Type 0
IsHeld table ctx fs =
    (get_field "tenantId" fs ≡ number ctx.tenant_id)
    × ((n : ℕ) → held_store table ctx ≡ some n → get_field "storeId" fs ≡ number n)

real_store_idem : (s : Option ℕ) → real_store (real_store s) ≡ real_store s
real_store_idem none = refl
real_store_idem (some zero) = refl
real_store_idem (some (suc n)) = refl

stamp_store-IsHeld :
    (t : ℕ) (store : Option ℕ) (fs : Fields)
    → (get_field "tenantId" (stamp_store store (set_field "tenantId" (number t) fs)) ≡ number t)
      × ((n : ℕ)
          → store ≡ some n
          → get_field "storeId" (stamp_store store (set_field "tenantId" (number t) fs)) ≡ number n)
stamp_store-IsHeld t none fs =
    (get_field-set_field "tenantId" "tenantId" (number t) fs, λ n h. absurd (cc))
stamp_store-IsHeld t (some m) fs = (
  get_field-set_field "storeId" "tenantId" (number m) (set_field "tenantId" (number t) fs)
      ∙ get_field-set_field "tenantId" "tenantId" (number t) fs,
  λ n h.
      get_field-set_field "storeId" "storeId" (number m) (set_field "tenantId" (number t) fs)
      ∙ ground arith,
)

held_real :
    (table : String) (ctx : TenantContext)
    → real_store (held_store table ctx) ≡ held_store table ctx
held_real table ctx = elim (Bool-cases (is_store_scoped table)) [
  | inl yes_store ↦ rw (yes_store) (real_store_idem ctx.store_id)
  | inr no_store ↦ rw no_store refl
]

scoped-IsHeld :
    (table : String) (ctx : TenantContext) (fs : Fields) → IsHeld table ctx (scoped table ctx fs)
unfolding IsHeld
scoped-IsHeld table ctx fs =
    let (tenant, store) = stamp_store-IsHeld ctx.tenant_id (real_store (held_store table ctx)) fs in
    (tenant, λ n h. store n (held_real table ctx ∙ h))

-- A number that stands at a key which is no relation stays.
inject_fields-number :
    (t : ℕ) (s : Option ℕ) (k : String) (n : ℕ) (fs : Fields)
    → includes tenant_scoped_fields k ≡ false
    → includes store_scoped_fields k ≡ false
    → get_field k fs ≡ number n
    → get_field k (inject_fields t s fs) ≡ number n
unfolding inject_fields
inject_fields-number t s k n end a b h = absurd (cc)
inject_fields-number t s k n (field j v fs) a b h = elim (Bool-cases (str_eq j k)) [
  | inr other ↦
      let rest : get_field k fs ≡ number n =
        ap (λ b. if b then v else get_field k fs) (sym other) ∙ h in
      rw other (inject_fields-number t s k n fs a b rest)
  | inl same ↦
      let j_is_k : k ≡ j = sym ((eq_iff j k).0 same) in
      let not_tenant = subst (λ x. includes tenant_scoped_fields x ≡ false) j_is_k a in
      let not_store = subst (λ x. includes store_scoped_fields x ≡ false) j_is_k b in
      let here : v ≡ number n = ap (λ b. if b then v else get_field k fs) (sym same) ∙ h in
      rw same (rw not_tenant (rw not_store (rw here refl)))
]

-- The operations that filter: the reads, the updates and the deletions, but not updateManyAndReturn,
-- which the interceptor does not name.
abbrev pub is_filtered : Operation → Bool
is_filtered create = false
is_filtered upsert = false
is_filtered create_many = false
is_filtered create_many_and_return = false
is_filtered update_many_and_return = false
is_filtered other = true

-- The operation that is run: a unique lookup becomes a search for the first row.
abbrev pub run_as : Operation → Operation
run_as find_unique = find_first
run_as find_unique_or_throw = find_first_or_throw
run_as other = other

filtered-IsHeld :
    (table : String) (ctx : TenantContext) (args : Fields)
    → (w : Fields) × (get_field "where" (filtered table ctx args) ≡ object w) × IsHeld table ctx w
filtered-IsHeld table ctx args = (
  scoped table ctx (object_at "where" args),
  get_field-set_field "where" "where" (object (scoped table ctx (object_at "where" args))) args,
  scoped-IsHeld table ctx (object_at "where" args),
)

scoped_row-IsHeld :
    (table : String) (ctx : TenantContext) (fs : Fields)
    → IsHeld table ctx (scoped_row table ctx fs)
unfolding IsHeld
scoped_row-IsHeld table ctx fs =
    let (tenant, store) = scoped-IsHeld table ctx fs in
    let kept = inject_fields-number ctx.tenant_id ctx.store_id in
    (
      kept "tenantId" ctx.tenant_id (scoped table ctx fs) refl refl tenant,
      λ n h. kept "storeId" n (scoped table ctx fs) refl refl (store n h),
    )

module _ (strict : Bool) (ctx : TenantContext) (table : String) (args : Fields) where
  -- A query that runs the operation with a filter of the request.
  Filtered : Operation → Query → Type 0
  Filtered o q =
      (a : Fields) × (w : Fields) × (q ≡ query o a)
      × (get_field "where" a ≡ object w)
      × IsHeld table ctx w

  run_filtered : (o : Operation) (a : Fields) → Filtered o (query o (filtered table ctx a))
  unfolding Filtered
  run_filtered o a =
      let (w, there, held) = filtered-IsHeld table ctx a in
      (filtered table ctx a, w, refl, there, held)

  rewrite-IsHeld :
      (operation : Operation)
      → is_filtered operation ≡ true
      → Filtered (run_as operation) (rewrite table ctx operation args)
  unfolding rewrite Filtered
  rewrite-IsHeld update h = run_filtered update (with_nested ctx args)
  rewrite-IsHeld find_first h = run_filtered find_first args
  rewrite-IsHeld find_first_or_throw h = run_filtered find_first_or_throw args
  rewrite-IsHeld find_many h = run_filtered find_many args
  rewrite-IsHeld update_many h = run_filtered update_many args
  rewrite-IsHeld delete h = run_filtered delete args
  rewrite-IsHeld delete_many h = run_filtered delete_many args
  rewrite-IsHeld count h = run_filtered count args
  rewrite-IsHeld aggregate h = run_filtered aggregate args
  rewrite-IsHeld group_by h = run_filtered group_by args
  rewrite-IsHeld find_unique h = run_filtered find_first (redirected table ctx args)
  rewrite-IsHeld find_unique_or_throw h =
      run_filtered find_first_or_throw (redirected table ctx args)
  rewrite-IsHeld create h = absurd (cc)
  rewrite-IsHeld upsert h = absurd (cc)
  rewrite-IsHeld create_many h = absurd (cc)
  rewrite-IsHeld create_many_and_return h = absurd (cc)
  rewrite-IsHeld update_many_and_return h = absurd (cc)

  run_scoped :
      (operation : Operation)
      → is_unscoped table ≡ false
      → all_operations strict (some ctx) table operation args ≡ rewrite table ctx operation args
  unfolding all_operations
  run_scoped operation h = rw h refl

  -- On a table that is not exempt, every read, update and deletion but updateManyAndReturn is run with
  -- a filter that names the tenant of the request, and its store where the table has one and the request
  -- names a real one, whatever the caller's filter said of them. It is run as the same operation, except
  -- that a unique lookup is run as a search for the first row.
  pub all_operations-IsHeld :
      (operation : Operation)
      → is_unscoped table ≡ false
      → is_filtered operation ≡ true
      → (a : Fields) × (w : Fields) × (all_operations strict (some ctx) table operation args
          ≡ query (run_as operation) a)
        × (get_field "where" a ≡ object w)
        × IsHeld table ctx w
  unfolding Filtered
  all_operations-IsHeld operation scoped_table filters =
      subst (Filtered (run_as operation)) (sym (run_scoped operation scoped_table))
        (rewrite-IsHeld operation filters)

  -- A creation on a table that is not exempt is refused if the table needs a store and the request has none;
  -- else it writes a row that names the tenant, and the store.
  pub all_operations-create :
      is_unscoped table ≡ false
      → (all_operations strict (some ctx) table create args ≡ missing_store_context)
          × (needs_store table ctx ≡ true)
        ⊎ ((a : Fields) × (r : Fields) × (all_operations strict (some ctx) table create args
              ≡ query create a)
            × (get_field "data" a ≡ object r)
            × IsHeld table ctx r)
  unfolding rewrite
  all_operations-create scoped_table = elim (Bool-cases (needs_store table ctx)) [
    | inl needed ↦ inl (run_scoped create scoped_table ∙ rw needed refl, needed)
    | inr free ↦
        let r = scoped_row table ctx (object_at "data" args) in
        inr (
          with_create table ctx args,
          r,
          run_scoped create scoped_table ∙ rw free refl,
          get_field-set_field "data" "data" (object r) args,
          scoped_row-IsHeld table ctx (object_at "data" args),
        )
  ]

  -- An upsert on a table that is not exempt is refused like a creation; else both of its rows name the
  -- tenant and the store, but its filter is the caller's, so that a row of another tenant which that filter
  -- finds is updated and becomes the request's.
  pub all_operations-upsert :
      is_unscoped table ≡ false
      → (all_operations strict (some ctx) table upsert args ≡ missing_store_context)
          × (needs_store table ctx ≡ true)
        ⊎ ((a : Fields) × (new : Fields) × (changed : Fields) × (all_operations strict
                (some ctx)
                table
                upsert
                args
              ≡ query upsert a)
            × (get_field "create" a ≡ object new)
            × IsHeld table ctx new
            × (get_field "update" a ≡ object changed)
            × IsHeld table ctx changed
            × (get_field "where" a ≡ get_field "where" args))
  unfolding rewrite
  all_operations-upsert scoped_table = elim (Bool-cases (needs_store table ctx)) [
    | inl needed ↦ inl (run_scoped upsert scoped_table ∙ rw needed refl, needed)
    | inr free ↦
        let new = scoped_row table ctx (object_at "create" args) in
        let changed = scoped_row table ctx (object_at "update" args) in
        let mid = set_field "create" (object new) args in
        inr (
          with_upsert table ctx args,
          new,
          changed,
          run_scoped upsert scoped_table ∙ rw free refl,
          get_field-set_field "update" "create" (object changed) mid
              ∙ get_field-set_field "create" "create" (object new) args,
          scoped_row-IsHeld table ctx (object_at "create" args),
          get_field-set_field "update" "update" (object changed) mid,
          scoped_row-IsHeld table ctx (object_at "update" args),
          get_field-set_field "update" "where" (object changed) mid
              ∙ get_field-set_field "create" "where" (object new) args,
        )
  ]
