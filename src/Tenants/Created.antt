-- ===== src/Tenants/Created.antt =====
-- backend/src/services/tenantManagement.service.ts, `createTenant`, with store.service.ts and
-- tenant.middleware.ts: the default store of a new tenant.
use Prim.Native.Nat.{◌≤◌}
use generic_ecommerce_store.Common.{
  ℕ, Bool, List, [], ◌∷◌, ◌++◌, String, ◌==◌, if◌then◌else◌, true, ◌≡◌, refl, subst, arith, if-elim,
  Bool-cases, inl, inr,
}
use generic_ecommerce_store.Common.Lists.{any, IsIn}
use generic_ecommerce_store.Common.Counting.{count, count-append_one, any-IsIn}
use generic_ecommerce_store.Stores.{
  Store, StoreHeader, is_default_of, is_open_default, resolve_active_store,
}
use generic_ecommerce_store.Stores.Defaults.{IsSound}
use generic_ecommerce_store.Stores.Defaults.{has_id as has_store_id}
use generic_ecommerce_store.Stores.Open.{Call, run, IsServed, run-IsServed}
use generic_ecommerce_store.Tenants.{
  Platform, Result, CreateTenantInput, AuditActor, fails, gives, has_slug, main_store, add_store,
  create_tenant,
}

-- The ids of the stores are distinct and below the next one, and no store is of a tenant to come.
pub record HasFreshIds (p : Platform) : Type 0 where
  pub fresh : (i : ℕ) → p.stores.next_id ≤ i → count (has_store_id i) p.stores.rows ≤ 0
  pub unique : (i : ℕ) → count (has_store_id i) p.stores.rows ≤ 1
  pub unclaimed : count (λ (s : Store). s.tenant_id == p.next_tenant) p.stores.rows ≤ 0

module _ (p : Platform) (ids : HasFreshIds p) (input : CreateTenantInput) where
  last-IsIn : {A : Type 0} (xs : List A) (a : A) → IsIn a (xs ++ a ∷ [])
  last-IsIn [] a = inl refl
  last-IsIn (x ∷ xs) a = inr (last-IsIn xs a)

  count-le :
      (q r : Store → Bool)
      → ((s : Store) → q s ≡ true → r s ≡ true)
      → (xs : List Store) → count q xs ≤ count r xs
  count-le q r h [] = omega arith
  count-le q r h (x ∷ xs) = elim (Bool-cases (q x)) [
    | inl hit ↦ ground (arith, hit, h x hit, count-le q r h xs)
    | inr miss ↦ elim (Bool-cases (r x)) [
      | inl also ↦ ground (arith, miss, also, count-le q r h xs)
      | inr neither ↦ ground (arith, miss, neither, count-le q r h xs)
    ]
  ]

  added-IsSound : IsSound p.next_tenant (add_store p.stores (main_store p input))
  added-IsSound =
      let s = main_store p input in
      let none_yet =
        count-le (is_default_of p.next_tenant) (λ (s : Store). s.tenant_id == p.next_tenant)
          (λ s h. ground (arith, h)) p.stores.rows in
      record {
        fresh = λ i h.
            ground
              (arith, count-append_one (has_store_id i) p.stores.rows s, ids.fresh i (omega arith));
        unique = λ i. elim (Bool-cases (p.stores.next_id == i)) [
          | inl e ↦ ground (
            arith,
            count-append_one (has_store_id i) p.stores.rows s,
            ids.fresh i (ground (arith, e)),
          )
          | inr e ↦ ground (arith, count-append_one (has_store_id i) p.stores.rows s, ids.unique i)
        ];
        served =
            any-IsIn (is_open_default p.next_tenant) _ s (last-IsIn p.stores.rows s) (ground arith);
        single = omega (
          arith,
          count-append_one (is_default_of p.next_tenant) p.stores.rows s,
          none_yet,
          ids.unclaimed,
          one,
        );
      }
    where
      one : (if is_default_of p.next_tenant (main_store p input) then 1 else 0) ≤ 1
      one = ground arith

  abbrev Sound : Result → Type 0
  Sound (fails e) = Unit
  Sound (gives after) = IsSound p.next_tenant after.stores

  create_tenant-IsSound :
      (actor : AuditActor) (reporting print : String)
      → Sound (create_tenant p input actor reporting print)
  unfolding create_tenant
  create_tenant-IsSound actor reporting print =
      if-elim Sound (any (has_slug input.slug) p.tenants) (λ taken. tt) (λ free. added-IsSound)

  -- Where ids are fresh, a tenant that was created is served at once and from then on: after any calls of
  -- the store service, a request for it gets an active store of it, or all its stores for an administrator.
  pub create_tenant-IsServed :
      (actor : AuditActor) (reporting print : String) (after : Platform)
      → create_tenant p input actor reporting print ≡ gives after
      → (calls : List Call) (header : StoreHeader) (is_admin : Bool)
      → IsServed p.next_tenant is_admin
          (run after.stores calls).rows
          (resolve_active_store (run after.stores calls).rows p.next_tenant header is_admin)
  create_tenant-IsServed actor reporting print after h calls header is_admin =
      run-IsServed p.next_tenant after.stores
        (subst Sound h (create_tenant-IsSound actor reporting print)) calls header is_admin
