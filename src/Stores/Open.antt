-- ===== src/Stores/Open.antt =====
-- backend/src/services/store.service.ts with `resolveActiveStore` of tenant.middleware.ts: whatever is
-- called for whichever tenant, a request finds an active store.
use generic_ecommerce_store.Common.{
  ◌⊎◌, ℕ, Bool, Option, none, some, List, [], ◌∷◌, map, String, ◌==◌, ◌&&◌, not, if◌then◌else◌,
  true, false, ◌≡◌, refl, sym, subst, arith, if-elim, Bool-cases, inl, inr,
}
use generic_ecommerce_store.Common.Lists.{find?, IsIn, find?-IsIn}
use generic_ecommerce_store.Common.Counting.{
  count-map_le, any-IsIn, any_witness, map-IsIn, map-map, find?-some,
}
use generic_ecommerce_store.Stores.{
  active, no_store, all_stores, asked, Store, Stores, Patch, is_active, is_row, Outcome,
  StoreHeader, is_default_of, is_open_default, create_store, default_store, selected_or,
  update_store, unset, set, move_default, set_default_store, resolve_active_store,
}
use generic_ecommerce_store.Stores.Defaults.{
  IsSound, left, has_id, changed-IsSound, write_row-IsSound, create_store-IsSound,
  update_store-IsSound,
}

-- The writes of `setDefaultStore` on one row.
moved : ℕ → ℕ → Store → Store
moved tenant id s =
    let s' : Store = if is_default_of tenant s then unset s else s in
    if is_row tenant id s' then set s' else s'

module _ (T : ℕ) (t : Stores) (sound : IsSound T t) (tenant id : ℕ) where
  moved_id : (s : Store) → (moved tenant id s).id ≡ s.id
  unfolding moved
  moved_id s = ground arith

  -- After the move the default of that tenant is the row of the id.
  moved_default :
      tenant ≡ T → (s : Store) → is_default_of T (moved tenant id s) ≡ true → has_id id s ≡ true
  unfolding moved
  moved_default e s h = ground (arith, e, h)

  -- The defaults of other tenants stay.
  moved_other :
      (tenant == T) ≡ false
      → (s : Store) → is_default_of T (moved tenant id s) ≡ true
      → is_default_of T s ≡ true
  unfolding moved
  moved_other e s h = ground (arith, e, h)

  -- The row that becomes the default is open.
  moved_chosen :
      tenant ≡ T
      → (s : Store) → is_row tenant id s ≡ true
      → is_active s.status ≡ true
      → is_open_default T (moved tenant id s) ≡ true
  unfolding moved
  moved_chosen e s row on = ground (arith, e, row, on)

  moved_kept :
      (tenant == T) ≡ false
      → (s : Store) → is_open_default T s ≡ true
      → is_open_default T (moved tenant id s) ≡ true
  unfolding moved
  moved_kept e s h = ground (arith, e, h)

  moved-IsSound :
      (s : Store)
      → find? (is_row tenant id) t.rows ≡ some s
      → is_active s.status ≡ true
      → IsSound T (record t { rows = map (moved tenant id) t.rows })
  moved-IsSound s e on =
      let (i, row) = find?-IsIn (is_row tenant id) t.rows s e in
      elim (Bool-cases (tenant == T)) [
        | inl same ↦
            let eq : tenant ≡ T = ground (arith, same) in
            changed-IsSound T t sound (moved tenant id) moved_id
              (any-IsIn (is_open_default T) _ (moved tenant id s)
                (map-IsIn (moved tenant id) t.rows s i) (moved_chosen eq s row on))
              (omega (
                arith,
                sound.unique id,
                count-map_le (is_default_of T) (has_id id) (moved tenant id) (moved_default eq)
                    t.rows,
              ))
        | inr other ↦
            let (d, j, h) = any_witness (is_open_default T) t.rows sound.served in
            changed-IsSound T t sound (moved tenant id) moved_id
              (any-IsIn (is_open_default T) _ (moved tenant id d)
                (map-IsIn (moved tenant id) t.rows d j) (moved_kept other d h))
              (omega (
                arith,
                sound.single,
                count-map_le (is_default_of T) (is_default_of T) (moved tenant id)
                    (moved_other other) t.rows,
              ))
      ]

  move_default-IsSound :
      (o : Option Store)
      → find? (is_row tenant id) t.rows ≡ o
      → IsSound T (left t (move_default t tenant id o))
  unfolding moved
  move_default-IsSound none e = sound
  move_default-IsSound (some s) e =
      if-elim (λ o. IsSound T (left t o)) (not (is_active s.status)) (λ off. sound)
        (λ on. write_row-IsSound T t sound tenant id _ set (
          subst (λ rows. IsSound T (record t { rows = rows }))
            (sym (
              map-map (λ x. if is_row tenant id x then set x else x)
                (λ x. if is_default_of tenant x then unset x else x) t.rows))
            (moved-IsSound s e (ground (arith, on)))))

  pub set_default_store-IsSound : IsSound T (left t (set_default_store t tenant id))
  unfolding set_default_store
  set_default_store-IsSound = move_default-IsSound (find? (is_row tenant id) t.rows) refl

-- A call of the service, for a tenant.
pub data Call : Type 0 where
  create_call : ℕ → String → String → Call
  update_call : ℕ → ℕ → Patch → Call
  default_call : ℕ → ℕ → Call

abbrev pub call : Stores → Call → Outcome
call t (create_call tenant name slug) = create_store t tenant name slug
call t (update_call tenant id p) = update_store t tenant id p
call t (default_call tenant id) = set_default_store t tenant id

-- The table after calls in turn.
abbrev pub run : Stores → List Call → Stores
run t [] = t
run t (c ∷ later) = run (left t (call t c)) later

call-IsSound : (T : ℕ) (t : Stores) → IsSound T t → (c : Call) → IsSound T (left t (call t c))
call-IsSound T t sound (create_call tenant name slug) =
    create_store-IsSound T t sound tenant name slug
call-IsSound T t sound (update_call tenant id p) = update_store-IsSound T t sound tenant id p
call-IsSound T t sound (default_call tenant id) = set_default_store-IsSound T t sound tenant id

-- From a sound table, calls in any order for any tenants, refused ones too, leave it sound: the tenant
-- has exactly one default store and that store is active.
pub run-IsSound : (T : ℕ) (t : Stores) → IsSound T t → (calls : List Call) → IsSound T (run t calls)
run-IsSound T t sound [] = sound
run-IsSound T t sound (c ∷ later) =
    run-IsSound T (left t (call t c)) (call-IsSound T t sound c) later

-- The answer is for no single store, which only an administrator gets, or an active store of the tenant.
pub IsServed : ℕ → Bool → List Store → Option (ℕ × Bool) → Type 0
IsServed T is_admin rows none = ⊥
IsServed T is_admin rows (some (id, is_default)) =
    ((id ≡ 0) × (is_admin ≡ true))
    ⊎ ((s : Store) × IsIn s rows
        × (s.id ≡ id)
        × (s.tenant_id ≡ T)
        × (s.status ≡ active)
        × (s.is_default ≡ is_default))

module _ (T : ℕ) (t : Stores) (sound : IsSound T t) (is_admin : Bool) where
  default_store-IsServed : IsServed T is_admin t.rows (default_store T t.rows)
  unfolding IsServed
  default_store-IsServed =
      let (d, e) = find?-some (is_open_default T) t.rows sound.served in
      let (i, h) = find?-IsIn (is_open_default T) t.rows d e in
      subst
        (λ o. IsServed T is_admin t.rows (elim o [ none ↦ none | some def ↦ some (def.id, true) ]))
        (sym e) (inr (d, i, refl, ground (arith, h), ground (arith, h), ground (arith, h)))

  selected_or-IsServed :
      (id : ℕ) (o : Option Store)
      → find? (λ s. is_row T id s && is_active s.status) t.rows ≡ o
      → IsServed T is_admin t.rows (selected_or (default_store T t.rows) o)
  unfolding IsServed
  selected_or-IsServed id none e = default_store-IsServed
  selected_or-IsServed id (some s) e =
      let (i, h) = find?-IsIn (λ s. is_row T id s && is_active s.status) t.rows s e in
      inr (s, i, refl, ground (arith, h), ground (arith, h), refl)

  pub resolve_active_store-IsServed :
      (header : StoreHeader)
      → IsServed T is_admin t.rows (resolve_active_store t.rows T header is_admin)
  unfolding resolve_active_store IsServed
  resolve_active_store-IsServed no_store = default_store-IsServed
  resolve_active_store-IsServed all_stores =
      if-elim (IsServed T is_admin t.rows) is_admin (λ admin. inl (refl, admin))
        (λ plain. default_store-IsServed)
  resolve_active_store-IsServed (asked none) = default_store-IsServed
  resolve_active_store-IsServed (asked (some id)) = selected_or-IsServed id _ refl

-- After any calls for any tenants, one after the other, on a sound table, a request for the tenant, whatever its store header,
-- gets an active store of that tenant, or all stores if its caller is an administrator; never nothing.
pub run-IsServed :
    (T : ℕ) (t : Stores)
    → IsSound T t
    → (calls : List Call) (header : StoreHeader) (is_admin : Bool)
    → IsServed T is_admin
        (run t calls).rows
        (resolve_active_store (run t calls).rows T header is_admin)
run-IsServed T t sound calls header is_admin =
    resolve_active_store-IsServed T (run t calls) (run-IsSound T t sound calls) is_admin header
