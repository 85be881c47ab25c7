-- ===== src/Settings/Staleness.antt =====
-- backend/src/services/settingsStore.ts: which reads see a write.
use text.Mathlib.Text.{◌==◌ as str_eq}
use text.Mathlib.TextPositions.{eq_refl}
use generic_ecommerce_store.Common.{
  ℕ, ◌≡◌, ◌≤◌, refl, sym, ap, subst, ◌∙◌, Option, none, some, String, true, false, arith, inl, inr,
  Bool-cases, ◌==◌, if-elim, ltb, not, ◌&&◌, ==_iff,
}
use generic_ecommerce_store.Tenancy.{Fields, TenantContext}
use generic_ecommerce_store.Ttl.{get, get_entry, delete}
use generic_ecommerce_store.Settings.{
  Config, World, cache_key_for, store_of, read_rows, read_from, read, invalidated, write,
  write_parsed,
}

-- A read that finds nothing in the cache answers from the rows.
read_from_rows :
    (c : Config) (ctx : TenantContext) (ttl now : ℕ) (w : World)
    → w.cache (cache_key_for c ctx.tenant_id (store_of ctx)) ≡ none
    → (read c ctx ttl now w).0 ≡ read_rows c ctx w
unfolding read get
read_from_rows c ctx ttl now w h =
    ap
      (λ (o : Option (Fields × ℕ)).
        (read_from c ctx ttl now w
          (get_entry now w.cache (cache_key_for c ctx.tenant_id (store_of ctx)) o)).0)
      h

-- A read that finds a living entry answers with it.
read_cached :
    (c : Config) (ctx : TenantContext) (ttl now e : ℕ) (w : World) (value : Fields)
    → w.cache (cache_key_for c ctx.tenant_id (store_of ctx)) ≡ some (value, e)
    → now ≤ e
    → (read c ctx ttl now w).0 ≡ value
unfolding read get
read_cached c ctx ttl now e w value h lives =
    ap
      (λ (o : Option (Fields × ℕ)).
        (read_from c ctx ttl now w
          (get_entry now w.cache (cache_key_for c ctx.tenant_id (store_of ctx)) o)).0)
      h
    ∙ if-elim
        (λ (o : Option Fields × (String → Option (Fields × ℕ))).
          (read_from c ctx ttl now w o).0 ≡ value)
        (ltb e now) (λ late. absurd (ground arith)) (λ alive. refl)

delete_self : (key : String) (cache : String → Option (Fields × ℕ)) → delete key cache key ≡ none
unfolding delete
delete_self key cache = rw (eq_refl key) refl

delete_other :
    (key k : String) (cache : String → Option (Fields × ℕ))
    → str_eq key k ≡ false
    → delete key cache k ≡ cache k
unfolding delete
delete_other key k cache h = rw h refl

-- Without stores there is one key for a tenant.
tenant_key :
    (c : Config) (tenant store : ℕ)
    → c.store_scoped ≡ false
    → cache_key_for c tenant store ≡ cache_key_for c tenant 0
unfolding cache_key_for
tenant_key c tenant store h = rw h refl

-- The entry of a key is gone after a write by its store.
invalidated_own :
    (c : Config) (ctx : TenantContext) (cache : String → Option (Fields × ℕ))
    → invalidated c ctx cache (cache_key_for c ctx.tenant_id (store_of ctx)) ≡ none
invalidated_own c ctx cache =
    if-elim
      (λ (after : String → Option (Fields × ℕ)).
        after (cache_key_for c ctx.tenant_id (store_of ctx)) ≡ none)
      (c.store_scoped && not (store_of ctx == 0))
      (λ own. delete_self (cache_key_for c ctx.tenant_id (store_of ctx)) _)
      (λ default.
        subst (λ k. delete (cache_key_for c ctx.tenant_id 0) cache k ≡ none)
          (sym (same_key default)) (delete_self (cache_key_for c ctx.tenant_id 0) cache))
  where
    same_key :
        (c.store_scoped && not (store_of ctx == 0)) ≡ false
        → cache_key_for c ctx.tenant_id (store_of ctx) ≡ cache_key_for c ctx.tenant_id 0
    same_key h = elim (Bool-cases c.store_scoped) [
      | inr tenant ↦ tenant_key c ctx.tenant_id (store_of ctx) tenant
      | inl stores ↦
          let none_chosen : (store_of ctx == 0) ≡ true = ground (arith, h, stores) in
          ap (cache_key_for c ctx.tenant_id) ((==_iff (store_of ctx) 0).0 none_chosen)
    ]

-- The cache after a write that the schema accepts.
write-cache :
    (c : Config) (ctx : TenantContext) (value validated : Fields) (w : World) (key : String)
    → c.parse value ≡ some validated
    → (write c ctx value w).1.cache key ≡ invalidated c ctx w.cache key
unfolding write
write-cache c ctx value validated w key h =
    ap (λ (o : Option Fields). (write_parsed c ctx w o).1.cache key) h

-- A write that the schema accepts is seen by the next read of the same store, whatever was cached before: it
-- answers from the rows as they are then.
pub read-write :
    (c : Config) (ctx : TenantContext) (value validated : Fields) (ttl now : ℕ) (w : World)
    → c.parse value ≡ some validated
    → let after = (write c ctx value w).1 in (read c ctx ttl now after).0 ≡ read_rows c ctx after
unfolding write
read-write c ctx value validated ttl now w accepted =
    read_from_rows c ctx ttl now (write c ctx value w).1 (
      write-cache c ctx value validated w (cache_key_for c ctx.tenant_id (store_of ctx)) accepted
      ∙ invalidated_own c ctx w.cache)

-- A write to the default row does not drop the merged settings that another store of the tenant has
-- in the cache: until they expire, that store reads what it read before, whatever was written.
pub read-write_stale :
    (c : Config) (ctx other : TenantContext) (value validated cached : Fields) (ttl now e : ℕ)
    (w : World)
    → store_of ctx ≡ 0
    → c.parse value ≡ some validated
    → w.cache (cache_key_for c other.tenant_id (store_of other)) ≡ some (cached, e)
    → str_eq (cache_key_for c ctx.tenant_id 0) (cache_key_for c other.tenant_id (store_of other))
      ≡ false
    → now ≤ e
    → (read c other ttl now (write c ctx value w).1).0 ≡ cached
read-write_stale c ctx other value validated cached ttl now e w default accepted hit differs lives =
    let key = cache_key_for c other.tenant_id (store_of other) in
    let kept : invalidated c ctx w.cache key ≡ w.cache key =
      if-elim (λ (after : String → Option (Fields × ℕ)). after key ≡ w.cache key)
        (c.store_scoped && not (store_of ctx == 0)) (λ own. absurd (ground (arith, own, default)))
        (λ none_more. delete_other (cache_key_for c ctx.tenant_id 0) key w.cache differs) in
    read_cached c other ttl now e (write c ctx value w).1 cached
      (write-cache c ctx value validated w key accepted ∙ (kept ∙ hit)) lives
