-- ===== src/Stores/Seeded.antt =====
-- backend/src/services/store.service.ts, `cloneFromDefault`, with resolveVariantEffective of
-- storeVariant.effective.ts: what a cloned store sells.
use Prim.Native.Nat.{◌≤◌}
use generic_ecommerce_store.Common.{
  if-ind, ℕ, Bool, Option, none, some, List, [], ◌∷◌, ◌==◌, ◌&&◌, not, if◌then◌else◌, true, false,
  ◌≡◌, refl, ap, ◌∙◌, subst, arith, if-elim, Bool-cases, inl, inr,
}
use generic_ecommerce_store.Common.Lists.{any, find?, keep, IsIn, find?-IsIn}
use generic_ecommerce_store.Common.Counting.{
  any_witness, count, count_positive, find?-some, find?-map, find?-append_one, find?-append_other,
  option_map,
}
use generic_ecommerce_store.Pricing.{EffectiveVariant, Override, resolve_variant_effective}
use generic_ecommerce_store.Stores.{is_default_of}
use generic_ecommerce_store.Stores.Inventory.{
  VariantRow, OverrideRow, Inventory, Answer, fails, gives, upsert_row, is_override, in_tenant,
  seed_of, seed_row, reseed, seed, clone_from_default,
}

-- The override that a store has for a variant.
abbrev pub own_override : List OverrideRow → ℕ → ℕ → Option Override
own_override rows store variant =
    option_map (λ (r : OverrideRow). r.values) (find? (is_override store variant) rows)

abbrev pub with_id : ℕ → VariantRow → Bool
with_id i v = v.id == i

module _ (tenant store : ℕ) where
  abbrev write : VariantRow → List OverrideRow → List OverrideRow
  write v rows =
      upsert_row (is_override store v.id) (seed_row tenant store v) (reseed tenant v) rows

  abbrev rewrite : VariantRow → OverrideRow → OverrideRow
  rewrite v r = if is_override store v.id r then reseed tenant v r else r

  rewrite_key :
      (s i : ℕ) (v : VariantRow) (r : OverrideRow)
      → is_override s i (rewrite v r) ≡ is_override s i r
  rewrite_key s i v r =
      if-elim (λ (x : OverrideRow). is_override s i x ≡ is_override s i r)
        (is_override store v.id r) (λ hit. refl) (λ miss. refl)

  -- The write of a variant is found under its key.
  write_found :
      (v : VariantRow) (rows : List OverrideRow)
      → own_override (write v rows) store v.id ≡ some (seed_of v)
  write_found v rows =
      if-elim (λ l. own_override l store v.id ≡ some (seed_of v))
        (any (is_override store v.id) rows)
        (λ there.
          let (r, e) = find?-some (is_override store v.id) rows there in
          let (i, key) = find?-IsIn (is_override store v.id) rows r e in
          ap (option_map (λ (r : OverrideRow). r.values)) (
            find?-map (is_override store v.id) (rewrite v) (rewrite_key store v.id v) rows
            ∙ ap (option_map (rewrite v)) e)
          ∙ ap (λ (b : Bool). some (if b then reseed tenant v r else r).values) key)
        (λ absent. ap (option_map (λ (r : OverrideRow). r.values)) (
          find?-append_one (is_override store v.id) rows (seed_row tenant store v) absent
          ∙ ap (λ b. if b then some (seed_row tenant store v) else none) (own_key v)))
    where
      own_key : (v : VariantRow) → is_override store v.id (seed_row tenant store v) ≡ true
      own_key v = ground arith

  -- Under another key nothing changes.
  write_other :
      (s i : ℕ) (v : VariantRow) (rows : List OverrideRow)
      → (s == store && v.id == i) ≡ false
      → own_override (write v rows) s i ≡ own_override rows s i
  write_other s i v rows differ =
      if-elim (λ l. own_override l s i ≡ own_override rows s i) (any (is_override store v.id) rows)
        (λ there.
          ap (option_map (λ (r : OverrideRow). r.values))
            (find?-map (is_override s i) (rewrite v) (rewrite_key s i v) rows)
          ∙ go (find? (is_override s i) rows) refl)
        (λ absent. ap (option_map (λ (r : OverrideRow). r.values)) (
          find?-append_other (is_override s i) rows (seed_row tenant store v)
            (ground (arith, differ))))
    where
      go :
          (o : Option OverrideRow)
          → find? (is_override s i) rows ≡ o
          → option_map (λ (r : OverrideRow). r.values) (option_map (rewrite v) o)
            ≡ option_map (λ (r : OverrideRow). r.values) o
      go none e = refl
      go (some r) e =
          let (j, key) = find?-IsIn (is_override s i) rows r e in
          let miss : is_override store v.id r ≡ false = ground (arith, key, differ) in
          ap (λ b. some (if b then reseed tenant v r else r).values) miss

  seed_other :
      (s i : ℕ) (vs : List VariantRow) (rows : List OverrideRow)
      → (s == store && any (with_id i) vs) ≡ false
      → own_override (seed tenant store vs rows) s i ≡ own_override rows s i
  seed_other s i [] rows differ = refl
  seed_other s i (v ∷ vs) rows differ =
      seed_other s i vs (write v rows) (ground (arith, differ))
      ∙ write_other s i v rows (ground (arith, differ))

  seed_found :
      (v : VariantRow) (vs : List VariantRow) (rows : List OverrideRow)
      → IsIn v vs
      → count (with_id v.id) vs ≤ 1
      → own_override (seed tenant store vs rows) store v.id ≡ some (seed_of v)
  seed_found v [] rows i few = elim i [ ]
  seed_found v (w ∷ vs) rows (inl same) few =
      let hit : (w.id == v.id) ≡ true = ground (arith, ap (λ (x : VariantRow). x.id) same) in
      seed_other store v.id vs (write w rows) (ground (arith, none_left hit))
      ∙ subst (λ (x : VariantRow). own_override (write w rows) store x.id ≡ some (seed_of x)) same
          (write_found w rows)
    where
      none_left : (w.id == v.id) ≡ true → any (with_id v.id) vs ≡ false
      none_left hit = elim (Bool-cases (any (with_id v.id) vs)) [
        | inl more ↦
            let (x, i, key) = any_witness (with_id v.id) vs more in
            absurd (ground (arith, few, hit, count_positive (with_id v.id) vs x i key))
        | inr fewer ↦ fewer
      ]
  seed_found v (w ∷ vs) rows (inr later) few = seed_found v vs (write w rows) later (
      if-ind (λ n. n ≤ 1 → count (with_id v.id) vs ≤ 1) (w.id == v.id) (λ h. omega (arith, h))
        (λ h. h) few)

module _ (inv : Inventory) (tenant store : ℕ) where
  -- The variant of a cloned store.
  abbrev sold : Inventory → VariantRow → EffectiveVariant
  sold after v = resolve_variant_effective v.values (own_override after.overrides store v.id) false

  abbrev own_variants : List VariantRow
  own_variants = keep (λ w. w.tenant_id == tenant) inv.variants

  -- Each variant of the tenant is sold as by a default store without overrides, and the overrides of
  -- the other stores are as before.
  abbrev IsSeeded : Inventory → Type 0
  IsSeeded after =
      ((v : VariantRow)
        → IsIn v own_variants
        → count (with_id v.id) own_variants ≤ 1
        → sold after v ≡ resolve_variant_effective v.values none true)
      × ((s i : ℕ)
          → (s == store) ≡ false
          → own_override after.overrides s i ≡ own_override inv.overrides s i)

  abbrev GivesSeeded : Answer Inventory → Type 0
  GivesSeeded (fails e) = Unit
  GivesSeeded (gives after) = IsSeeded after

  clone_from_default-IsSeeded :
      (after : Inventory) → clone_from_default inv tenant store ≡ gives after → IsSeeded after
  unfolding clone_from_default resolve_variant_effective
  clone_from_default-IsSeeded after h = subst GivesSeeded h (
      if-elim GivesSeeded (not (in_tenant inv tenant store)) (λ unknown. tt)
        (λ known.
          if-elim GivesSeeded (not (any (is_default_of tenant) inv.stores)) (λ missing. tt)
            (λ there. (
              λ v i few.
                  ap (λ o. resolve_variant_effective v.values o false)
                    (seed_found tenant store v own_variants inv.overrides i few),
              λ s i other.
                  seed_other tenant store s i own_variants inv.overrides (ground (arith, other)),
            ))))

  -- After a clone that succeeds, the store sells a variant of the tenant, if its id is its own, exactly as
  -- a default store without overrides sells it: price, stock, activity, and that price breaks apply.
  pub clone_from_default-sold :
      (after : Inventory)
      → clone_from_default inv tenant store ≡ gives after
      → (v : VariantRow) → IsIn v (keep (λ w. w.tenant_id == tenant) inv.variants)
      → count (with_id v.id) (keep (λ w. w.tenant_id == tenant) inv.variants) ≤ 1
      → resolve_variant_effective v.values (own_override after.overrides store v.id) false
        ≡ resolve_variant_effective v.values none true
  clone_from_default-sold after h v i few = (clone_from_default-IsSeeded after h).0 v i few

  -- The overrides of all other stores are as before.
  pub clone_from_default-other :
      (after : Inventory)
      → clone_from_default inv tenant store ≡ gives after
      → (s i : ℕ) → (s == store) ≡ false
      → own_override after.overrides s i ≡ own_override inv.overrides s i
  clone_from_default-other after h s i differ = (clone_from_default-IsSeeded after h).1 s i differ
