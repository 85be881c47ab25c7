-- ===== src/Catalog/Kept.antt =====
-- backend/src/services/product.service.ts: what a write keeps of the variants, and which is the default.
use Prim.Native.Nat.{◌≤◌}
use generic_ecommerce_store.Common.{
  ℕ, suc, Bool, Option, none, some, List, [], ◌∷◌, map, String, ◌==◌, ◌&&◌, not, if◌then◌else◌,
  true, false, ◌≡◌, refl, ap, ◌∙◌, subst, arith, if-elim, if-ind,
}
use generic_ecommerce_store.Common.Lists.{any, find?}
use generic_ecommerce_store.Common.Counting.{
  count, count_positive, any-IsIn, any_witness, map-IsIn, append-IsIn,
}
use generic_ecommerce_store.Text.{trimmed}
use generic_ecommerce_store.Pricing.{or_else}
use generic_ecommerce_store.Catalog.{Catalog, ProductRow, VariantRow, has_id}
use generic_ecommerce_store.Catalog.Variants.{
  VariantInput, Rows, Written, broken, written, is_flagged, with_single_default, id_of,
  create_variant, updated, update_variant, write_variant, write_all, deactivated, is_kept, clashes,
}
use generic_ecommerce_store.Catalog.Writes.{
  UpdateProductData, Attempt, fails, gives, changed_variants, commit_update, update_named,
  update_in, update_found, update_product, category_of,
}

abbrev pub with_variant : ℕ → VariantRow → Bool
with_variant i r = r.id == i

-- The row of an id is still there.
abbrev StillIn : ℕ → Written → Type 0
StillIn i (broken e) = Unit
StillIn i (written rows) = any (with_variant i) rows.0 ≡ true

map_still :
    (i : ℕ) (g : VariantRow → VariantRow)
    → ((r : VariantRow) → (g r).id ≡ r.id)
    → (rows : List VariantRow) → any (with_variant i) rows ≡ true
    → any (with_variant i) (map g rows) ≡ true
map_still i g ids rows h =
    let (r, j, hit) = any_witness (with_variant i) rows h in
    any-IsIn (with_variant i) (map g rows) (g r) (map-IsIn g rows r j)
      (ap (λ n. n == i) (ids r) ∙ hit)

module _ (i : ℕ) (product : ℕ) (slug : String) where
  create_variant_still :
      (rows : Rows) (v : VariantInput) (index : ℕ)
      → any (with_variant i) rows.0 ≡ true
      → StillIn i (create_variant rows product v slug index)
  create_variant_still (rows, next) v index h =
      if-elim (StillIn i) (any _ rows) (λ taken. tt)
        (λ free.
          let (r, j, hit) = any_witness (with_variant i) rows h in
          any-IsIn (with_variant i) _ r (append-IsIn rows _ r j) hit)

  update_variant_still :
      (rows : Rows) (id : ℕ) (v : VariantInput) (index : ℕ)
      → any (with_variant i) rows.0 ≡ true
      → StillIn i (update_variant rows id v index)
  update_variant_still (rows, next) id v index h =
      if-elim (StillIn i) (not (any _ rows)) (λ missing. tt)
        (λ there.
          if-elim (StillIn i) (clashes id (trimmed v.sku) rows) (λ taken. tt)
            (λ free.
              map_still i (λ (r : VariantRow). if r.id == id then updated v index r else r)
                (λ r. if-ind (λ (x : VariantRow). x.id ≡ r.id) (r.id == id) refl refl) rows h))

  write_variant_still :
      (rows : Rows) (v : VariantInput) (index : ℕ) (o : Option ℕ)
      → any (with_variant i) rows.0 ≡ true
      → StillIn i (write_variant rows product slug index v o)
  write_variant_still rows v index none h = create_variant_still rows v index h
  write_variant_still rows v index (some id) h = update_variant_still rows id v index h

  write_all_still :
      (vs : List VariantInput) (w : Written) (index : ℕ)
      → StillIn i w
      → StillIn i (write_all w product slug index vs)
  write_all_still vs (broken e) index h = tt
  write_all_still [] (written rows) index h = h
  write_all_still (v ∷ vs) (written rows) index h =
      write_all_still vs (write_variant rows product slug index v (id_of v)) (suc index)
        (write_variant_still rows v index (id_of v) h)

abbrev Gives : (Catalog → Type 0) → Attempt → Type 0
Gives P (fails e) = Unit
Gives P (gives c) = P c

module _ (c : Catalog) (id : ℕ) (i : ℕ) (there : any (with_variant i) c.variants ≡ true) where
  abbrev Keeps : Catalog → Type 0
  Keeps after = any (with_variant i) after.variants ≡ true

  changed_still :
      (slug : String) (o : Option (List VariantInput)) → StillIn i (changed_variants c id slug o)
  changed_still slug none = there
  changed_still slug (some inputs) =
      let vs : List VariantInput = with_single_default inputs in
      write_all_still i id slug vs (written (deactivated id vs c.variants, c.next_variant)) 0 (
        map_still i
          (λ (r : VariantRow).
            if r.product_id == id && not (is_kept vs r.id) then record r { active = false } else r)
          (λ r.
            if-ind (λ (x : VariantRow). x.id ≡ r.id) (r.product_id == id && not (is_kept vs r.id))
              refl refl)
          c.variants there)

  commit_update-Keeps :
      (d : UpdateProductData) (slug : Option String) (category : Option ℕ) (w : Written)
      → StillIn i w
      → Gives Keeps (commit_update c id d slug category w)
  commit_update-Keeps d slug category (broken e) h = tt
  commit_update-Keeps d slug category (written (rows, next)) h = h

  update_named-Keeps :
      (d : UpdateProductData) (existing : ProductRow) (category : Option ℕ)
      (slug : Option (Option String))
      → Gives Keeps (update_named c id d existing category slug)
  update_named-Keeps d existing category none = tt
  update_named-Keeps d existing category (some slug) =
      commit_update-Keeps d slug category _ (changed_still (or_else slug existing.slug) d.variants)

  update_found-Keeps :
      (lower : String → String) (d : UpdateProductData) (o : Option ProductRow)
      → Gives Keeps (update_found lower c id d o)
  update_found-Keeps lower d none = tt
  update_found-Keeps lower d (some existing) =
      go (elim d.category_id [ none ↦ none | some given ↦ some (category_of given) ])
    where
      go : (o : Option (Option ℕ)) → Gives Keeps (update_in lower c id d existing o)
      go none = update_named-Keeps d existing none _
      go (some none) = tt
      go (some (some category)) =
          if-elim (Gives Keeps) (not (any _ c.categories)) (λ missing. tt)
            (λ known. update_named-Keeps d existing (some category) _)

  -- An update that succeeds removes no variant of any product: one that orders may name is still there.
  pub update_product_keeps :
      (lower : String → String) (d : UpdateProductData) (after : Catalog)
      → update_product lower c id d ≡ gives after
      → any (with_variant i) after.variants ≡ true
  unfolding update_product
  update_product_keeps lower d after h =
      subst (Gives Keeps) h (update_found-Keeps lower d (find? (has_id id) c.products))

count_kept :
    (vs : List VariantInput)
    → count is_flagged
        (map (λ (w : VariantInput). record w { is_default = some (is_flagged w) }) vs)
      ≡ count is_flagged vs
count_kept [] = refl
count_kept (v ∷ vs) = ap (λ n. if is_flagged v then suc n else n) (count_kept vs)

count_unflagged :
    (vs : List VariantInput)
    → count is_flagged (map (λ (w : VariantInput). record w { is_default = some false }) vs) ≡ 0
count_unflagged [] = refl
count_unflagged (v ∷ vs) = count_unflagged vs

-- Of some variants, of which at most one is flagged, exactly one is the default.
pub count-with_single_default :
    (v : VariantInput) (vs : List VariantInput)
    → count is_flagged (v ∷ vs) ≤ 1
    → count is_flagged (with_single_default (v ∷ vs)) ≡ 1
unfolding with_single_default
count-with_single_default v vs few =
    if-elim (λ l. count is_flagged l ≡ 1) (any is_flagged (v ∷ vs))
      (λ flagged.
        let (x, i, hit) = any_witness is_flagged (v ∷ vs) flagged in
        omega (arith, count_kept (v ∷ vs), few, count_positive is_flagged (v ∷ vs) x i hit))
      (λ plain. ap suc (count_unflagged vs))
