-- ===== src/Catalog/Visible.antt =====
-- backend/src/services/product.service.ts: a product found by its id is one that the list shows.
use Prim.Native.Nat.{◌≤◌}
use generic_ecommerce_store.Common.{
  ℕ, Bool, Option, none, some, List, [], ◌∷◌, ◌&&◌, ◌||◌, map, not, if◌then◌else◌, true, false, ◌≡◌,
  refl, sym, ap, ◌∙◌, arith, Bool-cases, inl, inr, if-elim,
}
use generic_ecommerce_store.Common.Lists.{find?, keep, any}
use generic_ecommerce_store.Common.Counting.{count, option_map, count_positive, any_witness}
use generic_ecommerce_store.Roles.{Role, has_any_role, has_role, admin, management, vip}
use generic_ecommerce_store.Catalog.{
  Catalog, ProductRow, VariantView, Overrides, sees_all, to_visibility_filter, is_visible, view,
  visible_rows, has_id, shown_to, get_product_by_id, get_all_products,
}

abbrev if_passes : {A : Type 0} → (A → Bool) → Option A → Option A
if_passes q none = none
if_passes q (some a) = if q a then some a else none

none_found : {A : Type 0} (p : A → Bool) (xs : List A) → any p xs ≡ false → find? p xs ≡ none
none_found p [] h = refl
none_found p (x ∷ xs) h =
    let miss : p x ≡ false = ground (arith, h) in
    ap (λ b. if b then some x else find? p xs) miss
    ∙ none_found p xs (sym (ap (λ b. b || any p xs) miss) ∙ h)

-- Of a test that at most one element passes.
find?-keep :
    {A : Type 0} (p q : A → Bool) (xs : List A)
    → count p xs ≤ 1
    → find? p (keep q xs) ≡ if_passes q (find? p xs)
find?-keep p q [] few = refl
find?-keep p q (x ∷ xs) few = elim (Bool-cases (p x)) [
  | inl hit ↦
      if-elim (λ l. find? p l ≡ (if q x then some x else none)) (q x)
        (λ kept.
          ap (λ b. if b then some x else find? p (keep q xs)) hit
          ∙ ap (λ b. if b then some x else none) (sym kept))
        (λ dropped.
          find?-keep p q xs (ground (arith, hit, few))
          ∙ (ap (if_passes q) (none_found p xs (none_left hit))
              ∙ ap (λ b. if b then some x else none) (sym dropped)))
      ∙ ap (if_passes q) (ap (λ b. if b then some x else find? p xs) (sym hit))
  | inr miss ↦
      if-elim (λ l. find? p l ≡ if_passes q (find? p xs)) (q x)
        (λ kept.
          ap (λ b. if b then some x else find? p (keep q xs)) miss
          ∙ find?-keep p q xs (ground (arith, miss, few)))
        (λ dropped. find?-keep p q xs (ground (arith, miss, few)))
      ∙ ap (if_passes q) (ap (λ b. if b then some x else find? p xs) (sym miss))
]
  where
    none_left : p x ≡ true → any p xs ≡ false
    none_left hit = elim (Bool-cases (any p xs)) [
      | inl more ↦
          let (a, i, h) = any_witness p xs more in
          absurd (ground (arith, few, hit, count_positive p xs a i h))
      | inr fewer ↦ fewer
    ]

-- The two guards let through what the list's filter lets through.
guards-is_visible :
    (roles : List Role) (p : ProductRow)
    → is_visible (to_visibility_filter roles) p ≡ (
        not (p.hidden && not (sees_all roles))
        && not (p.vip_only && not (has_any_role roles (admin ∷ management ∷ vip ∷ []))))
unfolding has_any_role
guards-is_visible roles p =
    go (has_role roles admin) (has_role roles management) (has_role roles vip) refl refl refl
  where
    go :
        (a m v : Bool)
        → has_role roles admin ≡ a
        → has_role roles management ≡ m
        → has_role roles vip ≡ v
        → is_visible (to_visibility_filter roles) p ≡ (
            not (p.hidden && not (sees_all roles))
            && not (p.vip_only && not (has_any_role roles (admin ∷ management ∷ vip ∷ []))))
    go a m v ea em ev = ground (arith, ea, em, ev)

-- A product's page exists for a user exactly when the list of products shows the product to that user, and
-- it shows the same variants, prices and stock; ids are distinct.
pub get_product_by_id-get_all_products :
    (c : Catalog) (o : Overrides) (id : ℕ) (roles : List Role)
    → count (has_id id) c.products ≤ 1
    → get_product_by_id c o id roles
      ≡ find? (λ (v : ProductRow × List VariantView). has_id id v.0) (get_all_products c o roles)
unfolding get_product_by_id get_all_products
get_product_by_id-get_all_products c o id roles few =
    shown (find? (has_id id) c.products)
    ∙ (ap (option_map (view c o))
          (sym (find?-keep (has_id id) (is_visible (to_visibility_filter roles)) c.products few))
        ∙ sym (mapped (visible_rows c roles)))
  where
    two_guards :
        (v : ProductRow × List VariantView) (a b : Bool)
        → (if a then none else if b then none else some v)
          ≡ (if not a && not b then some v else none)
    two_guards v true b = refl
    two_guards v false true = refl
    two_guards v false false = refl

    passed :
        (b : Bool) (p : ProductRow)
        → (if b then some (view c o p) else none)
          ≡ option_map (view c o) (if b then some p else none)
    passed true p = refl
    passed false p = refl

    out :
        (b : Bool) (p : ProductRow) (x : Option ProductRow)
        → (if b then some (view c o p) else option_map (view c o) x)
          ≡ option_map (view c o) (if b then some p else x)
    out true p x = refl
    out false p x = refl

    mapped :
        (ps : List ProductRow)
        → find? (λ (v : ProductRow × List VariantView). has_id id v.0) (map (view c o) ps)
          ≡ option_map (view c o) (find? (has_id id) ps)
    mapped [] = refl
    mapped (p ∷ ps) =
        ap (λ x. if has_id id p then some (view c o p) else x) (mapped ps)
        ∙ out (has_id id p) p (find? (has_id id) ps)

    shown :
        (x : Option ProductRow)
        → shown_to c o roles x
          ≡ option_map (view c o) (if_passes (is_visible (to_visibility_filter roles)) x)
    shown none = refl
    shown (some p) =
        two_guards (view c o p) (p.hidden && not (sees_all roles))
          (p.vip_only && not (has_any_role roles (admin ∷ management ∷ vip ∷ [])))
        ∙ (ap (λ b. if b then some (view c o p) else none) (sym (guards-is_visible roles p))
            ∙ passed (is_visible (to_visibility_filter roles) p) p)
