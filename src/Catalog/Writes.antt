-- ===== src/Catalog/Writes.antt =====
-- backend/src/services/product.service.ts: how products are made, changed and deleted.
-- The lower-casing that slugs use is an argument.
use generic_ecommerce_store.Common.{
  ℕ, zero, suc, Bool, Option, none, some, List, [], ◌∷◌, ◌++◌, map, String, ◌==◌, ◌&&◌, not,
  if◌then◌else◌, true, false,
}
use generic_ecommerce_store.Common.Lists.{any, find?, keep}
use generic_ecommerce_store.Text.{trimmed, is_empty}
use generic_ecommerce_store.Pricing.{or_else}
use generic_ecommerce_store.Catalog.{Catalog, ProductRow, VariantRow, has_id}
use generic_ecommerce_store.Catalog.Slugs.{unique_slug}
use generic_ecommerce_store.Catalog.Variants.{
  VariantInput, VariantError, Written, broken, written, with_single_default, write_all, create_all,
  deactivated,
}
use generic_ecommerce_store.Catalog.Images.{
  ProductImageInput, image_rows, is_image_of, replaced_images, get_orphaned_urls, urls_of,
  without_files, cleaned_files,
}

-- `CreateProductData`; the category's id is `none` where it is no number.
pub record CreateProductData : Type 0 where
  pub name : String
  pub slug : Option String
  pub category_id : Option ℕ
  pub description : Option String
  pub vip_only : Option Bool
  pub hidden : Option Bool
  pub card_size : Option String
  pub sort_order : Option ℕ
  pub images : List ProductImageInput
  pub variants : List VariantInput

-- `UpdateProductData`: `none` is an absent field.
pub record UpdateProductData : Type 0 where
  pub name : Option String
  pub slug : Option String
  pub category_id : Option (Option ℕ)
  pub description : Option String
  pub vip_only : Option Bool
  pub hidden : Option Bool
  pub card_size : Option String
  pub sort_order : Option ℕ
  pub images : Option (List ProductImageInput)
  pub variants : Option (List VariantInput)

pub data ProductError : Type 0 where
  category_required category_invalid category_missing no_variants product_missing : ProductError
  variant_referenced no_slug : ProductError
  variant_error : VariantError → ProductError

pub data Attempt : Type 0 where
  fails : ProductError → Attempt
  gives : Catalog → Attempt

abbrev is_number : ℕ → ℕ → Bool
is_number a b = b == a

-- The id of a category as the tests `!categoryId` take it.
abbrev pub category_of : Option ℕ → Option ℕ
category_of none = none
category_of (some zero) = none
category_of (some (suc n)) = some (suc n)

abbrev pub new_product : Catalog → CreateProductData → String → ℕ → ProductRow
new_product c d slug category = record {
  id = c.next_product;
  name = d.name;
  slug = slug;
  category_id = category;
  description = d.description;
  vip_only = or_else d.vip_only false;
  hidden = or_else d.hidden false;
  card_size = or_else d.card_size "STANDARD";
  sort_order = or_else d.sort_order 0;
}

abbrev pub add_product : Catalog → CreateProductData → String → ℕ → Written → Attempt
add_product c d slug category (broken e) = fails (variant_error e)
add_product c d slug category (written (rows, next)) = gives (record c {
  products = c.products ++ new_product c d slug category ∷ [];
  images = c.images ++ image_rows c.next_product 0 d.images;
  variants = rows;
  next_product = suc c.next_product;
  next_variant = next;
})

abbrev pub create_named : Catalog → CreateProductData → ℕ → Option String → Attempt
create_named c d category none = fails no_slug
create_named c d category (some slug) = add_product c d slug category (
    create_all (written (c.variants, c.next_variant)) c.next_product slug 0
      (with_single_default d.variants))

abbrev is_none_given : List VariantInput → Bool
is_none_given [] = true
is_none_given (v ∷ vs) = false

abbrev pub create_in : (String → String) → Catalog → CreateProductData → Option ℕ → Attempt
create_in lower c d none = fails category_required
create_in lower c d (some category) =
    let made : Attempt =
      create_named c d category
        (unique_slug lower c.products none (or_else (trimmed d.slug) d.name)) in
    if not (any (is_number category) c.categories)
    then fails category_missing
    else if is_none_given d.variants
    then fails no_variants
    else made

unfoldable pub create_product : (String → String) → Catalog → CreateProductData → Attempt
create_product lower c d = create_in lower c d (category_of d.category_id)

-- The product's scalar fields; only the given ones change.
abbrev pub updated_product : UpdateProductData → Option String → Option ℕ → ProductRow → ProductRow
updated_product d slug category p = record p {
  name = or_else d.name p.name;
  slug = or_else slug p.slug;
  category_id = or_else category p.category_id;
  description = elim d.description [ none ↦ p.description | some t ↦ some t ];
  vip_only = or_else d.vip_only p.vip_only;
  hidden = or_else d.hidden p.hidden;
  card_size = or_else d.card_size p.card_size;
  sort_order = or_else d.sort_order p.sort_order;
}

abbrev pub changed_variants : Catalog → ℕ → String → Option (List VariantInput) → Written
changed_variants c id slug none = written (c.variants, c.next_variant)
changed_variants c id slug (some inputs) =
    let vs : List VariantInput = with_single_default inputs in
    write_all (written (deactivated id vs c.variants, c.next_variant)) id slug 0 vs

abbrev pub commit_update :
    Catalog → ℕ → UpdateProductData → Option String → Option ℕ → Written → Attempt
commit_update c id d slug category (broken e) = fails (variant_error e)
commit_update c id d slug category (written (rows, next)) =
    let images = replaced_images id d.images c.images in
    gives (record c {
      products =
          map (λ (p : ProductRow). if p.id == id then updated_product d slug category p else p)
            c.products;
      images = images;
      variants = rows;
      next_variant = next;
      files = cleaned_files c images id d.images;
    })

-- The slug of an update: `none` inside is one that the loop did not find.
abbrev pub wanted_slug :
    (String → String) → Catalog → ℕ → ProductRow → Option String → Option (Option String)
wanted_slug lower c id existing none = some none
wanted_slug lower c id existing (some slug) =
    let base = if is_empty slug then existing.name else slug in
    elim (unique_slug lower c.products (some id) base) [ none ↦ none | some s ↦ some (some s) ]

abbrev pub update_named :
    Catalog → ℕ → UpdateProductData → ProductRow → Option ℕ → Option (Option String) → Attempt
update_named c id d existing category none = fails no_slug
update_named c id d existing category (some slug) =
    commit_update c id d slug category
      (changed_variants c id (or_else slug existing.slug) d.variants)

abbrev pub update_in :
    (String → String) → Catalog → ℕ → UpdateProductData → ProductRow → Option (Option ℕ) → Attempt
update_in lower c id d existing none =
    update_named c id d existing none (wanted_slug lower c id existing d.slug)
update_in lower c id d existing (some none) = fails category_invalid
update_in lower c id d existing (some (some category)) =
    if not (any (is_number category) c.categories)
    then fails category_missing
    else update_named c id d existing (some category) (wanted_slug lower c id existing d.slug)

abbrev pub update_found :
    (String → String) → Catalog → ℕ → UpdateProductData → Option ProductRow → Attempt
update_found lower c id d none = fails product_missing
update_found lower c id d (some existing) =
    update_in lower c id d existing
      (elim d.category_id [ none ↦ none | some given ↦ some (category_of given) ])

unfoldable pub update_product : (String → String) → Catalog → ℕ → UpdateProductData → Attempt
update_product lower c id d = update_found lower c id d (find? (has_id id) c.products)

-- The deletion takes images and variants with it, unless an order names a variant.
abbrev pub is_ordered : Catalog → ℕ → VariantRow → Bool
is_ordered c id v = v.product_id == id && any (is_number v.id) c.ordered

abbrev pub deleted_product : Catalog → ℕ → Catalog
deleted_product c id =
    let images = keep (λ r. not (is_image_of id r)) c.images in
    record c {
      products = keep (λ p. not (has_id id p)) c.products;
      images = images;
      variants = keep (λ (v : VariantRow). not (v.product_id == id)) c.variants;
      files = without_files c.resolve c.files (get_orphaned_urls images id (urls_of id c.images));
    }

unfoldable pub delete_product : Catalog → ℕ → Attempt
delete_product c id =
    if not (any (has_id id) c.products)
    then fails product_missing
    else if any (is_ordered c id) c.variants
    then fails variant_referenced
    else gives (deleted_product c id)
