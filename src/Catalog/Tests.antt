-- ===== src/Catalog/Tests.antt =====
-- A catalog of two products with an image in common.
use Prim.Native.Nat.{◌≤◌}
use generic_ecommerce_store.Common.{
  inr, ap, inl, sym, subst, ◌++◌, ◌∙◌, ◌⊎◌, ℕ, Bool, true, false, none, some, List, [], ◌∷◌, ◌≡◌,
  refl, arith, String,
}
use generic_ecommerce_store.Common.Lists.{find?}
use generic_ecommerce_store.Common.Counting.{count}
use generic_ecommerce_store.Roles.{bare, vip}
use generic_ecommerce_store.Catalog.{
  Catalog, ProductRow, ImageRow, VariantRow, VariantView, Overrides, unit, has_id,
  get_product_by_id, get_all_products,
}
use generic_ecommerce_store.Catalog.Slugs.{slugify, unique_slug, candidate, is_taken}
use generic_ecommerce_store.Catalog.Unique.{IsFirstFree, unique_slug-IsFirstFree}
use generic_ecommerce_store.Catalog.Visible.{get_product_by_id-get_all_products}
use generic_ecommerce_store.Catalog.Variants.{VariantInput, with_single_default, is_flagged}
use generic_ecommerce_store.Catalog.Images.{file_of, has_url, without_files}
use generic_ecommerce_store.Text.{of_chars, to_chars}
use mathlib.Core.Option.{some-injective}
use generic_ecommerce_store.Common.Lists.{IsIn}
use generic_ecommerce_store.Catalog.Writes.{UpdateProductData, update_product}
use generic_ecommerce_store.Catalog.Files.{IsStored, IsBacked, AreApart, update_product-IsStored}

abbrev product : ℕ → String → Bool → ProductRow
product id slug vip_only = record {
  id = id;
  name = "Tea";
  slug = slug;
  category_id = 1;
  description = none;
  vip_only = vip_only;
  hidden = false;
  card_size = "STANDARD";
  sort_order = 0;
}

abbrev image : ℕ → String → ImageRow
image id url = record { product_id = id; url = url; role = "GALLERY"; sort_order = 0 }

abbrev variant : VariantRow
variant = record {
  id = 4;
  product_id = 1;
  label = "Tin";
  sku = "tin";
  pricing_mode = unit;
  base_price = 950;
  stock = 1000;
  stock_enabled = true;
  is_default = true;
  active = true;
  sort_order = 0;
  quantity_options = [];
  price_breaks = [];
}

abbrev catalog : Catalog
catalog = record {
  products = product 1 "tea" false ∷ product 2 "tea-1" true ∷ [];
  images = image 1 "/api/uploads/a" ∷ image 1 "/api/uploads/b" ∷ image 2 "/api/uploads/a" ∷ [];
  variants = variant ∷ [];
  categories = 1 ∷ [];
  ordered = [];
  files = "a" ∷ "b" ∷ "c" ∷ [];
  resolve = some;
  next_product = 3;
  next_variant = 5;
}

abbrev plain : Overrides
plain = ([], none, false)

unique_slug-IsFirstFree_example :
    (m : ℕ) × (unique_slug (λ s. s) catalog.products none "tea!"
      ≡ some (candidate (slugify (λ s. s) "tea!") m))
    × IsFirstFree (slugify (λ s. s) "tea!") (is_taken catalog.products none) 0 m
    × (m ≤ 2)
unique_slug-IsFirstFree_example = unique_slug-IsFirstFree (λ s. s) catalog.products none "tea!"

-- The third product of the name.
third_slug : unique_slug (λ s. s) catalog.products none "--tea!" ≡ some "tea-2"
unfolding unique_slug slugify
third_slug = refl

get_product_by_id-get_all_products_example :
    get_product_by_id catalog plain 2 (bare vip ∷ [])
    ≡ find?
        (λ (v : ProductRow × List VariantView). has_id 2 v.0)
        (get_all_products catalog plain (bare vip ∷ []))
get_product_by_id-get_all_products_example =
    get_product_by_id-get_all_products catalog plain 2 (bare vip ∷ []) (omega arith)

abbrev input : Bool → VariantInput
input flag = record {
  id = none;
  label = "Bag";
  sku = none;
  pricing_mode = none;
  base_price = 400;
  stock = none;
  stock_enabled = none;
  is_default = some flag;
  active = none;
  sort_order = none;
  quantity_options = [];
  price_breaks = [];
}

-- Another image and another variant in place of the old ones.
abbrev update : UpdateProductData
update = record {
  name = none;
  slug = none;
  category_id = some (some 1);
  description = none;
  vip_only = none;
  hidden = none;
  card_size = none;
  sort_order = none;
  images = some (record { url = "/api/uploads/c"; role = none; sort_order = none } ∷ []);
  variants = some (input false ∷ []);
}

-- Only the image that the other product does not have loses its file.
abbrev after : Catalog
after = record catalog {
  images = image 2 "/api/uploads/a" ∷ image 1 "/api/uploads/c" ∷ [];
  variants =
      record variant { active = false }
      ∷ record variant { id = 5; label = "Bag"; sku = "tea-1"; base_price = 400; stock = 0 }
      ∷ [];
  files = "a" ∷ "c" ∷ [];
  next_variant = 6;
}

abbrev url_of : String → String
url_of f = of_chars (to_chars "/api/uploads/" ++ to_chars f)

named :
    (u v f g : String)
    → file_of some u ≡ some g
    → u ≡ url_of g
    → u ≡ v
    → file_of some v ≡ some f
    → v ≡ url_of f
named u v f g there shape same file =
    let g_is_f : g ≡ f = some-injective g f (sym there ∙ (ap (λ w. file_of some w) same ∙ file)) in
    sym same ∙ (shape ∙ ap url_of g_is_f)

used_url :
    (u f : String)
    → ((r : ImageRow) × IsIn r catalog.images × (r.url ≡ u)) ⊎ IsIn u ("/api/uploads/c" ∷ [])
    → file_of some u ≡ some f
    → u ≡ url_of f
used_url u f (inl (r, inl e, k)) file =
    named "/api/uploads/a" u f "a" refl refl (ap (λ (s : ImageRow). s.url) e ∙ k) file
used_url u f (inl (r, inr (inl e), k)) file =
    named "/api/uploads/b" u f "b" refl refl (ap (λ (s : ImageRow). s.url) e ∙ k) file
used_url u f (inl (r, inr (inr (inl e)), k)) file =
    named "/api/uploads/a" u f "a" refl refl (ap (λ (s : ImageRow). s.url) e ∙ k) file
used_url u f (inl (r, inr (inr (inr none_left)), k)) file = elim none_left [ ]
used_url u f (inr (inl e)) file = named "/api/uploads/c" u f "c" refl refl e file
used_url u f (inr (inr none_left)) file = elim none_left [ ]

catalog-AreApart : AreApart catalog ("/api/uploads/c" ∷ [])
catalog-AreApart u v f used used' file file' =
    used_url u f used file ∙ sym (used_url v f used' file')

backed :
    (u f : String)
    → file_of some u ≡ some f
    → has_url catalog.files f ≡ true
    → IsBacked some catalog.files u
backed u f there has g file =
    subst (λ h. has_url catalog.files h ≡ true) (some-injective f g (sym there ∙ file)) has

update_product-IsStored_example : IsStored after
unfolding update_product with_single_default generic_ecommerce_store.Text.trimmed
update_product-IsStored_example =
    update_product-IsStored catalog
      (
        backed "/api/uploads/a" "a" refl refl,
        (backed "/api/uploads/b" "b" refl refl, (backed "/api/uploads/a" "a" refl refl, tt)),
      )
      1 update catalog-AreApart (backed "/api/uploads/c" "c" refl refl, tt) (λ s. s) after refl

-- A URL with a query takes the file of the one without it.
query_shared : without_files some ("a" ∷ "b" ∷ []) ("/api/uploads/a?v=1" ∷ "/b" ∷ []) ≡ ("b" ∷ [])
query_shared = refl

-- Two that are flagged stay flagged.
two_defaults : count is_flagged (with_single_default (input true ∷ input true ∷ [])) ≡ 2
unfolding with_single_default
two_defaults = refl
