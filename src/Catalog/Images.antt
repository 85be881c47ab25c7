-- ===== src/Catalog/Images.antt =====
-- backend/src/services/product.service.ts: the images of products and the files that go with them.
-- Files are deleted after the transaction, by deleteUploadedFile of backend/src/utils/fileUtils.ts; a URL
-- that names the directory of the uploads itself, whose deletion throws, is left out.
use Prim.Native.Char.{Char, code}
use text.Mathlib.Text.{◌==◌ as str_eq}
use generic_ecommerce_store.Text.{to_chars, of_chars}
use generic_ecommerce_store.Common.{
  ℕ, suc, Bool, Option, none, some, List, [], ◌∷◌, ◌++◌, map, String, ◌==◌, ◌&&◌, not, false,
  if◌then◌else◌,
}
use generic_ecommerce_store.Common.Lists.{any, keep}
use generic_ecommerce_store.Pricing.{or_else}
use generic_ecommerce_store.Catalog.{Catalog, ImageRow}

pub record ProductImageInput : Type 0 where
  pub url : String
  pub role : Option String
  pub sort_order : Option ℕ

abbrev pub image_rows : ℕ → ℕ → List ProductImageInput → List ImageRow
image_rows product i [] = []
image_rows product i (img ∷ imgs) =
    record {
      product_id = product;
      url = img.url;
      role = or_else img.role "GALLERY";
      sort_order = or_else img.sort_order i;
    }
    ∷ image_rows product (suc i) imgs

-- The images: all are replaced.
abbrev pub is_image_of : ℕ → ImageRow → Bool
is_image_of id r = r.product_id == id

abbrev pub replaced_images : ℕ → Option (List ProductImageInput) → List ImageRow → List ImageRow
replaced_images id none rows = rows
replaced_images id (some imgs) rows =
    keep (λ r. not (is_image_of id r)) rows ++ image_rows id 0 imgs

abbrev pub has_url : List String → String → Bool
has_url urls url = any (λ u. str_eq u url) urls

-- The uploads that no image of another product has.
abbrev pub get_orphaned_urls : List ImageRow → ℕ → List String → List String
get_orphaned_urls images id urls =
    let others : List ImageRow =
      keep (λ (r : ImageRow). not (r.product_id == id) && has_url urls r.url) images in
    keep (λ u. not (any (λ (r : ImageRow). str_eq r.url u) others)) urls

abbrev pub urls_of : ℕ → List ImageRow → List String
urls_of id images = map (λ (r : ImageRow). r.url) (keep (is_image_of id) images)

-- `url.startsWith(..)` and what comes after it.
abbrev pub after_prefix : List Char → List Char → Option (List Char)
after_prefix [] cs = some cs
after_prefix (p ∷ ps) [] = none
after_prefix (p ∷ ps) (c ∷ cs) = if code p == code c then after_prefix ps cs else none

-- `split('?')[0]`
abbrev pub before_query : List Char → List Char
before_query [] = []
before_query (c ∷ cs) = if code c == b'?' then [] else c ∷ before_query cs

-- The file that `deleteUploadedFile` takes for a URL: none outside the uploads.
abbrev pub file_of : (String → Option String) → String → Option String
file_of resolve url = elim (after_prefix (to_chars "/api/uploads/") (to_chars url)) [
  | none ↦ none
  | some name ↦ resolve (of_chars (before_query name))
]

abbrev pub is_file : String → Option String → Bool
is_file f none = false
is_file f (some g) = str_eq g f

-- The files that stay once those of the orphaned URLs are deleted; a missing file is no error.
abbrev pub without_files : (String → Option String) → List String → List String → List String
without_files resolve files orphaned =
    keep (λ f. not (any (λ u. is_file f (file_of resolve u)) orphaned)) files

-- The files after an update: those of the old images that are not among the new ones go.
abbrev pub cleaned_files :
    Catalog → List ImageRow → ℕ → Option (List ProductImageInput) → List String
cleaned_files c images id none = c.files
cleaned_files c images id (some imgs) =
    let new_urls : List String = map (λ (img : ProductImageInput). img.url) imgs in
    without_files c.resolve c.files
      (get_orphaned_urls images id (keep (λ u. not (has_url new_urls u)) (urls_of id c.images)))
