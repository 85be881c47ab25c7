-- ===== src/Catalog/Files.antt =====
-- backend/src/services/product.service.ts: the clean-up of uploads never takes a file that is in use.
use text.Mathlib.Text.{◌==◌ as str_eq}
use text.Mathlib.TextEquality.{eq_iff}
use generic_ecommerce_store.Common.{
  none, some, ℕ, suc, Bool, Option, none, some, List, [], ◌∷◌, map, String, ◌==◌, ◌&&◌, not, true,
  false, ◌≡◌, refl, ap, ◌∙◌, subst, arith, if-elim, inl, inr, sym, ◌⊎◌,
}
use generic_ecommerce_store.Common.Lists.{any, find?, keep, All, IsIn, keep-IsIn}
use generic_ecommerce_store.Common.Counting.{
  any-IsIn, any_witness, IsIn-keep, IsIn-append, All-IsIn, IsIn-All,
}
use generic_ecommerce_store.Catalog.{Catalog, ProductRow, ImageRow, has_id}
use generic_ecommerce_store.Catalog.Variants.{Written, broken, written}
use generic_ecommerce_store.Catalog.Images.{
  ProductImageInput, image_rows, is_image_of, replaced_images, has_url, get_orphaned_urls, urls_of,
  without_files, cleaned_files, file_of, is_file,
}
use generic_ecommerce_store.Catalog.Writes.{
  UpdateProductData, Attempt, fails, gives, commit_update, update_named, update_in, update_found,
  update_product, is_ordered, deleted_product, delete_product, category_of,
}

-- The URL names no upload, or one whose file is among these.
abbrev pub IsBacked : (String → Option String) → List String → String → Type 0
IsBacked resolve files u = (f : String) → file_of resolve u ≡ some f → has_url files f ≡ true

-- Every image that is an upload has its file.
abbrev pub IsStored : Catalog → Type 0
IsStored c = All (λ (r : ImageRow). IsBacked c.resolve c.files r.url) c.images

-- Two URLs of images, or of these new ones, that name the same file are the same: none of them differs
-- from another by a query or a detour in its path only.
abbrev pub AreApart : Catalog → List String → Type 0
AreApart c new =
    (u v f : String)
    → ((r : ImageRow) × IsIn r c.images × (r.url ≡ u)) ⊎ IsIn u new
    → ((r : ImageRow) × IsIn r c.images × (r.url ≡ v)) ⊎ IsIn v new
    → file_of c.resolve u ≡ some f
    → file_of c.resolve v ≡ some f
    → u ≡ v

has_url_witness : (urls : List String) (u : String) → has_url urls u ≡ true → IsIn u urls
has_url_witness urls u h =
    let (v, i, e) = any_witness (λ w. str_eq w u) urls h in
    subst (λ w. IsIn w urls) ((eq_iff v u).0 e) i

has_url_of : (urls : List String) (u : String) → IsIn u urls → has_url urls u ≡ true
has_url_of urls u i = any-IsIn (λ w. str_eq w u) urls u i ((eq_iff u u).1 refl)

not_true : (b : Bool) → (b ≡ true → ⊥) → b ≡ false
not_true true h = absurd (h refl)
not_true false h = refl

map_witness :
    (rs : List ImageRow) (u : String)
    → IsIn u (map (λ (r : ImageRow). r.url) rs)
    → (r : ImageRow) × IsIn r rs × (r.url ≡ u)
map_witness [] u k = elim k [ ]
map_witness (r ∷ rs) u (inl e) = (r, inl refl, e)
map_witness (r ∷ rs) u (inr later) = let (s, i, e) = map_witness rs u later in (s, inr i, e)

urls_witness :
    (images : List ImageRow) (id : ℕ) (u : String)
    → IsIn u (urls_of id images)
    → (r : ImageRow) × IsIn r images × (r.url ≡ u)
urls_witness images id u k =
    let (r, i, e) = map_witness (keep (is_image_of id) images) u k in
    (r, (keep-IsIn (is_image_of id) images r i).0, e)

is_file-some : (f : String) (o : Option String) → is_file f o ≡ true → o ≡ some f
is_file-some f none h = absurd (cc)
is_file-some f (some g) h = ap some ((eq_iff g f).0 h)

module _ (images : List ImageRow) (id : ℕ) (urls : List String) where
  abbrev others : List ImageRow
  others = keep (λ (r : ImageRow). not (r.product_id == id) && has_url urls r.url) images

  abbrev unused : String → Bool
  unused u = not (any (λ (r : ImageRow). str_eq r.url u) others)

  -- An image of another product keeps its file.
  orphaned_other :
      (r : ImageRow)
      → IsIn r images
      → (r.product_id == id) ≡ false
      → has_url (get_orphaned_urls images id urls) r.url ≡ false
  orphaned_other r i other = not_true _ (λ h.
      let (there, free) = keep-IsIn unused urls r.url (has_url_witness _ r.url h) in
      let listed : IsIn r others =
        IsIn-keep (λ (s : ImageRow). not (s.product_id == id) && has_url urls s.url) images r i
          (ap (λ b. not b && has_url urls r.url) other ∙ has_url_of urls r.url there) in
      absurd (
        ground (
          arith,
          free,
          any-IsIn (λ (s : ImageRow). str_eq s.url r.url) others r listed
              ((eq_iff r.url r.url).1 refl),
        )))

  -- What was not asked for is not taken.
  orphaned_unasked :
      (u : String) → has_url urls u ≡ false → has_url (get_orphaned_urls images id urls) u ≡ false
  orphaned_unasked u h = not_true _ (λ k.
      let (there, free) = keep-IsIn unused urls u (has_url_witness _ u k) in
      absurd (ground (arith, h, has_url_of urls u there)))

-- What holds of the catalog that a call gives.
abbrev Gives : (Catalog → Type 0) → Attempt → Type 0
Gives P (fails e) = Unit
Gives P (gives c) = P c

module _ (c : Catalog) (stored : IsStored c) (id : ℕ) (new : List String)
    (apart : AreApart c new) where
  -- A used URL keeps its file if it is not orphaned.
  kept_file :
      (images : List ImageRow) (urls : List String) (u : String)
      → ((v : String) → IsIn v urls → IsIn v (urls_of id c.images))
      → ((r : ImageRow) × IsIn r c.images × (r.url ≡ u)) ⊎ IsIn u new
      → IsBacked c.resolve c.files u
      → has_url (get_orphaned_urls images id urls) u ≡ false
      → IsBacked c.resolve (without_files c.resolve c.files (get_orphaned_urls images id urls)) u
  kept_file images urls u own used backed free f file =
      let orphaned = get_orphaned_urls images id urls in
      has_url_of (without_files c.resolve c.files orphaned) f (
        IsIn-keep (λ g. not (any (λ v. is_file g (file_of c.resolve v)) orphaned)) c.files f
          (has_url_witness c.files f (backed f file))
          (ap not (
            not_true _ (λ taken.
              let (v, i, same) =
                any_witness (λ v. is_file f (file_of c.resolve v)) orphaned taken in
              let asked = (keep-IsIn (unused images id urls) urls v i).0 in
              let here = urls_witness c.images id v (own v asked) in
              let u_is_v =
                apart u v f used (inl here) file (is_file-some f (file_of c.resolve v) same) in
              let listed = has_url_of orphaned u (subst (λ w. IsIn w orphaned) (sym u_is_v) i) in
              absurd (ground (arith, free, listed))))))

  -- The images of the other products keep their files.
  other_stored :
      (images : List ImageRow) (urls : List String) (r : ImageRow)
      → ((v : String) → IsIn v urls → IsIn v (urls_of id c.images))
      → IsIn r images
      → IsIn r (keep (λ r. not (is_image_of id r)) c.images)
      → IsBacked c.resolve
          (without_files c.resolve c.files (get_orphaned_urls images id urls))
          r.url
  other_stored images urls r own i j =
      let (k, other) = keep-IsIn (λ r. not (is_image_of id r)) c.images r j in
      kept_file images urls r.url own (inl (r, k, refl))
        (IsIn-All (λ (r : ImageRow). IsBacked c.resolve c.files r.url) c.images r stored k)
        (orphaned_other images id urls r i (ground (arith, other)))

  image_rows_url :
      (n : ℕ) (imgs : List ProductImageInput) (r : ImageRow)
      → IsIn r (image_rows id n imgs)
      → (img : ProductImageInput) × IsIn img imgs × (img.url ≡ r.url)
  image_rows_url n [] r i = elim i [ ]
  image_rows_url n (img ∷ imgs) r (inl same) = (img, inl refl, ap (λ (s : ImageRow). s.url) same)
  image_rows_url n (img ∷ imgs) r (inr later) =
      let (x, i, e) = image_rows_url (suc n) imgs r later in (x, inr i, e)

  map_url :
      (imgs : List ProductImageInput) (img : ProductImageInput)
      → IsIn img imgs
      → IsIn img.url (map (λ (img : ProductImageInput). img.url) imgs)
  map_url [] img i = elim i [ ]
  map_url (x ∷ imgs) img (inl same) = inl (ap (λ (y : ProductImageInput). y.url) same)
  map_url (x ∷ imgs) img (inr later) = inr (map_url imgs img later)

  old_urls : List ProductImageInput → List String
  old_urls imgs =
      keep (λ u. not (has_url (map (λ (img : ProductImageInput). img.url) imgs) u))
        (urls_of id c.images)

  old_urls_own :
      (imgs : List ProductImageInput) (v : String)
      → IsIn v (old_urls imgs)
      → IsIn v (urls_of id c.images)
  unfolding old_urls
  old_urls_own imgs v i =
      (keep-IsIn (λ u. not (has_url (map (λ (img : ProductImageInput). img.url) imgs) u))
        (urls_of id c.images) v i).0

  -- A new image keeps its file.
  new_stored :
      (images : List ImageRow) (imgs : List ProductImageInput) (img : ProductImageInput)
      → IsIn img imgs
      → IsIn img.url new
      → IsBacked c.resolve c.files img.url
      → IsBacked c.resolve (cleaned_files c images id (some imgs)) img.url
  unfolding old_urls
  new_stored images imgs img i used h =
      let new_urls : List String = map (λ (img : ProductImageInput). img.url) imgs in
      kept_file images (old_urls imgs) img.url (old_urls_own imgs) (inr used) h (
        orphaned_unasked images id (old_urls imgs) img.url (
          not_true (has_url (old_urls imgs) img.url) (λ k.
            let (j, fresh) =
              keep-IsIn (λ u. not (has_url new_urls u)) (urls_of id c.images) img.url
                (has_url_witness (old_urls imgs) img.url k) in
            absurd (ground (arith, fresh, has_url_of new_urls img.url (map_url imgs img i))))))

-- The URLs of the new images.
abbrev pub new_urls_of : Option (List ProductImageInput) → List String
new_urls_of none = []
new_urls_of (some imgs) = map (λ (img : ProductImageInput). img.url) imgs

module _ (c : Catalog) (stored : IsStored c) (id : ℕ) where
  -- The uploads that a request names are there.
  abbrev pub AreUploaded : Option (List ProductImageInput) → Type 0
  AreUploaded none = Unit
  AreUploaded (some imgs) =
      All (λ (img : ProductImageInput). IsBacked c.resolve c.files img.url) imgs

  replaced_stored :
      (o : Option (List ProductImageInput))
      → AreApart c (new_urls_of o)
      → AreUploaded o
      → All
          (λ (r : ImageRow).
            IsBacked c.resolve (cleaned_files c (replaced_images id o c.images) id o) r.url)
          (replaced_images id o c.images)
  unfolding old_urls
  replaced_stored none apart uploaded = stored
  replaced_stored (some imgs) apart uploaded =
      let new = new_urls_of (some imgs) in
      let images = replaced_images id (some imgs) c.images in
      let kept = keep (λ r. not (is_image_of id r)) c.images in
      All-IsIn (λ (r : ImageRow). IsBacked c.resolve (cleaned_files c images id (some imgs)) r.url)
        images
        (λ r i. elim (IsIn-append kept (image_rows id 0 imgs) r i) [
          | inl j ↦
              other_stored c stored id new apart images (old_urls c stored id new apart imgs) r
                (old_urls_own c stored id new apart imgs) i j
          | inr j ↦
              let (img, k, e) = image_rows_url c stored id new apart 0 imgs r j in
              subst (λ u. IsBacked c.resolve (cleaned_files c images id (some imgs)) u) e
                (new_stored c stored id new apart images imgs img k
                  (map_url c stored id new apart imgs img k)
                  (IsIn-All (λ (img : ProductImageInput). IsBacked c.resolve c.files img.url) imgs
                    img uploaded k))
        ])

  module _ (d : UpdateProductData) (apart : AreApart c (new_urls_of d.images))
      (uploaded : AreUploaded d.images) where
    commit_update-IsStored :
        (slug : Option String) (category : Option ℕ) (w : Written)
        → Gives IsStored (commit_update c id d slug category w)
    commit_update-IsStored slug category (broken e) = tt
    commit_update-IsStored slug category (written rows) = replaced_stored d.images apart uploaded

    update_named-IsStored :
        (existing : ProductRow) (category : Option ℕ) (slug : Option (Option String))
        → Gives IsStored (update_named c id d existing category slug)
    update_named-IsStored existing category none = tt
    update_named-IsStored existing category (some slug) = commit_update-IsStored slug category _

    update_found-IsStored :
        (lower : String → String) (o : Option ProductRow)
        → Gives IsStored (update_found lower c id d o)
    update_found-IsStored lower none = tt
    update_found-IsStored lower (some existing) =
        go (elim d.category_id [ none ↦ none | some given ↦ some (category_of given) ])
      where
        go : (o : Option (Option ℕ)) → Gives IsStored (update_in lower c id d existing o)
        go none = update_named-IsStored existing none _
        go (some none) = tt
        go (some (some category)) =
            if-elim (Gives IsStored) (not (any _ c.categories)) (λ missing. tt)
              (λ there. update_named-IsStored existing (some category) _)

    -- If every image that is an upload has its file, the files of the new images are uploaded, and no two
    -- different URLs of images or new images name the same file, as two that differ by a query do, then an
    -- update that succeeds leaves every image of every product that is an upload with its file, whatever
    -- it deletes.
    pub update_product-IsStored :
        (lower : String → String) (after : Catalog)
        → update_product lower c id d ≡ gives after
        → IsStored after
    unfolding update_product
    update_product-IsStored lower after h =
        subst (Gives IsStored) h (update_found-IsStored lower (find? (has_id id) c.products))

  module _ (apart : AreApart c []) where
    deleted_product-IsStored : IsStored (deleted_product c id)
    deleted_product-IsStored =
        let images = keep (λ r. not (is_image_of id r)) c.images in
        All-IsIn (λ (r : ImageRow). IsBacked c.resolve (deleted_product c id).files r.url) images
          (λ r i. other_stored c stored id [] apart images (urls_of id c.images) r (λ v k. k) i i)

    -- If every image that is an upload has its file and no two different URLs of images name the same file,
    -- the deletion of a product leaves every image that is an upload with its file.
    pub delete_product-IsStored :
        (after : Catalog) → delete_product c id ≡ gives after → IsStored after
    unfolding delete_product
    delete_product-IsStored after h = subst (Gives IsStored) h (
        if-elim (Gives IsStored) (not (any (has_id id) c.products)) (λ missing. tt)
          (λ there.
            if-elim (Gives IsStored) (any (is_ordered c id) c.variants) (λ ordered. tt)
              (λ free. deleted_product-IsStored)))
