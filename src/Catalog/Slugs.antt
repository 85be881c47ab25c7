-- ===== src/Catalog/Slugs.antt =====
-- backend/src/services/product.service.ts, `slugify` and `uniqueSlug`: the slug of a product.
-- The lower-casing of a text is an argument.
use Prim.Native.Char.{Char, code}
use mathlib.Core.List.{reverse}
use text.Mathlib.Text.{◌==◌ as str_eq}
use generic_ecommerce_store.Common.{
  ℕ, zero, suc, Bool, Option, none, some, List, [], ◌∷◌, ◌++◌, String, ◌==◌, ◌&&◌, ◌||◌, not,
  if◌then◌else◌, true, false, leb,
}
use generic_ecommerce_store.Common.Lists.{find?, length}
use generic_ecommerce_store.Text.{to_chars, of_chars}
use generic_ecommerce_store.Catalog.Numerals.{to_decimal}
use generic_ecommerce_store.Catalog.{ProductRow}

-- `[a-z0-9]`
abbrev is_slug_char : Char → Bool
is_slug_char c = (leb 97 (code c) && leb (code c) 122) || (leb 48 (code c) && leb (code c) 57)

-- `.replace(/[^a-z0-9]+/g, '-')`: a run of other characters becomes one dash.
abbrev collapse : Bool → List Char → List Char
collapse in_run [] = []
collapse in_run (c ∷ cs) =
    let kept = collapse false cs in
    let run = collapse true cs in
    if is_slug_char c then c ∷ kept else if in_run then run else "-" ∷ run

abbrev drop_dashes : List Char → List Char
drop_dashes [] = []
drop_dashes (c ∷ cs) = if code c == 45 then drop_dashes cs else c ∷ cs

-- `.replace(/^-+|-+$/g, '') || 'product'`
abbrev or_product : List Char → String
or_product [] = "product"
or_product cs = of_chars cs

unfoldable pub slugify : (String → String) → String → String
slugify lower s =
    or_product (reverse (drop_dashes (reverse (drop_dashes (collapse false (to_chars (lower s)))))))

-- The slug itself, then with `-1`, `-2` and so on.
abbrev pub candidate : String → ℕ → String
candidate root zero = root
candidate root (suc n) = of_chars (to_chars root ++ "-" ∷ to_decimal (suc n))

-- Whether the product that has the slug is another one.
abbrev pub blocks : Option ℕ → Option ProductRow → Bool
blocks ignored none = false
blocks none (some p) = true
blocks (some id) (some p) = not (p.id == id)

abbrev pub is_taken : List ProductRow → Option ℕ → String → Bool
is_taken products ignored slug = blocks ignored (find? (λ p. str_eq p.slug slug) products)

-- The loop, of at most `fuel` rounds.
abbrev pub first_free : (String → Bool) → String → ℕ → ℕ → Option String
first_free taken root zero n = none
first_free taken root (suc fuel) n =
    let rest = first_free taken root fuel (suc n) in
    if taken (candidate root n) then rest else some (candidate root n)

-- One round more than there are products.
unfoldable pub unique_slug : (String → String) → List ProductRow → Option ℕ → String → Option String
unique_slug lower products ignored base =
    first_free (is_taken products ignored) (slugify lower base) (suc (length products)) 0
