-- ===== src/Catalog/Unique.antt =====
-- backend/src/services/product.service.ts: the loop of `uniqueSlug` ends, with a slug that is free.
use Prim.Native.Nat.{◌≤◌, ◌<◌}
use Prim.Native.Char.{Char}
use text.Mathlib.Text.{◌==◌ as str_eq}
use text.Mathlib.TextEquality.{eq_iff}
use generic_ecommerce_store.Common.{
  ◌==◌, ℕ, zero, suc, Bool, Option, none, some, List, [], ◌∷◌, ◌++◌, String, not, ◌+◌,
  if◌then◌else◌, true, false, ◌≡◌, refl, sym, ap, ◌∙◌, subst, arith, Bool-cases, if-elim, inl, inr,
}
use generic_ecommerce_store.Common.Lists.{any, find?, keep, length, IsIn, find?-IsIn}
use generic_ecommerce_store.Common.Counting.{IsIn-keep, any-IsIn, any_witness}
use generic_ecommerce_store.Text.{to_chars, of_chars}
use generic_ecommerce_store.Catalog.{ProductRow}
use generic_ecommerce_store.Catalog.Numerals.{to_decimal, to_decimal_injective}
use generic_ecommerce_store.Catalog.Slugs.{
  slugify, candidate, is_taken, blocks, first_free, unique_slug,
}

to_chars-of_chars : (cs : List Char) → to_chars (of_chars cs) ≡ cs
to_chars-of_chars [] = refl
to_chars-of_chars (c ∷ cs) = ap (λ l. c ∷ l) (to_chars-of_chars cs)

drop_prefix : List Char → List Char → List Char
drop_prefix [] ys = ys
drop_prefix (x ∷ xs) [] = []
drop_prefix (x ∷ xs) (y ∷ ys) = drop_prefix xs ys

drop_prefix-append : (xs ys : List Char) → drop_prefix xs (xs ++ ys) ≡ ys
unfolding drop_prefix
drop_prefix-append [] ys = refl
drop_prefix-append (x ∷ xs) ys = drop_prefix-append xs ys

drop_prefix_self : (xs : List Char) → drop_prefix xs xs ≡ []
unfolding drop_prefix
drop_prefix_self [] = refl
drop_prefix_self (x ∷ xs) = drop_prefix_self xs

-- What follows the root.
suffix : String → ℕ → List Char
suffix root n = drop_prefix (to_chars root) (to_chars (candidate root n))

suffix-zero : (root : String) → suffix root zero ≡ []
unfolding suffix
suffix-zero root = drop_prefix_self (to_chars root)

suffix-suc : (root : String) (n : ℕ) → suffix root (suc n) ≡ "-" ∷ to_decimal (suc n)
unfolding suffix
suffix-suc root n =
    ap (drop_prefix (to_chars root)) (to_chars-of_chars (to_chars root ++ "-" ∷ to_decimal (suc n)))
    ∙ drop_prefix-append (to_chars root) ("-" ∷ to_decimal (suc n))

is_nil : List Char → Bool
is_nil [] = true
is_nil (c ∷ cs) = false

tail_of : List Char → List Char
tail_of [] = []
tail_of (c ∷ cs) = cs

-- No candidate comes twice.
candidate_injective : (root : String) (m n : ℕ) → candidate root m ≡ candidate root n → m ≡ n
unfolding suffix is_nil tail_of
candidate_injective root m n h = go m n (ap (λ s. drop_prefix (to_chars root) (to_chars s)) h)
  where
    go : (m n : ℕ) → suffix root m ≡ suffix root n → m ≡ n
    go zero zero e = refl
    go zero (suc n) e =
        absurd (ground (arith, ap is_nil (sym (suffix-zero root) ∙ (e ∙ suffix-suc root n))))
    go (suc m) zero e =
        absurd (ground (arith, ap is_nil (sym (suffix-suc root m) ∙ (e ∙ suffix-zero root))))
    go (suc m) (suc n) e =
        to_decimal_injective (suc m) (suc n)
          (ap tail_of (sym (suffix-suc root m) ∙ (e ∙ suffix-suc root n)))

length-keep_le : {A : Type 0} (p : A → Bool) (xs : List A) → length (keep p xs) ≤ length xs
length-keep_le p [] = omega arith
length-keep_le p (x ∷ xs) =
    let rest = length-keep_le p xs in
    if-elim (λ l. length l ≤ suc (length xs)) (p x) (λ hit. omega (arith, rest))
      (λ miss. omega (arith, rest))

length-keep_lt :
    {A : Type 0} (p : A → Bool) (xs : List A) (a : A)
    → IsIn a xs
    → p a ≡ false
    → length (keep p xs) < length xs
length-keep_lt p [] a i h = elim i [ ]
length-keep_lt p (x ∷ xs) a (inl same) h =
    let miss : p x ≡ false = ap p same ∙ h in
    subst (λ b. length (if b then x ∷ keep p xs else keep p xs) < suc (length xs)) (sym miss)
      (omega (arith, length-keep_le p xs))
length-keep_lt p (x ∷ xs) a (inr later) h =
    let rest = length-keep_lt p xs a later h in
    if-elim (λ l. length l < suc (length xs)) (p x) (λ hit. omega (arith, rest))
      (λ miss. omega (arith, rest))

abbrev has_slug : String → ProductRow → Bool
has_slug s p = str_eq p.slug s

module _ (root : String) (taken : String → Bool) where
  -- The first free candidate from the `n`th on.
  abbrev pub IsFirstFree : ℕ → ℕ → Type 0
  IsFirstFree n m =
      (n ≤ m)
      × (taken (candidate root m) ≡ false)
      × ((i : ℕ) → n ≤ i → i < m → taken (candidate root i) ≡ true)

  -- Each round that goes on uses up a product, which no later candidate is named as.
  first_free_found :
      (fuel n : ℕ) (products : List ProductRow)
      → ((i : ℕ)
          → n ≤ i
          → taken (candidate root i) ≡ true
          → any (has_slug (candidate root i)) products ≡ true)
      → length products < fuel
      → (m : ℕ) × (first_free taken root fuel n ≡ some (candidate root m))
        × IsFirstFree n m
        × (m ≤ n + length products)
  first_free_found zero n products held few = absurd (omega (arith, few))
  first_free_found (suc fuel) n products held few = elim (Bool-cases (taken (candidate root n))) [
    | inr free ↦ (
      n,
      ap (λ b. if b then first_free taken root fuel (suc n) else some (candidate root n)) free,
      (omega arith, free, λ i h k. absurd (omega (arith, h, k))),
      omega arith,
    )
    | inl used ↦
        let c = candidate root n in
        let left = keep (λ p. not (has_slug c p)) products in
        let (p, i, hit) = any_witness (has_slug c) products (held n (omega arith) used) in
        let fewer : length left < length products =
          length-keep_lt (λ p. not (has_slug c p)) products p i (ap not hit) in
        let (m, e, (le, free, all), bound) =
          first_free_found fuel (suc n) left still (omega (arith, few, fewer)) in
        (
          m,
          ap (λ b. if b then first_free taken root fuel (suc n) else some c) used ∙ e,
          (
            omega (arith, le),
            free,
            λ j h k. elim (Bool-cases (n == j)) [
              | inl same ↦ subst (λ x. taken (candidate root x) ≡ true) (ground (arith, same)) used
              | inr other ↦ all j (ground (arith, other, h)) k
            ],
          ),
          omega (arith, bound, fewer),
        )
  ]
    where
      differs :
          (p : ProductRow) (i : ℕ)
          → suc n ≤ i
          → has_slug (candidate root i) p ≡ true
          → not (has_slug (candidate root n) p) ≡ true
      differs p i h hit = elim (Bool-cases (has_slug (candidate root n) p)) [
        | inl also ↦
            let same : candidate root n ≡ candidate root i =
              sym ((eq_iff p.slug (candidate root n)).0 also)
              ∙ (eq_iff p.slug (candidate root i)).0 hit in
            absurd (omega (arith, candidate_injective root n i same, h))
        | inr not_also ↦ ap not not_also
      ]

      still :
          (i : ℕ)
          → suc n ≤ i
          → taken (candidate root i) ≡ true
          → any
              (has_slug (candidate root i))
              (keep (λ p. not (has_slug (candidate root n) p)) products)
            ≡ true
      still i h used =
          let (p, j, hit) =
            any_witness (has_slug (candidate root i)) products (held i (omega (arith, h)) used) in
          any-IsIn (has_slug (candidate root i)) _ p
            (IsIn-keep (λ p. not (has_slug (candidate root n) p)) products p j (differs p i h hit))
            hit

taken_held :
    (products : List ProductRow) (ignored : Option ℕ) (s : String)
    → is_taken products ignored s ≡ true
    → any (has_slug s) products ≡ true
taken_held products ignored s h = go (find? (has_slug s) products) refl h
  where
    go :
        (o : Option ProductRow)
        → find? (has_slug s) products ≡ o
        → blocks ignored o ≡ true
        → any (has_slug s) products ≡ true
    go none e k = absurd (ground (arith, k))
    go (some p) e k =
        let (i, hit) = find?-IsIn (has_slug s) products p e in
        any-IsIn (has_slug s) products p i hit

-- The loop always ends: after at most as many rounds that go on as there are products it gives the first
-- candidate, of the slug itself and the slug with -1, -2 and so on, that no other product has.
pub unique_slug-IsFirstFree :
    (lower : String → String) (products : List ProductRow) (ignored : Option ℕ) (base : String)
    → (m : ℕ) × (unique_slug lower products ignored base ≡ some (candidate (slugify lower base) m))
      × IsFirstFree (slugify lower base) (is_taken products ignored) 0 m
      × (m ≤ length products)
unfolding unique_slug
unique_slug-IsFirstFree lower products ignored base =
    let (m, e, free, bound) =
      first_free_found (slugify lower base) (is_taken products ignored) (suc (length products)) 0
        products (λ i h. taken_held products ignored (candidate (slugify lower base) i))
        (omega arith) in
    (m, e, free, omega (arith, bound))
