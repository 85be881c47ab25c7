-- ===== src/Address/Zip.antt =====
-- backend/src/utils/address.util.ts: normalizeZipCode.
use Prim.Native.Char.{Char}
use generic_ecommerce_store.Common.{
  Option, ◌∙◌, ℕ, zero, suc, ◌≡◌, refl, none, some, List, [], ◌∷◌, ◌++◌, String, true, arith, inl,
  inr, Bool-cases, Option-cases, sym, subst, ap,
}
use generic_ecommerce_store.Common.Lists.{length, All}
use mathlib.Core.Option.{some-injective}
use generic_ecommerce_store.Text.{to_chars, of_chars}
use generic_ecommerce_store.Address.{take_digits, is_digit, first_zip, normalize_zip_code}

-- Digits in front of any text are what is taken.
take_digits-append :
    (ds rest : List Char)
    → All (λ c. is_digit c ≡ true) ds
    → take_digits (length ds) (ds ++ rest) ≡ some ds
take_digits-append [] rest h = refl
take_digits-append (c ∷ ds) rest (p, h) = rw p (rw (take_digits-append ds rest h) refl)

-- What is taken are `n` digits, the first of the text.
IsPrefix : ℕ → List Char → List Char → Type 0
IsPrefix n ds cs =
    (rest : List Char) × (cs ≡ ds ++ rest) × (length ds ≡ n) × All (λ c. is_digit c ≡ true) ds

take_digits-IsPrefix : (n : ℕ) (cs ds : List Char) → take_digits n cs ≡ some ds → IsPrefix n ds cs
unfolding IsPrefix
take_digits-IsPrefix zero cs ds h =
    let none_taken : [] ≡ ds = cc in rw (sym none_taken) (cs, refl, refl, tt)
take_digits-IsPrefix (suc n) [] ds h = absurd (cc)
take_digits-IsPrefix (suc n) (c ∷ cs) ds h = elim (Bool-cases (is_digit c)) [
  | inr other ↦ absurd (ground arith)
  | inl digit ↦ elim (Option-cases (take_digits n cs)) [
    | inl short ↦ absurd (ground arith)
    | inr (es, taken) ↦
        let (rest, split, count, digits) = take_digits-IsPrefix n cs es taken in
        let same : c ∷ es ≡ ds = ground arith in
        subst (λ x. IsPrefix (suc n) x (c ∷ cs)) same
          (rest, ap (λ x. c ∷ x) split, omega (arith, count), (digit, digits))
  ]
]

-- A text that starts with five digits has these for its ZIP code, whatever follows.
first_zip-append :
    (ds rest : List Char)
    → length ds ≡ 5
    → All (λ c. is_digit c ≡ true) ds
    → first_zip (ds ++ rest) ≡ some ds
first_zip-append [] rest n h = absurd (cc)
first_zip-append (c ∷ ds) rest n h =
    let taken : take_digits 5 (c ∷ ds ++ rest) ≡ some (c ∷ ds) =
      subst (λ k. take_digits k (c ∷ ds ++ rest) ≡ some (c ∷ ds)) n
        (take_digits-append (c ∷ ds) rest h) in
    ap (λ (o : Option (List Char)). elim o [ none ↦ first_zip (ds ++ rest) | some es ↦ some es ])
      taken

-- What is found is five digits of the text.
first_zip-IsDigits :
    (cs ds : List Char) → first_zip cs ≡ some ds → (length ds ≡ 5) × All (λ c. is_digit c ≡ true) ds
unfolding IsPrefix
first_zip-IsDigits [] ds h = absurd (cc)
first_zip-IsDigits (c ∷ cs) ds h = elim (Option-cases (take_digits 5 (c ∷ cs))) [
  | inl none_here ↦ first_zip-IsDigits cs ds (sym (later none_here) ∙ h)
  | inr (es, taken) ↦
      let (_, _, count, digits) = take_digits-IsPrefix 5 (c ∷ cs) es taken in
      let same : es ≡ ds = some-injective es ds (sym (ap pick taken) ∙ h) in
      subst (λ x. (length x ≡ 5) × All (λ k. is_digit k ≡ true) x) same (count, digits)
]
  where
    pick : Option (List Char) → Option (List Char)
    pick o = elim o [ none ↦ first_zip cs | some es ↦ some es ]

    later : take_digits 5 (c ∷ cs) ≡ none → first_zip (c ∷ cs) ≡ first_zip cs
    later e = ap pick e

to_chars-of_chars : (cs : List Char) → to_chars (of_chars cs) ≡ cs
to_chars-of_chars [] = refl
to_chars-of_chars (c ∷ cs) = ap (λ x. c ∷ x) (to_chars-of_chars cs)

append_nil : (cs : List Char) → cs ++ [] ≡ cs
append_nil [] = refl
append_nil (c ∷ cs) = ap (λ x. c ∷ x) (append_nil cs)

-- An address that starts with a house number of five digits has that number for its ZIP code,
-- whatever stands behind it.
pub normalize_zip_code-append :
    (number rest : List Char)
    → length number ≡ 5
    → All (λ c. is_digit c ≡ true) number
    → normalize_zip_code (of_chars (number ++ rest)) ≡ some (of_chars number)
unfolding normalize_zip_code
normalize_zip_code-append number rest n h =
    ap (λ (o : Option (List Char)). elim o [ none ↦ none | some es ↦ some (of_chars es) ])
      (ap first_zip (to_chars-of_chars (number ++ rest)) ∙ first_zip-append number rest n h)

-- A ZIP code that was found in a text is found again in itself, so normalizing a second time
-- changes nothing.
pub normalize_zip_code_idem :
    (s z : String) → normalize_zip_code s ≡ some z → normalize_zip_code z ≡ some z
unfolding normalize_zip_code
normalize_zip_code_idem s z h = elim (Option-cases (first_zip (to_chars s))) [
  | inl missing ↦ absurd (ground arith)
  | inr (ds, found) ↦
      let (n, digits) = first_zip-IsDigits (to_chars s) ds found in
      let same : of_chars ds ≡ z = ground arith in
      subst (λ x. normalize_zip_code x ≡ some x) same
        (subst (λ x. normalize_zip_code (of_chars x) ≡ some (of_chars ds)) (append_nil ds)
          (normalize_zip_code-append ds [] n digits))
]
