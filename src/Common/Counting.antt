-- ===== src/Common/Counting.antt =====
-- How many elements of a list pass a test, and which.
use Prim.Native.Nat.{ℕ, suc, ◌≤◌, ◌<◌, ◌+◌}
use mathlib.Core.Path.{subst, ◌≡◌, refl, sym, ap, ◌∙◌}
use mathlib.Core.List.{List, [], ◌∷◌, ◌++◌, map}
use mathlib.Core.Bool.{Bool, true, false, ◌||◌}
use mathlib.Core.Option.{Option, none, some}
use mathlib.Core.Logic.{◌⊎◌, inl, inr}
use native.Mathlib.Omega.{arith}
use generic_ecommerce_store.Common.Tests.{if-elim, if◌then◌else◌, Bool-cases}
use generic_ecommerce_store.Common.Lists.{length, keep, any, find?, IsIn, All}

-- The number of elements that pass.
abbrev pub count : {A : Type 0} → (A → Bool) → List A → ℕ
count p [] = 0
count p (x ∷ xs) = if p x then suc (count p xs) else count p xs

pub length-keep : {A : Type 0} (p : A → Bool) (xs : List A) → length (keep p xs) ≡ count p xs
length-keep p [] = refl
length-keep p (x ∷ xs) = elim (Bool-cases (p x)) [
  | inl hit ↦ ground (arith, hit, length-keep p xs)
  | inr miss ↦ ground (arith, miss, length-keep p xs)
]

pub count-append_one :
    {A : Type 0} (p : A → Bool) (xs : List A) (a : A)
    → count p (xs ++ a ∷ []) ≡ count p xs + (if p a then 1 else 0)
count-append_one p [] a = elim (Bool-cases (p a)) [
  | inl hit ↦ ground (arith, hit)
  | inr miss ↦ ground (arith, miss)
]
count-append_one p (x ∷ xs) a = elim (Bool-cases (p x)) [
  | inl hit ↦ ground (arith, hit, count-append_one p xs a)
  | inr miss ↦ ground (arith, miss, count-append_one p xs a)
]

-- What passes after a change passed another test before it.
pub count-map_le :
    {A : Type 0} (q r : A → Bool) (g : A → A)
    → ((x : A) → q (g x) ≡ true → r x ≡ true)
    → (xs : List A) → count q (map g xs) ≤ count r xs
count-map_le q r g h [] = omega arith
count-map_le q r g h (x ∷ xs) =
    let below = count-map_le q r g h xs in
    elim (Bool-cases (q (g x))) [
      | inl hit ↦ ground (arith, hit, h x hit, below)
      | inr miss ↦ elim (Bool-cases (r x)) [
        | inl also ↦ ground (arith, miss, also, below)
        | inr neither ↦ ground (arith, miss, neither, below)
      ]
    ]

pub count_positive :
    {A : Type 0} (p : A → Bool) (xs : List A) (a : A) → IsIn a xs → p a ≡ true → 0 < count p xs
count_positive p [] a i h = elim i [ ]
count_positive p (x ∷ xs) a (inl same) h =
    let hit : p x ≡ true = ap p same ∙ h in ground (arith, hit)
count_positive p (x ∷ xs) a (inr later) h =
    let below = count_positive p xs a later h in
    elim (Bool-cases (p x)) [
      | inl hit ↦ ground (arith, hit, below)
      | inr miss ↦ ground (arith, miss, below)
    ]

-- Of a test that at most one element passes, two that pass are one.
pub count_unique :
    {A : Type 0} (p : A → Bool) (xs : List A) (a b : A)
    → count p xs ≤ 1
    → IsIn a xs
    → p a ≡ true
    → IsIn b xs
    → p b ≡ true
    → a ≡ b
count_unique p [] a b few i ha j hb = elim i [ ]
count_unique p (x ∷ xs) a b few (inl i) ha (inl j) hb = sym i ∙ j
count_unique p (x ∷ xs) a b few (inl i) ha (inr j) hb =
    let hit : p x ≡ true = ap p i ∙ ha in
    absurd (ground (arith, hit, few, count_positive p xs b j hb))
count_unique p (x ∷ xs) a b few (inr i) ha (inl j) hb =
    let hit : p x ≡ true = ap p j ∙ hb in
    absurd (ground (arith, hit, few, count_positive p xs a i ha))
count_unique {A} p (x ∷ xs) a b few (inr i) ha (inr j) hb = elim (Bool-cases (p x)) [
  | inl hit ↦ count_unique p xs a b (ground (arith, hit, few)) i ha j hb
  | inr miss ↦ count_unique p xs a b (ground (arith, miss, few)) i ha j hb
]

pub any-IsIn :
    {A : Type 0} (p : A → Bool) (xs : List A) (a : A) → IsIn a xs → p a ≡ true → any p xs ≡ true
any-IsIn p [] a i h = elim i [ ]
any-IsIn p (x ∷ xs) a (inl same) h = ap (λ b. b || any p xs) (ap p same ∙ h)
any-IsIn p (x ∷ xs) a (inr later) h = elim (Bool-cases (p x)) [
  | inl hit ↦ ap (λ b. b || any p xs) hit
  | inr miss ↦ ap (λ b. b || any p xs) miss ∙ any-IsIn p xs a later h
]

pub any_witness :
    {A : Type 0} (p : A → Bool) (xs : List A) → any p xs ≡ true → (a : A) × IsIn a xs × (p a ≡ true)
any_witness p [] h = absurd (ground (arith, h))
any_witness p (x ∷ xs) h = elim (Bool-cases (p x)) [
  | inl hit ↦ (x, inl refl, hit)
  | inr miss ↦
      let (a, i, ha) = any_witness p xs (sym (ap (λ b. b || any p xs) miss) ∙ h) in (a, inr i, ha)
]

pub map-IsIn : {A : Type 0} (g : A → A) (xs : List A) (a : A) → IsIn a xs → IsIn (g a) (map g xs)
map-IsIn g [] a i = elim i [ ]
map-IsIn g (x ∷ xs) a (inl same) = inl (ap g same)
map-IsIn g (x ∷ xs) a (inr later) = inr (map-IsIn g xs a later)

pub append-IsIn : {A : Type 0} (xs ys : List A) (a : A) → IsIn a xs → IsIn a (xs ++ ys)
append-IsIn [] ys a i = elim i [ ]
append-IsIn (x ∷ xs) ys a (inl same) = inl same
append-IsIn (x ∷ xs) ys a (inr later) = inr (append-IsIn xs ys a later)

-- A search finds something if something passes.
pub find?-some :
    {A : Type 0} (p : A → Bool) (xs : List A) → any p xs ≡ true → (a : A) × (find? p xs ≡ some a)
find?-some p [] h = absurd (ground (arith, h))
find?-some p (x ∷ xs) h = elim (Bool-cases (p x)) [
  | inl hit ↦ (x, ap (λ b. if b then some x else find? p xs) hit)
  | inr miss ↦
      let (a, e) = find?-some p xs (sym (ap (λ b. b || any p xs) miss) ∙ h) in
      (a, ap (λ b. if b then some x else find? p xs) miss ∙ e)
]

pub find?-none :
    {A : Type 0} (p : A → Bool) (xs : List A)
    → find? p xs ≡ none
    → (a : A) → IsIn a xs
    → p a ≡ false
find?-none p xs h a i = elim (Bool-cases (p a)) [
  | inl hit ↦ let (b, e) = find?-some p xs (any-IsIn p xs a i hit) in absurd (ground (arith, e, h))
  | inr miss ↦ miss
]

pub map-map : {A : Type 0} (f g : A → A) (xs : List A) → map f (map g xs) ≡ map (λ x. f (g x)) xs
map-map f g [] = refl
map-map f g (x ∷ xs) = ap (λ l. f (g x) ∷ l) (map-map f g xs)

abbrev pub option_map : {A B : Type 0} → (A → B) → Option A → Option B
option_map f none = none
option_map f (some a) = some (f a)

-- A change that keeps the test changes what is found.
pub find?-map :
    {A : Type 0} (p : A → Bool) (g : A → A)
    → ((x : A) → p (g x) ≡ p x)
    → (xs : List A) → find? p (map g xs) ≡ option_map g (find? p xs)
find?-map p g h [] = refl
find?-map p g h (x ∷ xs) = elim (Bool-cases (p x)) [
  | inl hit ↦
      ap (λ b. if b then some (g x) else find? p (map g xs)) (h x ∙ hit)
      ∙ ap (option_map g) (ap (λ b. if b then some x else find? p xs) (sym hit))
  | inr miss ↦
      ap (λ b. if b then some (g x) else find? p (map g xs)) (h x ∙ miss)
      ∙ (find?-map p g h xs
          ∙ ap (option_map g) (ap (λ b. if b then some x else find? p xs) (sym miss)))
]

-- A row at the end is found if no earlier one is.
pub find?-append_one :
    {A : Type 0} (p : A → Bool) (xs : List A) (a : A)
    → any p xs ≡ false
    → find? p (xs ++ a ∷ []) ≡ (if p a then some a else none)
find?-append_one p [] a h = refl
find?-append_one p (x ∷ xs) a h = elim (Bool-cases (p x)) [
  | inl hit ↦ absurd (ground (arith, hit, h))
  | inr miss ↦
      ap (λ b. if b then some x else find? p (xs ++ a ∷ [])) miss
      ∙ find?-append_one p xs a (sym (ap (λ b. b || any p xs) miss) ∙ h)
]

-- A row at the end that fails the test is not found.
pub find?-append_other :
    {A : Type 0} (p : A → Bool) (xs : List A) (a : A)
    → p a ≡ false
    → find? p (xs ++ a ∷ []) ≡ find? p xs
find?-append_other p [] a h = ap (λ b. if b then some a else none) h
find?-append_other p (x ∷ xs) a h =
    ap (λ o. if p x then some x else o) (find?-append_other p xs a h)

-- What is in a list and passes is kept.
pub IsIn-keep :
    {A : Type 0} (p : A → Bool) (xs : List A) (a : A) → IsIn a xs → p a ≡ true → IsIn a (keep p xs)
IsIn-keep p [] a i h = elim i [ ]
IsIn-keep p (x ∷ xs) a (inl same) h =
    let hit : p x ≡ true = ap p same ∙ h in
    subst (λ b. IsIn a (if b then x ∷ keep p xs else keep p xs)) (sym hit) (inl same)
IsIn-keep p (x ∷ xs) a (inr later) h =
    if-elim (IsIn a) (p x) (λ hit. inr (IsIn-keep p xs a later h))
      (λ miss. IsIn-keep p xs a later h)

-- What is in two lists one after the other is in one of them.
pub IsIn-append : {A : Type 0} (xs ys : List A) (a : A) → IsIn a (xs ++ ys) → IsIn a xs ⊎ IsIn a ys
IsIn-append [] ys a i = inr i
IsIn-append (x ∷ xs) ys a (inl same) = inl (inl same)
IsIn-append (x ∷ xs) ys a (inr later) = elim (IsIn-append xs ys a later) [
  | inl i ↦ inl (inr i)
  | inr i ↦ inr i
]

pub All-IsIn : {A : Type 0} (P : A → Type 0) (xs : List A) → ((a : A) → IsIn a xs → P a) → All P xs
All-IsIn P [] h = tt
All-IsIn P (x ∷ xs) h = (h x (inl refl), All-IsIn P xs (λ a i. h a (inr i)))

pub IsIn-All : {A : Type 0} (P : A → Type 0) (xs : List A) (a : A) → All P xs → IsIn a xs → P a
IsIn-All P [] a h i = elim i [ ]
IsIn-All P (x ∷ xs) a (hx, h) (inl same) = subst P same hx
IsIn-All P (x ∷ xs) a (hx, h) (inr later) = IsIn-All P xs a h later
