-- ===== src/Common/Lists.antt =====
-- Lists measured and indexed by native numbers, and predicates over them.
use Prim.Native.Nat.{ℕ, zero, suc, ◌<◌}
use mathlib.Core.Path.{◌≡◌, refl, subst, sym, ap, ◌∙◌}
use mathlib.Core.List.{List, [], ◌∷◌, ◌++◌}
use mathlib.Core.Bool.{Bool, true, false, ◌||◌}
use mathlib.Core.Option.{Option, none, some, some-injective}
use mathlib.Core.Logic.{◌⊎◌, inl, inr}
use native.Mathlib.Omega.{arith}
use generic_ecommerce_store.Common.Tests.{if◌then◌else◌, if-elim, Bool-cases}

module _ {ℓ} {A : Type ℓ} where
  abbrev pub length : List A → ℕ
  length [] = 0
  length (x ∷ xs) = suc (length xs)

  abbrev pub get_elem? : List A → ℕ → Option A
  get_elem? [] i = none
  get_elem? (x ∷ xs) zero = some x
  get_elem? (x ∷ xs) (suc i) = get_elem? xs i

  abbrev pub any : (A → Bool) → List A → Bool
  any p [] = false
  any p (x ∷ xs) = p x || any p xs

  abbrev pub find? : (A → Bool) → List A → Option A
  find? p [] = none
  find? p (x ∷ xs) = if p x then some x else find? p xs

  -- `filter` with a Boolean test, as in the source.
  abbrev pub keep : (A → Bool) → List A → List A
  keep p [] = []
  keep p (x ∷ xs) = if p x then x ∷ keep p xs else keep p xs

  pub get_elem?-lt : (xs : List A) (i : ℕ) {a : A} → get_elem? xs i ≡ some a → i < length xs
  get_elem?-lt [] i h = ground arith
  get_elem?-lt (x ∷ xs) zero h = omega arith
  get_elem?-lt (x ∷ xs) (suc i) h = omega (arith, get_elem?-lt xs i h)

  pub get_elem?-some : (xs : List A) (i : ℕ) → i < length xs → (a : A) × (get_elem? xs i ≡ some a)
  get_elem?-some [] i h = elim h [ ]
  get_elem?-some (x ∷ xs) zero h = (x, refl)
  get_elem?-some (x ∷ xs) (suc i) h = get_elem?-some xs i (omega arith)

module _ {ℓ κ} {A : Type ℓ} (P : A → Type κ) where
  abbrev pub All : List A → Type κ
  All [] = Unit
  All (x ∷ xs) = P x × All xs

  pub All-append : (xs ys : List A) → All xs → All ys → All (xs ++ ys)
  All-append [] ys hx hy = hy
  All-append (x ∷ xs) ys hx hy = (hx.0, All-append xs ys hx.1 hy)

  pub All-get_elem? : (xs : List A) (i : ℕ) {a : A} → All xs → get_elem? xs i ≡ some a → P a
  All-get_elem? [] i h e = absurd (cc)
  All-get_elem? (x ∷ xs) zero {a} h e = let same : x ≡ a = cc in subst P same h.0
  All-get_elem? (x ∷ xs) (suc i) h e = All-get_elem? xs i h.1 e

-- Membership by recursion, which computes to a sum.
abbrev pub IsIn : {A : Type 0} → A → List A → Type 0
IsIn a [] = ⊥
IsIn a (x ∷ xs) = (x ≡ a) ⊎ IsIn a xs

-- What is found is in the list and passes the test.
pub find?-IsIn :
    {A : Type 0} (p : A → Bool) (xs : List A) (a : A)
    → find? p xs ≡ some a
    → IsIn a xs × (p a ≡ true)
find?-IsIn p [] a h = absurd (cc)
find?-IsIn {A} p (x ∷ xs) a h = elim (Bool-cases (p x)) [
  | inl hit ↦
      let same : x ≡ a =
        some-injective x a (ap (λ b. if b then some x else find? p xs) (sym hit) ∙ h) in
      (inl same, ap p (sym same) ∙ hit)
  | inr miss ↦
      let (there, passes) =
        find?-IsIn p xs a (ap (λ b. if b then some x else find? p xs) (sym miss) ∙ h) in
      (inr there, passes)
]

pub keep-IsIn :
    {A : Type 0} (p : A → Bool) (xs : List A) (a : A)
    → IsIn a (keep p xs)
    → IsIn a xs × (p a ≡ true)
keep-IsIn p [] a h = elim h [ ]
keep-IsIn p (x ∷ xs) a h =
    if-elim (λ l. IsIn a l → IsIn a (x ∷ xs) × (p a ≡ true)) (p x)
      (λ hit there. elim there [
        | inl same ↦ (inl same, ap p (sym same) ∙ hit)
        | inr later ↦ let (i, passes) = keep-IsIn p xs a later in (inr i, passes)
      ])
      (λ miss there. let (i, passes) = keep-IsIn p xs a there in (inr i, passes)) h
