-- ===== src/Pricing/UnitPrice.antt =====
-- Which break `resolveUnitPrice` chooses.
use generic_ecommerce_store.Common.{
  ltb→lt, ltb, leb→le, get_elem?-lt, ◌+◌, ap, ◌∙◌, sym, ==_iff, ◌==◌, if◌then◌else◌, ℕ, zero, suc,
  ◌≤◌, ◌<◌, ◌≡◌, ◌⊎◌, inl, inr, true, false, some, List, arith, length, get_elem?, get_elem?-some,
  Bool-cases, refl,
}
use generic_ecommerce_store.Pricing.{
  epsilon, resolve_unit_price, PriceBreak, is_eligible, choose_break,
}

-- The breaks stand in ascending order of `minQuantity`.
abbrev pub IsAscending : List PriceBreak → Type 0
IsAscending breaks =
    (i j : ℕ) (a b : PriceBreak)
    → i < j
    → get_elem? breaks i ≡ some a
    → get_elem? breaks j ≡ some b
    → a.min_quantity ≤ b.min_quantity

-- No break from index `i` on and before `n` can be used at this quantity.
abbrev NoneFrom : List PriceBreak → ℕ → ℕ → ℕ → Type 0
NoneFrom breaks quantity i n =
    (j : ℕ) (c : PriceBreak)
    → i ≤ j
    → j < n
    → get_elem? breaks j ≡ some c
    → is_eligible quantity c ≡ false

-- The price is that of the last break before `n` that can be used.
abbrev LastEligible : List PriceBreak → ℕ → ℕ → ℕ → Type 0
LastEligible breaks quantity price n =
    (i : ℕ) × (b : PriceBreak) × (get_elem? breaks i ≡ some b)
    × (is_eligible quantity b ≡ true)
    × (price ≡ b.unit_price)
    × NoneFrom breaks quantity (suc i) n

module _ (breaks : List PriceBreak) (quantity base : ℕ) where
  NoneFrom-suc :
      (i n : ℕ) (b : PriceBreak)
      → get_elem? breaks n ≡ some b
      → is_eligible quantity b ≡ false
      → NoneFrom breaks quantity i n
      → NoneFrom breaks quantity i (suc n)
  NoneFrom-suc i n b found no_use before j c lo hi e = elim (Bool-cases (j == n)) [
    | inl same ↦
        let at : j ≡ n = (==_iff j n).0 same in
        let one : some c ≡ some b = sym e ∙ ap (get_elem? breaks) at ∙ found in
        let this : c ≡ b = cc in rw this no_use
    | inr other ↦ before j c lo (ground arith) e
  ]

  choose_break-suc :
      (n : ℕ) (b : PriceBreak)
      → get_elem? breaks n ≡ some b
      → choose_break breaks quantity base (suc n)
        ≡ (if is_eligible quantity b then b.unit_price else choose_break breaks quantity base n)
  unfolding choose_break
  choose_break-suc n b found = rw (found, choose_break)

  choose_break-cases :
      (n : ℕ)
      → n ≤ length breaks
      → (NoneFrom breaks quantity 0 n × (choose_break breaks quantity base n ≡ base))
        ⊎ LastEligible breaks quantity (choose_break breaks quantity base n) n
  choose_break-cases zero h = inl (λ j c lo hi e. absurd (omega arith), unfold choose_break in refl)
  choose_break-cases (suc n) h =
      let (b, found) = get_elem?-some breaks n (omega arith) in
      let step = choose_break-suc n b found in
      elim (Bool-cases (is_eligible quantity b)) [
        | inl use_it ↦
            inr (n, b, found, use_it, rw step (rw use_it), λ j c lo hi e. absurd (omega arith))
        | inr no_use ↦ elim (choose_break-cases n (omega arith)) [
          | inl (before, e) ↦ inl (NoneFrom-suc 0 n b found no_use before, rw step (rw no_use e))
          | inr (i, c, at, usable, price, before) ↦ inr (
            i,
            c,
            at,
            usable,
            rw step (rw no_use price),
            NoneFrom-suc (suc i) n b found no_use before,
          )
        ]
      ]

-- What the price of a quantity is to be: the base price if no break can be used, and otherwise the
-- price of a break that can be used and has the largest `minQuantity` of those.
abbrev pub IsBest : ℕ → List PriceBreak → ℕ → ℕ → Type 0
IsBest base breaks quantity price =
    ((price ≡ base)
      × ((j : ℕ) (c : PriceBreak) → get_elem? breaks j ≡ some c → is_eligible quantity c ≡ false))
    ⊎ ((i : ℕ) × (b : PriceBreak) × (get_elem? breaks i ≡ some b)
        × (price ≡ b.unit_price)
        × (b.min_quantity ≤ quantity + epsilon)
        × ((j : ℕ) (c : PriceBreak)
            → get_elem? breaks j ≡ some c
            → c.min_quantity ≤ quantity + epsilon
            → c.min_quantity ≤ b.min_quantity))

-- Of two breaks that can be used, the one that the loop stops at does not have the smaller
-- `minQuantity`.
last_is_largest :
    (breaks : List PriceBreak) (quantity i j : ℕ) (b c : PriceBreak)
    → IsAscending breaks
    → get_elem? breaks i ≡ some b
    → NoneFrom breaks quantity (suc i) (length breaks)
    → get_elem? breaks j ≡ some c
    → c.min_quantity ≤ quantity + epsilon
    → c.min_quantity ≤ b.min_quantity
unfolding is_eligible
last_is_largest breaks quantity i j b c ascending at after found usable =
    elim (Bool-cases (j == i)) [
      | inl same ↦
          let one : some c ≡ some b =
            sym found ∙ ap (get_elem? breaks) ((==_iff j i).0 same) ∙ at in
          let this : c ≡ b = cc in omega (arith, ap (λ (x : PriceBreak). x.min_quantity) this)
      | inr other ↦ elim (Bool-cases (ltb j i)) [
        | inl before ↦ ascending j i c b (ltb→lt j i before) found at
        | inr past ↦ ground (arith, after j c (ground arith) (get_elem?-lt breaks j found) found)
      ]
    ]

-- With the breaks in ascending order, `resolveUnitPrice` returns the price of the break with the
-- largest `minQuantity` that the quantity reaches, within the tolerance, and the base price
-- exactly when it reaches none.
pub resolve_unit_price-IsBest :
    (base : ℕ) (breaks : List PriceBreak) (quantity : ℕ)
    → IsAscending breaks
    → IsBest base breaks quantity (resolve_unit_price base breaks quantity)
unfolding resolve_unit_price is_eligible
resolve_unit_price-IsBest base breaks quantity ascending =
    elim (choose_break-cases breaks quantity base (length breaks) (omega arith)) [
      | inl (none_usable, e) ↦
          inl (e, λ j c found. none_usable j c (omega arith) (get_elem?-lt breaks j found) found)
      | inr (i, b, at, usable, price, after) ↦ inr (
        i,
        b,
        at,
        price,
        leb→le _ _ usable,
        λ j c found reach. last_is_largest breaks quantity i j b c ascending at after found reach,
      )
    ]
