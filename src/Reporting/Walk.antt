-- ===== src/Reporting/Walk.antt =====
-- backend/src/utils/reportingPagination.ts: a client that follows `next_page` from page 1.
use generic_ecommerce_store.Common.{
  ℕ, zero, suc, ◌+◌, ◌-◌, ◌*◌, ◌≤◌, ◌<◌, ◌≡◌, refl, sym, ap, subst, ◌∙◌, Option, none, some, List,
  [], ◌∷◌, ◌++◌, ltb, if◌then◌else◌, arith, true, false, if-elim,
}
use generic_ecommerce_store.Common.Lists.{length}
use generic_ecommerce_store.Reporting.{take, drop, window, paginate_rows, with_page}

module _ {A : Type 0} where
  abbrev before : List A → Option (List A) → Option (List A)
  before page_rows none = none
  before page_rows (some more) = some (page_rows ++ more)

  -- All rows that the client has seen when an answer names no next page; it asks for the page that the
  -- answer names.
  abbrev pub walk : ℕ → ℕ → ℕ → List A → Option (List A)
  walk zero page size rows = none
  walk (suc fuel) page size rows =
      let (page_rows, meta) =
        paginate_rows (window (with_page page size) rows) (with_page page size) in
      elim meta.next_page [
        | none ↦ some page_rows
        | some next ↦ before page_rows (walk fuel next size rows)
      ]

  take-append-drop : (n : ℕ) (xs : List A) → take n xs ++ drop n xs ≡ xs
  take-append-drop zero xs = refl
  take-append-drop (suc n) [] = refl
  take-append-drop (suc n) (x ∷ xs) = ap (λ l. x ∷ l) (take-append-drop n xs)

  drop_nil : (n : ℕ) → drop {A = A} n [] ≡ []
  drop_nil zero = refl
  drop_nil (suc n) = refl

  drop-drop : (m n k : ℕ) (xs : List A) → k ≡ n + m → drop m (drop n xs) ≡ drop k xs
  drop-drop m zero k xs h = ap (λ i. drop i xs) (omega arith)
  drop-drop m (suc n) k [] h = drop_nil m ∙ sym (drop_nil k)
  drop-drop m (suc n) zero (x ∷ xs) h = absurd (omega arith)
  drop-drop m (suc n) (suc k) (x ∷ xs) h = drop-drop m n k xs (omega arith)

  -- The row that is taken beyond the page tells whether there are more, and is not in the page.
  take-take : (n : ℕ) (xs : List A) → take n (take (suc n) xs) ≡ take n xs
  take-take zero xs = refl
  take-take (suc n) [] = refl
  take-take (suc n) (x ∷ xs) = ap (λ l. x ∷ l) (take-take n xs)

  length-take : (n : ℕ) (xs : List A) → ltb n (length (take (suc n) xs)) ≡ ltb n (length xs)
  length-take zero [] = refl
  length-take zero (x ∷ xs) = ground arith
  length-take (suc n) [] = refl
  length-take (suc n) (x ∷ xs) = ground (arith, length-take n xs)

  take_all : (n : ℕ) (xs : List A) → length xs ≤ n → take n xs ≡ xs
  take_all zero [] h = refl
  take_all zero (x ∷ xs) h = absurd (omega arith)
  take_all (suc n) [] h = refl
  take_all (suc n) (x ∷ xs) h = ap (λ l. x ∷ l) (take_all n xs (omega arith))

  length-drop : (n : ℕ) (xs : List A) → length (drop n xs) ≡ length xs - n
  length-drop zero xs = omega arith
  length-drop (suc n) [] = omega arith
  length-drop (suc n) (x ∷ xs) = omega (arith, length-drop n xs)

  -- One page: what `p` pages leave, if the walk is right from the next page on.
  walk_step :
      (fuel p size : ℕ) (rows : List A)
      → 1 ≤ size
      → length (drop (p * size) rows) < suc fuel
      → (length (drop ((p + 1) * size) rows) < fuel
          → walk fuel (p + 1 + 1) size rows ≡ some (drop ((p + 1) * size) rows))
      → walk (suc fuel) (p + 1) size rows ≡ some (drop (p * size) rows)
  unfolding paginate_rows
  walk_step fuel p size rows positive enough ih =
      subst (λ page. shown page ≡ some r) (sym asked)
        (if-elim (λ o. follow (take (suc size) r) o ≡ some r)
          (ltb size (length (take (suc size) r))) more last)
    where
      r : List A
      r = drop (p * size) rows

      follow : List A → Option ℕ → Option (List A)
      follow page o = elim o [
        | none ↦ some (take size page)
        | some next ↦ before (take size page) (walk fuel next size rows)
      ]

      shown : List A → Option (List A)
      shown page = follow page (if ltb size (length page) then some (p + 1 + 1) else none)

      asked : window (with_page (p + 1) size) rows ≡ take (suc size) r
      asked =
          let index : p + 1 - 1 ≡ p = omega arith in
          let count : size + 1 ≡ suc size = omega arith in rw (index, count) refl

      last :
          ltb size (length (take (suc size) r)) ≡ false
          → some (take size (take (suc size) r)) ≡ some r
      last h = ap some (take-take size r ∙ take_all size r (ground (arith, length-take size r)))

      more :
          ltb size (length (take (suc size) r)) ≡ true
          → before (take size (take (suc size) r)) (walk fuel (p + 1 + 1) size rows) ≡ some r
      more h =
          let next : drop ((p + 1) * size) rows ≡ drop size r =
            sym (drop-drop size (p * size) ((p + 1) * size) rows (omega arith)) in
          let left : length (drop ((p + 1) * size) rows) < fuel =
            rw next (ground (arith, length-drop size r, length-take size r)) in
          let found : walk fuel (p + 1 + 1) size rows ≡ some (drop size r) =
            ih left ∙ ap some next in
          rw found (rw (take-take size r) (ap some (take-append-drop size r)))

  -- Page p + 1 and those after it show the rows that `p` pages leave.
  walk_from :
      (fuel p size : ℕ) (rows : List A)
      → 1 ≤ size
      → length (drop (p * size) rows) < fuel
      → walk fuel (p + 1) size rows ≡ some (drop (p * size) rows)
  walk_from zero p size rows positive enough = absurd (omega arith)
  walk_from (suc fuel) p size rows positive enough =
      walk_step fuel p size rows positive enough (walk_from fuel (p + 1) size rows positive)

  -- A client that starts at page 1 and asks for the `next_page` of each answer comes to an end, within one page more than
  -- there are rows, and has then seen every row once and in order, for any page size that is not 0.
  pub walk_all :
      (size : ℕ) (rows : List A) → 1 ≤ size → walk (suc (length rows)) 1 size rows ≡ some rows
  walk_all size rows positive =
      let nothing : 0 * size ≡ 0 = omega arith in
      walk_from (suc (length rows)) 0 size rows positive (rw nothing (omega arith))
      ∙ ap (λ n. some (drop n rows)) nothing
