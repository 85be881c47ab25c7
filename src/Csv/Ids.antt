-- ===== src/Csv/Ids.antt =====
-- web/src/features/products/csvHelpers.js: which rows an import takes, and which products it changes.
use Prim.Native.Nat.{◌≤◌}
use generic_ecommerce_store.Common.{
  ◌||◌, ℕ, zero, suc, Bool, Option, none, some, List, [], ◌∷◌, String, ◌==◌, ◌+◌, not,
  if◌then◌else◌, true, false, ◌≡◌, refl, sym, ap, ◌∙◌, subst, arith, if-elim,
}
use generic_ecommerce_store.Common.Lists.{length, All}
use generic_ecommerce_store.Common.Counting.{count}
use generic_ecommerce_store.Text.{is_empty}
use generic_ecommerce_store.Csv.{
  CsvRow, RowError, ValidRow, Import, IdCheck, Result, cell, has, check_number, check_id, errors_of,
  place, seen_after, transform_rows, validate_and_transform_rows,
}

abbrev pub is_claim : ℕ → Option ℕ → Bool
is_claim id none = false
is_claim id (some n) = n == id

abbrev pub claims : {A : Type 0} → ℕ → ValidRow A → Bool
claims id r = is_claim id r.id

-- A claimed id is new and is that of a product.
abbrev IsFresh : List ℕ → List ℕ → Option ℕ → Type 0
IsFresh existing seen none = Unit
IsFresh existing seen (some id) = (has seen id ≡ false) × (has existing id ≡ true)

module _ (existing seen : List ℕ) where
  abbrev Fresh : IdCheck → Type 0
  Fresh checked = IsFresh existing seen checked.claimed

  check_number-IsFresh : (o : Option ℕ) → Fresh (check_number existing seen o)
  check_number-IsFresh none = tt
  check_number-IsFresh (some zero) = tt
  check_number-IsFresh (some (suc n)) =
      if-elim Fresh (has seen (suc n)) (λ used. tt)
        (λ new.
          if-elim Fresh (not (has existing (suc n))) (λ unknown. tt)
            (λ known. (new, ground (arith, known))))

  check_id-IsFresh :
      (parse_int : String → Option ℕ) (raw : String) → Fresh (check_id parse_int existing seen raw)
  check_id-IsFresh parse_int raw =
      if-elim Fresh (is_empty raw) (λ blank. tt) (λ given. check_number-IsFresh (parse_int raw))

module _ {A : Type 0} (i : Import A) where
  -- The product that a row changes exists.
  abbrev pub IsKnown : ValidRow A → Type 0
  IsKnown r = elim r.id [ none ↦ Unit | some id ↦ has i.existing id ≡ true ]

  -- What holds of the rows after `seen`: an id that was seen is not claimed, no id is claimed twice.
  abbrev Claims : List ℕ → Result i → Type 0
  Claims seen (valid, invalid) =
      ((id : ℕ) → has seen id ≡ true → count (claims id) valid ≤ 0)
      × ((id : ℕ) → count (claims id) valid ≤ 1)
      × All IsKnown valid

  seen_before :
      (seen : List ℕ) (o : Option ℕ) (id : ℕ)
      → has seen id ≡ true
      → has (seen_after i seen o) id ≡ true
  seen_before seen none id h = h
  seen_before seen (some n) id h = ground (arith, h)

  place-Claims :
      (seen : List ℕ) (number : ℕ) (checked : IdCheck) (row : CsvRow) (o : Option ℕ)
      (errors : List RowError) (rest : Result i)
      → checked.claimed ≡ o
      → IsFresh i.existing seen o
      → Claims (seen_after i seen o) rest
      → Claims seen (place i number checked row errors rest)
  place-Claims seen number checked row o (e ∷ es) (valid, invalid) eq fresh (later, once, known) =
      (λ id h. later id (seen_before seen o id h), once, known)
  place-Claims seen number checked row none [] (valid, invalid) eq fresh (later, once, known) = (
    λ id h.
        subst
          (λ c.
            (if is_claim id c then suc (count (claims id) valid) else count (claims id) valid) ≤ 0)
          (sym eq) (later id h),
    λ id.
        subst
          (λ c.
            (if is_claim id c then suc (count (claims id) valid) else count (claims id) valid) ≤ 1)
          (sym eq) (once id),
    (subst (λ c. elim c [ none ↦ Unit | some id ↦ has i.existing id ≡ true ]) (sym eq) tt, known),
  )
  place-Claims seen number checked row (some n) [] (valid, invalid) eq (new, there)
        (later, once, known) =
      (
        λ id h.
            subst
              (λ c.
                (if is_claim id c then suc (count (claims id) valid) else count (claims id) valid)
                ≤ 0)
              (sym eq) (unclaimed id h),
        λ id.
            subst
              (λ c.
                (if is_claim id c then suc (count (claims id) valid) else count (claims id) valid)
                ≤ 1)
              (sym eq) (single id),
        (
          subst (λ c. elim c [ none ↦ Unit | some id ↦ has i.existing id ≡ true ]) (sym eq) there,
          known,
        ),
      )
    where
      unclaimed :
          (id : ℕ)
          → has seen id ≡ true
          → (if n == id then suc (count (claims id) valid) else count (claims id) valid) ≤ 0
      unclaimed id h =
          if-elim (λ m. m ≤ 0) (n == id)
            (λ same.
              let taken : has seen n ≡ true =
                subst (λ m. has seen m ≡ true) (ground (arith, same)) h in
              absurd (ground (arith, taken, new)))
            (λ other. later id (seen_before seen (some n) id h))

      single :
          (id : ℕ)
          → (if n == id then suc (count (claims id) valid) else count (claims id) valid) ≤ 1
      single id =
          if-elim (λ m. m ≤ 1) (n == id)
            (λ same. omega (arith, later id (ap (λ b. b || has seen id) same))) (λ other. once id)

  transform_rows-Claims :
      (number : ℕ) (seen : List ℕ) (rows : List CsvRow)
      → Claims seen (transform_rows i number seen rows)
  transform_rows-Claims number seen [] = (λ id h. omega arith, λ id. omega arith, tt)
  transform_rows-Claims number seen (row ∷ rows) =
      let checked = check_id i.parse_int i.existing seen (cell row.id) in
      place-Claims seen number checked row checked.claimed (errors_of i checked row) _ refl
        (check_id-IsFresh i.existing seen i.parse_int (cell row.id))
        (transform_rows-Claims (suc number) (seen_after i seen checked.claimed) rows)

  place-length :
      (number : ℕ) (checked : IdCheck) (row : CsvRow) (errors : List RowError) (rest : Result i)
      → length (place i number checked row errors rest).0
          + length (place i number checked row errors rest).1
        ≡ suc (length rest.0 + length rest.1)
  place-length number checked row [] (valid, invalid) = omega arith
  place-length number checked row (e ∷ es) (valid, invalid) = omega arith

  transform_rows-length :
      (number : ℕ) (seen : List ℕ) (rows : List CsvRow)
      → length (transform_rows i number seen rows).0 + length (transform_rows i number seen rows).1
        ≡ length rows
  transform_rows-length number seen [] = omega arith
  transform_rows-length number seen (row ∷ rows) =
      let checked = check_id i.parse_int i.existing seen (cell row.id) in
      place-length number checked row (errors_of i checked row)
        (transform_rows i (suc number) (seen_after i seen checked.claimed) rows)
      ∙ ap suc (transform_rows-length (suc number) (seen_after i seen checked.claimed) rows)

  -- An import loses no row: each is taken or refused. The rows that are taken change each product at most
  -- once, and only products that exist.
  pub validate_and_transform_rows-IsKnown :
      (rows : List CsvRow)
      → let (valid, invalid) = validate_and_transform_rows i rows in
        (length valid + length invalid ≡ length rows)
        × ((id : ℕ) → count (claims id) valid ≤ 1)
        × All IsKnown valid
  unfolding validate_and_transform_rows
  validate_and_transform_rows-IsKnown rows =
      let (later, once, known) = transform_rows-Claims 1 [] rows in
      (transform_rows-length 1 [] rows, once, known)
