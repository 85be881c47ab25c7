-- ===== src/Reporting/Query.antt =====
-- backend/src/utils/reportingPagination.ts: the sizes that a request can ask for.
use Prim.Native.Char.{Char, code}
use generic_ecommerce_store.Text.{to_chars}
use generic_ecommerce_store.Address.{is_digit}
use generic_ecommerce_store.Common.{
  List, [], ◌∷◌, ◌∙◌, sym, refl, subst, true, Bool-cases, ℕ, ◌≤◌, ◌≡◌, ◌*◌, ◌+◌, ◌-◌, some, suc,
  Option, arith, Option-cases, inl, inr,
}
use generic_ecommerce_store.Reporting.{
  PaginationInput, QueryValue, parse_reporting_pagination, parse_optional_positive_int,
  get_reporting_config, or_default, digits_value, positive_decimal, absent, other, text,
  parsed_text,
}

digits_value_mono : (n m : ℕ) (cs : List Char) → digits_value n cs ≡ some m → n ≤ m
digits_value_mono n m [] h = ground arith
digits_value_mono n m (c ∷ cs) h = elim (Bool-cases (is_digit c)) [
  | inr no_digit ↦ absurd (ground arith)
  | inl digit ↦
      let further : n * 10 + (code c - b'0') ≤ m =
        digits_value_mono (n * 10 + (code c - b'0')) m cs (sym (of_digit digit) ∙ h) in
      omega (arith, further)
]
  where
    of_digit :
        is_digit c ≡ true → digits_value n (c ∷ cs) ≡ digits_value (n * 10 + (code c - b'0')) cs
    of_digit e = rw e refl

positive_decimal-pos : (cs : List Char) (m : ℕ) → positive_decimal cs ≡ some m → 1 ≤ m
positive_decimal-pos [] m h = absurd (cc)
positive_decimal-pos (c ∷ cs) m h = grind (arith, digits_value_mono (0 * 10 + (code c - b'0')) m cs)

parsed-pos :
    (v : QueryValue) (m n : ℕ)
    → 1 ≤ n
    → or_default (parse_optional_positive_int v) n ≡ some m
    → 1 ≤ m
unfolding parse_optional_positive_int
parsed-pos absent m n positive h = ground arith
parsed-pos other m n positive h = absurd (cc)
parsed-pos (text s) m n positive h = go (to_chars s) h
  where
    go : (cs : List Char) → or_default (parsed_text cs) n ≡ some m → 1 ≤ m
    go [] e = ground arith
    go (c ∷ cs) e = elim (Option-cases (positive_decimal (c ∷ cs))) [
      | inl missing ↦ absurd (ground arith)
      | inr (k, found) ↦
          let same : k ≡ m = ground arith in
          subst (λ x. 1 ≤ x) same (positive_decimal-pos (c ∷ cs) k found)
    ]

-- A page that is accepted is at least 1; its size is at least 1 and at most the maximum; it takes one row more
-- than it shows.
pub parse_reporting_pagination_bounds :
    (max default : Option ℕ) (page page_size : QueryValue) (p : PaginationInput)
    → let config = get_reporting_config max default in
      parse_reporting_pagination config page page_size ≡ some p
      → (1 ≤ p.page)
        × (1 ≤ p.page_size)
        × (p.page_size ≤ config.max_page_size)
        × (p.skip ≡ (p.page - 1) * p.page_size)
        × (p.take ≡ suc p.page_size)
unfolding parse_reporting_pagination parse_optional_positive_int get_reporting_config
parse_reporting_pagination_bounds max default page page_size p h =
    let config = get_reporting_config max default in
    elim (Option-cases (or_default (parse_optional_positive_int page) 1)) [
      | inl refused ↦ absurd (ground arith)
      | inr (n, asked) ↦
          elim (Option-cases
            (or_default (parse_optional_positive_int page_size) config.default_page_size)) [
              | inl refused ↦ absurd (ground arith)
              | inr (size, wanted) ↦
                  let page_pos : 1 ≤ n = parsed-pos page n 1 (omega arith) asked in
                  let size_pos : 1 ≤ size =
                    parsed-pos page_size size config.default_page_size (ground arith) wanted in
                  (ground arith, ground arith, ground arith, ground arith, ground arith)
            ]
    ]
