-- ===== src/Reporting.antt =====
-- backend/src/utils/reportingPagination.ts and getReportingConfig of reportingConfig.ts: the pages of a
-- reporting list. A number of the query is its decimal text. `window` is what Prisma's `skip` and
-- `take` do to an ordered list.
pub mod Walk
pub mod Query
mod Tests
use Prim.Native.Char.{Char, code}
use generic_ecommerce_store.Common.{
  ℕ, zero, suc, ◌+◌, ◌-◌, ◌*◌, Bool, Option, none, some, List, [], ◌∷◌, String, leb, ltb, ◌==◌,
  ◌&&◌, ◌||◌, not, if◌then◌else◌, true, false,
}
use generic_ecommerce_store.Common.Lists.{length}
use generic_ecommerce_store.Text.{to_chars}
use generic_ecommerce_store.Address.{is_digit}

-- `ReportingPaginationInput`
pub record PaginationInput : Type 0 where
  pub page : ℕ
  pub page_size : ℕ
  pub skip : ℕ
  pub take : ℕ

-- `ReportingPaginationMeta`
pub record PaginationMeta : Type 0 where
  pub page : ℕ
  pub page_size : ℕ
  pub has_next : Bool
  pub next_page : Option ℕ

-- A value of `req.query`: absent, a text, or something else.
pub data QueryValue : Type 0 where
  absent other : QueryValue
  text : String → QueryValue

-- A parameter: absent, a number, or the error INVALID_QUERY.
pub data Parsed : Type 0 where
  undefined invalid_query : Parsed
  number : ℕ → Parsed

-- The number that decimal digits write, after the digits that `n` stands for.
abbrev pub digits_value : ℕ → List Char → Option ℕ
digits_value n [] = some n
digits_value n (c ∷ cs) = if is_digit c then digits_value (n * 10 + (code c - b'0')) cs else none

-- `String(parsed) === value` and `parsed > 0`: the first digit is not 0, and there are only digits.
abbrev pub positive_decimal : List Char → Option ℕ
positive_decimal [] = none
positive_decimal (c ∷ cs) = if code c == b'0' then none else digits_value 0 (c ∷ cs)

abbrev number_or_invalid : Option ℕ → Parsed
number_or_invalid none = invalid_query
number_or_invalid (some n) = number n

abbrev pub parsed_text : List Char → Parsed
parsed_text [] = undefined
parsed_text (c ∷ cs) = number_or_invalid (positive_decimal (c ∷ cs))

unfoldable pub parse_optional_positive_int : QueryValue → Parsed
parse_optional_positive_int absent = undefined
parse_optional_positive_int other = invalid_query
parse_optional_positive_int (text s) = parsed_text (to_chars s)

-- The two sizes of `getReportingConfig`.
pub record ReportingConfig : Type 0 where
  pub max_page_size : ℕ
  pub default_page_size : ℕ

abbrev min : ℕ → ℕ → ℕ
min a b = if leb a b then a else b

-- `parsePositiveInt` of a variable: what `Number.parseInt` reads of it, `none` if that is no number.
abbrev parse_positive_int : Option ℕ → ℕ → ℕ
parse_positive_int none fallback = fallback
parse_positive_int (some zero) fallback = fallback
parse_positive_int (some (suc n)) fallback = suc n

unfoldable pub get_reporting_config : Option ℕ → Option ℕ → ReportingConfig
get_reporting_config max default =
    let max_page_size = parse_positive_int max 250 in
    record {
      max_page_size = max_page_size;
      default_page_size = min (parse_positive_int default 100) max_page_size;
    }

abbrev pub with_page : ℕ → ℕ → PaginationInput
with_page page page_size = record {
  page = page;
  page_size = page_size;
  skip = (page - 1) * page_size;
  take = page_size + 1;
}

-- `parsed ?? default`
abbrev pub or_default : Parsed → ℕ → Option ℕ
or_default undefined n = some n
or_default invalid_query n = none
or_default (number m) n = some m

-- `none` is the error INVALID_QUERY.
unfoldable pub parse_reporting_pagination :
    ReportingConfig → QueryValue → QueryValue → Option PaginationInput
unfolding parse_optional_positive_int
parse_reporting_pagination config page page_size =
    elim (or_default (parse_optional_positive_int page) 1) [
      | none ↦ none
      | some p ↦
          elim (or_default (parse_optional_positive_int page_size) config.default_page_size) [
            | none ↦ none
            | some requested ↦ some (with_page p (min requested config.max_page_size))
          ]
    ]

module _ {A : Type 0} where
  abbrev pub take : ℕ → List A → List A
  take zero xs = []
  take (suc n) [] = []
  take (suc n) (x ∷ xs) = x ∷ take n xs

  abbrev pub drop : ℕ → List A → List A
  drop zero xs = xs
  drop (suc n) [] = []
  drop (suc n) (x ∷ xs) = drop n xs

  abbrev pub window : PaginationInput → List A → List A
  window p rows = take p.take (drop p.skip rows)

  unfoldable pub paginate_rows : List A → PaginationInput → List A × PaginationMeta
  paginate_rows rows p =
      let has_next = ltb p.page_size (length rows) in
      (
        take p.page_size rows,
        record {
          page = p.page;
          page_size = p.page_size;
          has_next = has_next;
          next_page = if has_next then some (p.page + 1) else none;
        },
      )
