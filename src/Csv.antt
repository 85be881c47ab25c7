-- ===== src/Csv.antt =====
-- web/src/features/products/csvHelpers.js, `validateAndTransformRows`: how rows of an imported file become
-- products to make or to change. The parsing of numbers and the lower-casing are arguments: `parseInt` and
-- `parseFloat` give `none` for what is no number or is negative. The SKU, which has the time in it, and the
-- texts of the messages are left out.
pub mod Ids
mod Tests
use text.Mathlib.Text.{◌==◌ as str_eq}
use generic_ecommerce_store.Common.{
  ℕ, zero, suc, Bool, Option, none, some, List, [], ◌∷◌, ◌++◌, map, String, ◌==◌, ◌&&◌, ◌||◌, not,
  if◌then◌else◌, true, false, ltb,
}
use generic_ecommerce_store.Common.Lists.{any}
use generic_ecommerce_store.Text.{trim, is_empty}

-- A row as it is parsed: `none` is an absent cell.
pub record CsvRow : Type 0 where
  pub id : Option String
  pub name : Option String
  pub category_name : Option String
  pub price : Option String
  pub stock : Option String
  pub stock_enabled : Option String
  pub description : Option String

pub record Category : Type 0 where
  pub id : ℕ
  pub name : String

pub data Action : Type 0 where
  create update : Action

pub data RowError : Type 0 where
  bad_id no_name no_category unknown_category no_price bad_price bad_stock : RowError

pub data RowWarning : Type 0 where
  duplicate_id unmatched_id : ℕ → RowWarning

-- `String(cell ?? '').trim()`
abbrev pub cell : Option String → String
cell none = ""
cell (some s) = trim s

-- `normaliseBooleanCell`
abbrev pub normalise_boolean_cell : (String → String) → Option String → Bool → Bool
normalise_boolean_cell lower none default_value = default_value
normalise_boolean_cell lower (some s) default_value =
    if is_empty s
    then default_value
    else any (λ t. str_eq t (trim (lower s))) ("true" ∷ "1" ∷ "yes" ∷ [])

-- What `categoryByName[key]` finds: a category, or a member that every object has, which has no id.
pub data Match : Type 0 where
  unmatched inherited : Match
  matched : ℕ → Match

abbrev pub is_inherited : String → Bool
is_inherited key = str_eq key "constructor" || str_eq key "__proto__"

-- The last category of a name wins.
abbrev pub category_by_name : (String → String) → List Category → String → Match
category_by_name lower [] key = if is_inherited key then inherited else unmatched
category_by_name lower (c ∷ cs) key = elim (category_by_name lower cs key) [
  | matched id ↦ matched id
  | _ ↦
      if str_eq (lower c.name) key
      then matched c.id
      else if is_inherited key
      then inherited
      else unmatched
]

-- What the id of a row says: its action, its errors and warnings, and the id that it claims.
pub record IdCheck : Type 0 where
  pub action : Action
  pub claimed : Option ℕ
  pub errors : List RowError
  pub warnings : List RowWarning

abbrev pub to_create : List RowError → List RowWarning → IdCheck
to_create errors warnings = record {
  action = create;
  claimed = none;
  errors = errors;
  warnings = warnings;
}

abbrev pub has : List ℕ → ℕ → Bool
has ids id = any (λ n. n == id) ids

abbrev pub check_number : List ℕ → List ℕ → Option ℕ → IdCheck
check_number existing seen none = to_create (bad_id ∷ []) []
check_number existing seen (some zero) = to_create (bad_id ∷ []) []
check_number existing seen (some (suc n)) =
    let id = suc n in
    if has seen id
    then to_create [] (duplicate_id id ∷ [])
    else if not (has existing id)
    then to_create [] (unmatched_id id ∷ [])
    else record { action = update; claimed = some id; errors = []; warnings = [] }

abbrev pub check_id : (String → Option ℕ) → List ℕ → List ℕ → String → IdCheck
check_id parse_int existing seen raw =
    if is_empty raw then to_create [] [] else check_number existing seen (parse_int raw)

abbrev pub check_name : String → List RowError
check_name name = if is_empty name then no_name ∷ [] else []

abbrev pub check_category : String → Match → List RowError
check_category raw unmatched = if is_empty raw then no_category ∷ [] else unknown_category ∷ []
check_category raw _ = if is_empty raw then no_category ∷ [] else []

abbrev pub category_id : Match → Option ℕ
category_id (matched id) = some id
category_id _ = none

module _ {A : Type 0} where
  abbrev pub check_price : (String → Option A) → String → List RowError
  check_price parse_float raw =
      if is_empty raw
      then no_price ∷ []
      else elim (parse_float raw) [ none ↦ bad_price ∷ [] | some price ↦ [] ]

  -- The stock, 0 where the cell is empty or wrong.
  abbrev pub check_stock : (String → Option A) → A → Option String → A × List RowError
  check_stock parse_float nothing none = (nothing, [])
  check_stock parse_float nothing (some raw) =
      let parsed : A × List RowError = elim (parse_float raw) [
        | none ↦ (nothing, bad_stock ∷ [])
        | some stock ↦ (stock, [])
      ] in
      if is_empty raw then (nothing, []) else parsed

-- A row that becomes a product, its number from 1 on.
pub record ValidRow (A : Type 0) : Type 0 where
  pub row_number : ℕ
  pub action : Action
  pub id : Option ℕ
  pub name : String
  pub category_id : Option ℕ
  pub description : Option String
  pub base_price : Option A
  pub stock : A
  pub stock_enabled : Bool
  pub warnings : List RowWarning

pub record InvalidRow : Type 0 where
  pub row_number : ℕ
  pub errors : List RowError

-- What the browser and the loaded data give: `parseInt`, `parseFloat`, `toLowerCase`, the number 0,
-- the ids of the products and the categories.
pub record Import (A : Type 0) : Type 0 where
  pub parse_int : String → Option ℕ
  pub parse_float : String → Option A
  pub lower : String → String
  pub nothing : A
  pub existing : List ℕ
  pub categories : List Category

module _ {A : Type 0} (i : Import A) where
  abbrev pub match_of : CsvRow → Match
  match_of row = category_by_name i.lower i.categories (i.lower (cell row.category_name))

  -- All errors of a row, in the order of the checks.
  abbrev pub errors_of : IdCheck → CsvRow → List RowError
  errors_of checked row =
      checked.errors
      ++ (check_name (cell row.name)
          ++ (check_category (cell row.category_name) (match_of row)
              ++ (check_price i.parse_float (cell row.price)
                  ++ (check_stock i.parse_float i.nothing row.stock).1)))

  abbrev pub valid_row : ℕ → IdCheck → CsvRow → ValidRow A
  valid_row number checked row =
      let text = cell row.description in
      record {
        row_number = number;
        action = checked.action;
        id = checked.claimed;
        name = cell row.name;
        category_id = category_id (match_of row);
        description = if is_empty text then none else some text;
        base_price = i.parse_float (cell row.price);
        stock = (check_stock i.parse_float i.nothing row.stock).0;
        stock_enabled = normalise_boolean_cell i.lower row.stock_enabled false;
        warnings = checked.warnings;
      }

  abbrev pub Result : Type 0
  Result = List (ValidRow A) × List InvalidRow

  abbrev pub place : ℕ → IdCheck → CsvRow → List RowError → Result → Result
  place number checked row [] (valid, invalid) = (valid_row number checked row ∷ valid, invalid)
  place number checked row (e ∷ es) (valid, invalid) =
      (valid, record { row_number = number; errors = e ∷ es } ∷ invalid)

  -- The ids that are seen after a row, an invalid one too.
  abbrev pub seen_after : List ℕ → Option ℕ → List ℕ
  seen_after seen none = seen
  seen_after seen (some id) = id ∷ seen

  abbrev pub transform_rows : ℕ → List ℕ → List CsvRow → Result
  transform_rows number seen [] = ([], [])
  transform_rows number seen (row ∷ rows) =
      let checked = check_id i.parse_int i.existing seen (cell row.id) in
      place number checked row (errors_of checked row)
        (transform_rows (suc number) (seen_after seen checked.claimed) rows)

  unfoldable pub validate_and_transform_rows : List CsvRow → Result
  validate_and_transform_rows rows = transform_rows 1 [] rows
