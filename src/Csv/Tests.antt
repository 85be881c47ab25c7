-- ===== src/Csv/Tests.antt =====
-- Rows with the id of a product, the same id again and no price.
use Prim.Native.Nat.{◌≤◌}
use text.Mathlib.Text.{◌==◌ as str_eq}
use generic_ecommerce_store.Common.{
  map, ℕ, Option, none, some, List, [], ◌∷◌, ◌+◌, ◌≡◌, refl, String, if◌then◌else◌,
}
use generic_ecommerce_store.Common.Lists.{length, All}
use generic_ecommerce_store.Common.Counting.{count}
use generic_ecommerce_store.Csv.{ValidRow, create, CsvRow, Import, validate_and_transform_rows}
use generic_ecommerce_store.Csv.Ids.{claims, IsKnown, validate_and_transform_rows-IsKnown}

-- Numbers of one digit.
abbrev number : String → Option ℕ
number s = if str_eq s "7" then some 7 else none

abbrev row : String → Option String → CsvRow
row id price = record {
  id = some id;
  name = some " Tea ";
  category_name = some "drinks";
  price = price;
  stock = some "";
  stock_enabled = none;
  description = none;
}

abbrev import_data : Import ℕ
import_data = record {
  parse_int = number;
  parse_float = number;
  lower = λ s. s;
  nothing = 0;
  existing = 7 ∷ [];
  categories = record { id = 3; name = "drinks" } ∷ [];
}

abbrev rows : List CsvRow
rows = row "7" (some "7") ∷ row "7" (some "7") ∷ row "" none ∷ []

validate_and_transform_rows-IsKnown_example :
    let (valid, invalid) = validate_and_transform_rows import_data rows in
    (length valid + length invalid ≡ 3)
    × ((id : ℕ) → count (claims id) valid ≤ 1)
    × All (IsKnown import_data) valid
validate_and_transform_rows-IsKnown_example = validate_and_transform_rows-IsKnown import_data rows

-- A row that is refused for its price still uses up its id: the next row of the id makes a product.
made_twice :
    map
      (λ (r : ValidRow ℕ). r.action)
      (validate_and_transform_rows import_data (row "7" none ∷ row "7" (some "7") ∷ [])).0
    ≡ create ∷ []
unfolding validate_and_transform_rows generic_ecommerce_store.Text.trim
made_twice = refl
