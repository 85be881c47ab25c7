-- ===== src/Address.antt =====
-- backend/src/utils/address.util.ts: addresses and their normal forms. A text is walked by its
-- characters. How letters outside ASCII change case is an argument, `CaseMap`.
pub mod Zip
use Prim.Native.Char.{Char, code}
use Prim.Native.String
use generic_ecommerce_store.Common.{
  ℕ, zero, suc, Bool, Option, none, some, List, [], ◌∷◌, ◌++◌, String, leb, ◌==◌, ◌&&◌, ◌||◌, not,
  if◌then◌else◌, true, false,
}
use generic_ecommerce_store.Text.{to_chars, of_chars, is_space, trim_chars, trim, is_empty}
use generic_ecommerce_store.Fulfillment.{Address}

-- What `toLowerCase` and `toUpperCase` do to a character that is not an ASCII letter.
pub record CaseMap : Type 0 where
  pub lower_other : Char → List Char
  pub upper_other : Char → List Char

abbrev small : String
small = "abcdefghijklmnopqrstuvwxyz"

abbrev capital : String
capital = "ABCDEFGHIJKLMNOPQRSTUVWXYZ"

-- The character of `to` at the place where `c` stands in `from`, or what `others` says.
translate : String → String → (Char → List Char) → Char → List Char
translate String.[] to others c = others c
translate (String.◌∷◌ a from) String.[] others c = others c
translate (String.◌∷◌ a from) (String.◌∷◌ b to) others c =
    if code a == code c then b ∷ [] else translate from to others c

concat_map : (Char → List Char) → List Char → List Char
concat_map f [] = []
concat_map f (c ∷ cs) = f c ++ concat_map f cs

unfoldable pub to_lower_case : CaseMap → List Char → List Char
unfolding translate concat_map
to_lower_case m = concat_map (translate capital small m.lower_other)

unfoldable pub to_upper_case : CaseMap → List Char → List Char
unfolding translate concat_map
to_upper_case m = concat_map (translate small capital m.upper_other)

-- Each run of the characters that `p` accepts becomes one space; the flag says that the character
-- before was accepted.
squeeze : (Char → Bool) → Bool → List Char → List Char
squeeze p inside [] = []
squeeze p inside (c ∷ cs) =
    let rest = squeeze p (p c) cs in if p c then (if inside then rest else " " ∷ rest) else c ∷ rest

unfoldable pub collapse_whitespace : List Char → List Char
unfolding squeeze trim_chars
collapse_whitespace cs = trim_chars (squeeze is_space false cs)

abbrev pub is_digit : Char → Bool
is_digit c = leb b'0' (code c) && leb (code c) b'9'

-- [a-z0-9]
abbrev is_key_char : Char → Bool
is_key_char c = is_digit c || (leb b'a' (code c) && leb (code c) b'z')

unfoldable pub normalize_address_cache_key : CaseMap → List Char → List Char
unfolding collapse_whitespace to_lower_case squeeze trim_chars
normalize_address_cache_key m cs =
    trim_chars (squeeze (λ c. not (is_key_char c)) false (to_lower_case m (collapse_whitespace cs)))

-- The first `n` characters, if they are digits.
abbrev pub take_digits : ℕ → List Char → Option (List Char)
take_digits zero cs = some []
take_digits (suc n) [] = none
take_digits (suc n) (c ∷ cs) =
    if is_digit c then elim (take_digits n cs) [ none ↦ none | some ds ↦ some (c ∷ ds) ] else none

-- The leftmost match of /\d{5}/.
abbrev pub first_zip : List Char → Option (List Char)
first_zip [] = none
first_zip (c ∷ cs) = elim (take_digits 5 (c ∷ cs)) [ none ↦ first_zip cs | some ds ↦ some ds ]

-- `normalizeZipCode` of a string, and `extractZipCodeFromFreeformAddress`.
unfoldable pub normalize_zip_code : String → Option String
normalize_zip_code s = elim (first_zip (to_chars s)) [ none ↦ none | some ds ↦ some (of_chars ds) ]

unfoldable pub collapsed : String → String
unfolding collapse_whitespace
collapsed s = of_chars (collapse_whitespace (to_chars s))

abbrev non_empty : String → Option String
non_empty s = if is_empty s then none else some s

-- `value || ''`
abbrev pub or_empty : Option String → String
or_empty none = ""
or_empty (some s) = s

unfoldable pub normalize_structured_delivery_address : CaseMap → Address → Address
unfolding collapsed collapse_whitespace to_upper_case normalize_zip_code
normalize_structured_delivery_address m a = record {
  street = collapsed a.street;
  apartment = non_empty (collapsed (or_empty a.apartment));
  city = collapsed a.city;
  state = of_chars (to_upper_case m (collapse_whitespace (to_chars a.state)));
  zip_code = or_empty (normalize_zip_code a.zip_code);
}

unfoldable pub is_structured_delivery_address_complete : CaseMap → Address → Bool
unfolding normalize_structured_delivery_address
is_structured_delivery_address_complete m a =
    let n = normalize_structured_delivery_address m a in
    not (is_empty n.street)
    && not (is_empty n.city)
    && not (is_empty n.state)
    && not (is_empty n.zip_code)

-- `parts.filter(Boolean).join(', ')`
abbrev join_parts : List (List Char) → List Char
join_parts [] = []
join_parts ([] ∷ parts) = join_parts parts
join_parts ((c ∷ cs) ∷ parts) = elim (join_parts parts) [
  | [] ↦ c ∷ cs
  | d ∷ ds ↦ (c ∷ cs) ++ (to_chars ", " ++ (d ∷ ds))
]

abbrev apartment_part : Option String → List Char
apartment_part none = []
apartment_part (some s) = to_chars "Apt " ++ to_chars s

-- An empty part is dropped, so that the state and the ZIP code need no test of their own.
unfoldable pub format_structured_delivery_address : CaseMap → Address → String
unfolding normalize_structured_delivery_address trim_chars
format_structured_delivery_address m a =
    let n = normalize_structured_delivery_address m a in
    of_chars (
      join_parts (
        to_chars n.street
        ∷ apartment_part n.apartment
        ∷ to_chars n.city
        ∷ trim_chars (to_chars n.state ++ (to_chars " " ++ to_chars n.zip_code))
        ∷ []))

unfoldable pub get_structured_delivery_address_cache_key : CaseMap → Address → String
unfolding format_structured_delivery_address normalize_address_cache_key
get_structured_delivery_address_cache_key m a =
    of_chars (normalize_address_cache_key m (to_chars (format_structured_delivery_address m a)))

-- The `address` of a settings value, or "" if it is absent or blank.
unfoldable pub extract_address_from_settings_value : Option String → String
unfolding trim
extract_address_from_settings_value none = ""
extract_address_from_settings_value (some s) = if is_empty (trim s) then "" else s
