-- ===== src/Text.antt =====
-- What the services use of JavaScript's strings.
use Prim.Native.Char.{Char, code}
use generic_ecommerce_store.Common.{
  ℕ, refl, ◌≡◌, Bool, Option, none, some, List, [], ◌∷◌, String, leb, ◌==◌, ◌&&◌, ◌||◌,
  if◌then◌else◌, true, false,
}
use mathlib.Core.List.{reverse}

abbrev pub to_chars : String → List Char
to_chars String.[] = []
to_chars (String.◌∷◌ c s) = c ∷ to_chars s

abbrev pub of_chars : List Char → String
of_chars [] = ""
of_chars (c ∷ cs) = String.◌∷◌ c (of_chars cs)

-- The code points of a text.
abbrev pub codes : String → List ℕ
codes String.[] = []
codes (String.◌∷◌ c s) = code c ∷ codes s

-- The white space and line ends that `trim` removes.
unfoldable pub is_space : Char → Bool
is_space c =
    let n = code c in
    (leb 9 n && leb n 13)
    || n == 32
    || n == 160
    || n == 0x1680
    || (leb 0x2000 n && leb n 0x200a)
    || n == 0x2028
    || n == 0x2029
    || n == 0x202f
    || n == 0x205f
    || n == 0x3000
    || n == 0xfeff

unfoldable pub drop_spaces : List Char → List Char
unfolding is_space
drop_spaces [] = []
drop_spaces (c ∷ cs) = if is_space c then drop_spaces cs else c ∷ cs

unfoldable pub trim_chars : List Char → List Char
unfolding drop_spaces
trim_chars cs = reverse (drop_spaces (reverse (drop_spaces cs)))

unfoldable pub trim : String → String
unfolding trim_chars
trim s = of_chars (trim_chars (to_chars s))

abbrev pub is_empty : String → Bool
is_empty String.[] = true
is_empty (String.◌∷◌ c s) = false

-- `s?.trim() || null`
unfoldable pub trimmed : Option String → Option String
unfolding trim
trimmed none = none
trimmed (some s) = if is_empty (trim s) then none else some (trim s)

trim_example : trim "  a b\n" ≡ "a b"
unfolding trim
trim_example = refl
