-- ===== src/Catalog/Numerals.antt =====
-- The decimal text of a number, as a template literal prints it: distinct numbers print differently.
use Prim.Native.Nat.{◌/◌, ◌%◌, ◌-◌, ◌*◌, ◌≤◌, ◌<◌}
use Prim.Native.Char.{Char, code}
use generic_ecommerce_store.Common.{
  ℕ, zero, suc, ◌+◌, List, subst, [], ◌∷◌, ◌++◌, if◌then◌else◌, false, ltb, ◌≡◌, refl, sym, ap, ◌∙◌,
  arith, if-elim,
}

abbrev digit_char : ℕ → Char
digit_char zero = "0"
digit_char (suc zero) = "1"
digit_char (suc (suc zero)) = "2"
digit_char (suc (suc (suc zero))) = "3"
digit_char (suc (suc (suc (suc zero)))) = "4"
digit_char (suc (suc (suc (suc (suc zero))))) = "5"
digit_char (suc (suc (suc (suc (suc (suc zero)))))) = "6"
digit_char (suc (suc (suc (suc (suc (suc (suc zero))))))) = "7"
digit_char (suc (suc (suc (suc (suc (suc (suc (suc zero)))))))) = "8"
digit_char _ = "9"

-- A number of at most `fuel` prints whole.
abbrev digits : ℕ → ℕ → List Char
digits zero n = digit_char n ∷ []
digits (suc fuel) n =
    let rest = digits fuel (n / 10) in
    if ltb n 10 then digit_char n ∷ [] else rest ++ digit_char (n % 10) ∷ []

abbrev pub to_decimal : ℕ → List Char
to_decimal n = digits n n

abbrev value : ℕ → List Char → ℕ
value acc [] = acc
value acc (c ∷ cs) = value (acc * 10 + (code c - 48)) cs

value-append_one :
    (acc : ℕ) (cs : List Char) (c : Char)
    → value acc (cs ++ c ∷ []) ≡ value acc cs * 10 + (code c - 48)
value-append_one acc [] c = refl
value-append_one acc (d ∷ cs) c = value-append_one (acc * 10 + (code d - 48)) cs c

code-digit_char : (n : ℕ) → n < 10 → code (digit_char n) - 48 ≡ n
code-digit_char zero h = refl
code-digit_char (suc zero) h = refl
code-digit_char (suc (suc zero)) h = refl
code-digit_char (suc (suc (suc zero))) h = refl
code-digit_char (suc (suc (suc (suc zero)))) h = refl
code-digit_char (suc (suc (suc (suc (suc zero))))) h = refl
code-digit_char (suc (suc (suc (suc (suc (suc zero)))))) h = refl
code-digit_char (suc (suc (suc (suc (suc (suc (suc zero))))))) h = refl
code-digit_char (suc (suc (suc (suc (suc (suc (suc (suc zero)))))))) h = refl
code-digit_char (suc (suc (suc (suc (suc (suc (suc (suc (suc zero))))))))) h = refl
code-digit_char (suc (suc (suc (suc (suc (suc (suc (suc (suc (suc n)))))))))) h =
    absurd (omega arith)

value-digits : (fuel n : ℕ) → n ≤ fuel → value 0 (digits fuel n) ≡ n
value-digits zero n h = subst (λ m. value 0 (digit_char m ∷ []) ≡ m) zero_is refl
  where
    zero_is : zero ≡ n
    zero_is = omega (arith, h)
value-digits (suc fuel) n h =
    if-elim (λ cs. value 0 cs ≡ n) (ltb n 10)
      (λ small. omega (arith, code-digit_char n (ground (arith, small))))
      (λ big.
        value-append_one 0 (digits fuel (n / 10)) (digit_char (n % 10))
        ∙ omega
            (arith, value-digits fuel (n / 10) (lower big), code-digit_char (n % 10) (omega arith)))
  where
    lower : ltb n 10 ≡ false → n / 10 ≤ fuel
    lower big = ground (arith, big, h)

pub to_decimal_injective : (m n : ℕ) → to_decimal m ≡ to_decimal n → m ≡ n
to_decimal_injective m n h =
    sym (value-digits m m (omega arith)) ∙ (ap (value 0) h ∙ value-digits n n (omega arith))
