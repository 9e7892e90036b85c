-- ===== src/Text/Numerals.antt =====
-- Python's `int(text)` and the format codes of custom_components/marstek_ble/products/jupiter.py and
-- jupiter_runtime.py.
use ha_marstek_ble.Prelude.{
  ℕ, zero, suc, ◌+◌, ◌-◌, ◌*◌, ◌/◌, ◌%◌, ◌≡◌, refl, Bool, false, ◌&&◌, ◌||◌, Option, none, some, [],
  ◌∷◌, ◌++◌, replicate, length, ltb, leb, ◌==◌, if◌then◌else◌, ℤ, pos, negsuc,
}
use ha_marstek_ble.Struct.{codes}
use ha_marstek_ble.Text.{Text, strip, decimal}

abbrev is_digit : ℕ → Bool
is_digit c = leb b'0' c && leb c b'9'

-- Decimal digits with single underscores between them; the Boolean tells whether a digit stood last.
digits_from : ℕ → Bool → Text → Option ℕ
digits_from n digit [] = if digit then some n else none
digits_from n digit (c ∷ text) =
    let rest = digits_from (if is_digit c then n * 10 + (c - b'0') else n) (is_digit c) text in
    if is_digit c || digit && c == b'_' then rest else none

abbrev negated : Option ℕ → Option ℤ
negated none = none
negated (some zero) = some (pos 0)
negated (some (suc n)) = some (negsuc n)

abbrev positive : Option ℕ → Option ℤ
positive none = none
positive (some n) = some (pos n)

abbrev signed : Text → Option ℤ
signed [] = none
signed (c ∷ text) =
    if c == b'-'
    then negated (digits_from 0 false text)
    else if c == b'+'
    then positive (digits_from 0 false text)
    else positive (digits_from 0 false (c ∷ text))

-- `int(text)` on an ASCII text; `none` is ValueError.
unfoldable pub parse_int : Text → Option ℤ
unfolding digits_from strip
parse_int text = signed (strip text)

-- `f"{text:0>width}"`, which pads numbers.
abbrev zero_padded : ℕ → Text → Text
zero_padded width digits = replicate (width - length digits) b'0' ++ digits

hex_digits_on : ℕ → ℕ → Text
hex_digits_on zero n = []
hex_digits_on (suc fuel) n =
    let rest = hex_digits_on fuel (n / 16) in
    let digit = if ltb (n % 16) 10 then b'0' + n % 16 else b'A' + (n % 16 - 10) in
    if ltb n 16 then digit ∷ [] else rest ++ digit ∷ []

-- `f"{n:0{width}d}"` and `f"{n:0{width}X}"` for n of zero or more.
unfoldable pub padded_decimal : ℕ → ℕ → Text
unfolding decimal
padded_decimal width n = zero_padded width (decimal n)

unfoldable pub padded_hex : ℕ → ℕ → Text
unfolding hex_digits_on
padded_hex width n = zero_padded width (hex_digits_on (suc n) n)

signed_numbers :
    (parse_int (codes " -12") ≡ some (negsuc 11))
    × (parse_int (codes "+1_000 ") ≡ some (pos 1000))
    × (parse_int (codes "1__0") ≡ none)
    × (parse_int (codes "1.5") ≡ none)
unfolding parse_int
signed_numbers = (refl, refl, refl, refl)

padded_numbers : (padded_decimal 4 37 ≡ codes "0037") × (padded_hex 2 10 ≡ codes "0A")
unfolding padded_decimal padded_hex
padded_numbers = (refl, refl)
