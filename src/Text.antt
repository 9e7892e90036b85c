-- ===== src/Text.antt =====
-- The methods of Python's `bytes` and `str` that the text parsers use, on lists of code points.
pub mod Decoding
pub mod Numerals
use ha_marstek_ble.Prelude.{
  ℕ, zero, suc, ◌+◌, ◌/◌, ◌%◌, ◌≡◌, refl, Bool, true, false, ◌&&◌, ◌||◌, Option, none, some, List,
  [], ◌∷◌, ◌++◌, ltb, leb, ◌==◌, if◌then◌else◌, arith,
}
use ha_marstek_ble.Struct.{Bytes, codes}

abbrev pub Text : Type 0
Text = List ℕ

-- `data.decode("ascii", errors="ignore")`
unfoldable pub decode_ascii : Bytes → Text
decode_ascii [] = []
decode_ascii (b ∷ bytes) = if ltb b 128 then b ∷ decode_ascii bytes else decode_ascii bytes

-- The ASCII code points that `strip()` removes.
abbrev pub is_space : ℕ → Bool
is_space c = leb 9 c && leb c 13 || leb 28 c && leb c 32

module _ (drops : ℕ → Bool) where
  unfoldable pub left_strip : Text → Text
  left_strip [] = []
  left_strip (c ∷ text) = let rest = left_strip text in if drops c then rest else c ∷ text

  -- Drops `c` in front of nothing.
  abbrev drop_last : ℕ → Text → Text
  drop_last c [] = if drops c then [] else c ∷ []
  drop_last c (e ∷ text) = c ∷ e ∷ text

  unfoldable pub right_strip : Text → Text
  right_strip [] = []
  right_strip (c ∷ text) = drop_last c (right_strip text)

-- `text.strip()` and `text.strip("\x00")`
unfoldable pub strip : Text → Text
unfolding left_strip right_strip
strip text = right_strip is_space (left_strip is_space text)

unfoldable pub strip_nul : Text → Text
unfolding left_strip right_strip
strip_nul text = right_strip (λ c. c == 0) (left_strip (λ c. c == 0) text)

abbrev extend_first : ℕ → List Text → List Text
extend_first c [] = (c ∷ []) ∷ []
extend_first c (piece ∷ pieces) = (c ∷ piece) ∷ pieces

-- `text.split(separator)` for one code point: at least one piece.
unfoldable pub split : ℕ → Text → List Text
split separator [] = [] ∷ []
split separator (c ∷ text) =
    let rest = split separator text in if c == separator then [] ∷ rest else extend_first c rest

abbrev before_key : ℕ → Option (Text × Text) → Option (Text × Text)
before_key c none = none
before_key c (some (key, value)) = some (c ∷ key, value)

-- `text.split(separator, 1)` where the separator occurs; `none` where it does not.
unfoldable pub split_once : ℕ → Text → Option (Text × Text)
split_once separator [] = none
split_once separator (c ∷ text) =
    let rest = split_once separator text in
    if c == separator then some ([], text) else before_key c rest

unfoldable pub text_eq : Text → Text → Bool
text_eq [] [] = true
text_eq (a ∷ s) (b ∷ t) = a == b && text_eq s t
text_eq _ _ = false

pub text_eq→eq : (s t : Text) → text_eq s t ≡ true → s ≡ t
unfolding text_eq
text_eq→eq [] [] h = refl
text_eq→eq [] (b ∷ t) h = cc
text_eq→eq (a ∷ s) [] h = cc
text_eq→eq (a ∷ s) (b ∷ t) h = ground (arith, text_eq→eq s t)

digits_on : ℕ → ℕ → Text
digits_on zero n = []
digits_on (suc fuel) n =
    let rest = digits_on fuel (n / 10) in
    if ltb n 10 then (b'0' + n) ∷ [] else rest ++ (b'0' + n % 10) ∷ []

-- `str(n)`: a number has fewer digits than `n + 1`.
unfoldable pub decimal : ℕ → Text
unfolding digits_on
decimal n = digits_on (suc n) n

decimal_port : decimal 30000 ≡ codes "30000"
unfolding decimal
decimal_port = refl

strip_both : strip (codes " a b\t\r\n") ≡ codes "a b"
unfolding strip
strip_both = refl

split_pairs : split b',' (codes "a=1,,b") ≡ codes "a=1" ∷ [] ∷ codes "b" ∷ []
unfolding split
split_pairs = refl
