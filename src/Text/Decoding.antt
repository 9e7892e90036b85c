-- ===== src/Text/Decoding.antt =====
-- Python's strict decoders of bytes, which custom_components/marstek_ble/products/jupiter_runtime.py
-- uses; `none` is UnicodeDecodeError.
use ha_marstek_ble.Prelude.{
  ℕ, zero, suc, ◌+◌, ◌-◌, ◌*◌, ◌≡◌, refl, Bool, ◌&&◌, Option, none, some, [], ◌∷◌, all, ltb, leb,
  ◌==◌, if◌then◌else◌,
}
use ha_marstek_ble.Struct.{Bytes}
use ha_marstek_ble.Text.{Text}

-- `data.decode("ascii")`
unfoldable pub decode_ascii_strict : Bytes → Option Text
decode_ascii_strict bytes = if all (λ b. ltb b 128) bytes then some bytes else none

-- Between two code points, or inside one: how many bytes are missing behind the next one, the
-- bounds of the next one, and the bits so far.
pub data Pending : Type 0 where
  ready : Pending
  inside : ℕ → ℕ → ℕ → ℕ → Pending

abbrev in_range : ℕ → ℕ → ℕ → Bool
in_range low high b = leb low b && leb b high

-- What a byte begins: a code point of its own, or a longer one; `none` for a byte that begins none.
-- The bounds of the second byte leave out longer forms than needed, surrogates and what lies above
-- 0x10FFFF.
abbrev first_byte : ℕ → Option Pending
first_byte b =
    if ltb b 0x80
    then some ready
    else if in_range 0xC2 0xDF b
    then some (inside 0 0x80 0xBF (b - 0xC0))
    else if b == 0xE0
    then some (inside 1 0xA0 0xBF 0)
    else if b == 0xED
    then some (inside 1 0x80 0x9F 13)
    else if in_range 0xE1 0xEF b
    then some (inside 1 0x80 0xBF (b - 0xE0))
    else if b == 0xF0
    then some (inside 2 0x90 0xBF 0)
    else if in_range 0xF1 0xF3 b
    then some (inside 2 0x80 0xBF (b - 0xF0))
    else if b == 0xF4
    then some (inside 2 0x80 0x8F 4)
    else none

abbrev prepend : ℕ → Option Text → Option Text
prepend c none = none
prepend c (some text) = some (c ∷ text)

abbrev after_first : ℕ → Option Pending → (Pending → Option Text) → Option Text
after_first b none rest = none
after_first b (some ready) rest = prepend b (rest ready)
after_first b (some (inside missing low high bits)) rest = rest (inside missing low high bits)

-- A byte inside a code point whose bits are then `bits`.
abbrev after_next : ℕ → ℕ → (Pending → Option Text) → Option Text
after_next zero bits rest = prepend bits (rest ready)
after_next (suc missing) bits rest = rest (inside missing 0x80 0xBF bits)

utf8_from : Pending → Bytes → Option Text
utf8_from ready [] = some []
utf8_from (inside missing low high bits) [] = none
utf8_from ready (b ∷ bytes) = after_first b (first_byte b) λ pending. utf8_from pending bytes
utf8_from (inside missing low high bits) (b ∷ bytes) =
    let rest = after_next missing (bits * 64 + (b - 0x80)) λ pending. utf8_from pending bytes in
    if in_range low high b then rest else none

-- `data.decode("utf-8")`
unfoldable pub decode_utf8 : Bytes → Option Text
unfolding utf8_from
decode_utf8 bytes = utf8_from ready bytes

-- "é€" and a lone continuation byte.
two_and_three_bytes :
    decode_utf8 (0xC3 ∷ 0xA9 ∷ 0xE2 ∷ 0x82 ∷ 0xAC ∷ []) ≡ some (0xE9 ∷ 0x20AC ∷ [])
unfolding decode_utf8
two_and_three_bytes = refl

lone_byte : decode_utf8 (b'a' ∷ 0x80 ∷ []) ≡ none
unfolding decode_utf8
lone_byte = refl

surrogate : decode_utf8 (0xED ∷ 0xA0 ∷ 0x80 ∷ []) ≡ none
unfolding decode_utf8
surrogate = refl
