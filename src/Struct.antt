-- ===== src/Struct.antt =====
-- Python's `struct` module, as far as custom_components/marstek_ble uses it: format texts with an
-- explicit byte order, the codes B b H h I with repeat counts, `calcsize`, `unpack` and
-- `unpack_from`. A payload is a list of bytes.
use Prim.Native.Char.{code}
use ha_marstek_ble.Prelude.{
  ℕ, ◌+◌, ◌-◌, ◌*◌, String, ◌&&◌, ◌||◌, Option, none, some, List, [], ◌∷◌, ◌++◌, replicate, ltb,
  leb, ◌==◌, if◌then◌else◌, length, take, drop, ℤ, pos, negsuc,
}

abbrev pub Bytes : Type 0
Bytes = List ℕ

-- The code points of a text: its bytes, if it is ASCII.
abbrev pub codes : String → List ℕ
codes String.[] = []
codes (String.◌∷◌ c s) = code c ∷ codes s

-- `payload[first:last]`
abbrev pub slice : Bytes → ℕ → ℕ → Bytes
slice payload first last = take (last - first) (drop first payload)

pub data Order : Type 0 where
  little big : Order

pub data Code : Type 0 where
  uint8 int8 uint16 int16 uint32 : Code

pub record Format : Type 0 where
  pub order : Order
  pub items : List Code

abbrev pub code_size : Code → ℕ
code_size uint8 = 1
code_size int8 = 1
code_size uint16 = 2
code_size int16 = 2
code_size uint32 = 4

-- `struct.Struct(format).size`
abbrev pub items_size : List Code → ℕ
items_size [] = 0
items_size (c ∷ cs) = code_size c + items_size cs

-- Standard sizes and no alignment, as with each of the four prefixes. `=` is the host's order,
-- taken to be little endian.
abbrev order_of : ℕ → Option Order
order_of c =
    if c == b'<' || c == b'='
    then some little
    else if c == b'>' || c == b'!'
    then some big
    else none

abbrev code_of : ℕ → Option Code
code_of c =
    if c == b'B'
    then some uint8
    else if c == b'b'
    then some int8
    else if c == b'H'
    then some uint16
    else if c == b'h'
    then some int16
    else if c == b'I'
    then some uint32
    else none

-- A repeat count, if one was written.
abbrev repeat_of : Option ℕ → ℕ
repeat_of none = 1
repeat_of (some n) = n

abbrev digit : Option ℕ → ℕ → ℕ
digit none d = d
digit (some n) d = n * 10 + d

-- The items behind the prefix. `none` is `struct.error`, also for the codes that the integration
-- does not use.
pub compile_items : Option ℕ → List ℕ → Option (List Code)
compile_items none [] = some []
compile_items (some n) [] = none
compile_items count (c ∷ cs) =
    let more = compile_items (some (digit count (c - b'0'))) cs in
    let rest = compile_items none cs in
    if leb b'0' c && leb c b'9' then more else elim (code_of c) [
      | none ↦ none
      | some k ↦ elim rest [ none ↦ none | some ks ↦ some (replicate (repeat_of count) k ++ ks) ]
    ]

-- `struct.Struct(format)` for a format that begins with one of the four prefixes.
unfoldable pub compile : String → Option Format
unfolding compile_items
compile text = elim (codes text) [
  | [] ↦ none
  | c ∷ cs ↦ elim (order_of c) [
    | none ↦ none
    | some o ↦ elim (compile_items none cs) [
      | none ↦ none
      | some ks ↦ some (record { order = o; items = ks })
    ]
  ]
]

-- The integers that 8 and 16 bits stand for in two's complement.
abbrev pub signed8 : ℕ → ℤ
signed8 n = if ltb n 128 then pos n else negsuc (255 - n)

abbrev pub signed16 : ℕ → ℤ
signed16 n = if ltb n 32768 then pos n else negsuc (65535 - n)

abbrev pub word2 : Order → ℕ → ℕ → ℕ
word2 little a b = a + 256 * b
word2 big a b = b + 256 * a

abbrev pub word4 : Order → ℕ → ℕ → ℕ → ℕ → ℕ
word4 little a b c d = a + 256 * b + 65536 * c + 16777216 * d
word4 big a b c d = d + 256 * c + 65536 * b + 16777216 * a

abbrev pub cons_item : ℤ → Option (List ℤ) → Option (List ℤ)
cons_item v none = none
cons_item v (some vs) = some (v ∷ vs)

-- The items read from the front; `none` where the bytes run out.
unfoldable pub read_items : Order → List Code → Bytes → Option (List ℤ)
read_items o [] bytes = some []
read_items o (uint8 ∷ cs) (a ∷ bytes) = cons_item (pos a) (read_items o cs bytes)
read_items o (int8 ∷ cs) (a ∷ bytes) = cons_item (signed8 a) (read_items o cs bytes)
read_items o (uint16 ∷ cs) (a ∷ b ∷ bytes) = cons_item (pos (word2 o a b)) (read_items o cs bytes)
read_items o (int16 ∷ cs) (a ∷ b ∷ bytes) =
    cons_item (signed16 (word2 o a b)) (read_items o cs bytes)
read_items o (uint32 ∷ cs) (a ∷ b ∷ c ∷ d ∷ bytes) =
    cons_item (pos (word4 o a b c d)) (read_items o cs bytes)
read_items o (_ ∷ cs) _ = none

-- `struct.unpack(format, data)`: the data must have exactly the format's size.
unfoldable pub unpack : Format → Bytes → Option (List ℤ)
unfolding read_items
unpack f bytes =
    if length bytes == items_size f.items then read_items f.order f.items bytes else none

-- `struct.unpack_from(data, offset)`: the data may go on behind the items.
unfoldable pub unpack_from : Format → Bytes → ℕ → Option (List ℤ)
unfolding read_items
unpack_from f bytes offset = read_items f.order f.items (drop offset bytes)
