-- ===== src/Schema.antt =====
-- The declarations of custom_components/marstek_ble/schema.py: packet schemas, field sources and
-- the sources of sections, with the checks of their `__post_init__` methods.
pub mod Tree
pub mod Tables
pub mod Attributes
pub mod Ready
pub mod OnePass
pub mod Stable
pub mod Total
use text.Mathlib.Text.{◌==◌ as str_eq}
use ha_marstek_ble.Prelude.{
  ℕ, zero, suc, ◌+◌, ◌<◌, max, String, Bool, true, false, ◌&&◌, ◌||◌, not, Option, none, some, List,
  [], ◌∷◌, ltb, leb, fits, ◌==◌, if◌then◌else◌, length, ltb_ℤ, ℤ, pos, negsuc, pos_part,
}
use ha_marstek_ble.Struct.{Bytes, Format, items_size, compile, unpack_from}
use ha_marstek_ble.Result.{
  Error, value_error, struct_error, Result, ok, err, ◌>>=◌, ◌>>◌, raise_if, or_raise,
}
use ha_marstek_ble.Converter.{Value, Raw, one, many, Converter}

pub record PacketSchema : Type 0 where
  pub name : String
  pub command : ℕ
  pub minimum_length : ℕ
  pub maximum_length : Option ℕ

abbrev below_some : ℤ → Option ℤ → Bool
below_some a none = false
below_some a (some b) = ltb_ℤ b a

abbrev pub to_ℕ? : Option ℤ → Option ℕ
to_ℕ? none = none
to_ℕ? (some a) = some (pos_part a)

-- `PacketSchema(name, command, minimum_length, maximum_length)` with `__post_init__`.
unfoldable pub new_packet : String → ℤ → ℤ → Option ℤ → Result PacketSchema
new_packet name command minimum maximum = do
  raise_if (str_eq name "") value_error
  raise_if (ltb_ℤ command (pos 0) || ltb_ℤ (pos 0xFF) command) value_error
  raise_if (ltb_ℤ minimum (pos 0)) value_error
  raise_if (below_some minimum maximum) value_error
  ok (record {
    name = name;
    command = pos_part command;
    minimum_length = pos_part minimum;
    maximum_length = to_ℕ? maximum;
  })

abbrev pub within : ℕ → Option ℕ → Bool
within n none = true
within n (some m) = fits n m

-- `validate_payload`
unfoldable pub validate_payload : PacketSchema → Bytes → Result (Unit {0})
validate_payload packet payload = do
  raise_if (not (fits packet.minimum_length (length payload))) value_error
  raise_if (not (within (length payload) packet.maximum_length)) value_error

abbrev option_eq : Option ℕ → Option ℕ → Bool
option_eq none none = true
option_eq (some a) (some b) = a == b
option_eq _ _ = false

-- The equality of the frozen dataclass, by which the source dictionaries find their entries.
unfoldable pub packet_eq : PacketSchema → PacketSchema → Bool
packet_eq p q =
    str_eq p.name q.name
    && p.command == q.command
    && p.minimum_length == q.minimum_length
    && option_eq p.maximum_length q.maximum_length

-- `sources.get(packet)`
unfoldable pub find : {A : Type 0} → PacketSchema → List (PacketSchema × A) → Option A
unfolding packet_eq
find packet [] = none
find packet ((key, source) ∷ sources) =
    if packet_eq key packet then some source else find packet sources

-- `default` for None, else what is done with the source.
abbrev pub if_found : {A B : Type 0} → Option A → B → (A → B) → B
if_found none default use_it = default
if_found (some a) default use_it = use_it a

-- The `_struct` of a source is its compiled format.
pub record FieldSource : Type 0 where
  pub offset : ℕ
  pub format : Format
  pub converter : Converter
  pub minimum_length : Option ℕ
  pub maximum_length : Option ℕ

abbrev pub size : FieldSource → ℕ
size s = items_size s.format.items

abbrev pub end_offset : FieldSource → ℕ
end_offset s = s.offset + size s

abbrev negative? : Option ℤ → Bool
negative? none = false
negative? (some a) = ltb_ℤ a (pos 0)

abbrev both_below : Option ℤ → Option ℤ → Bool
both_below (some maximum) (some minimum) = ltb_ℤ maximum minimum
both_below _ _ = false

-- `FieldSource(offset, format, converter, minimum_length, maximum_length)` with `__post_init__`.
-- `compile` turns down a format without a byte order, as the first test of the format does.
unfoldable pub new_source : ℤ → String → Converter → Option ℤ → Option ℤ → Result FieldSource
unfolding compile
new_source offset format converter minimum maximum = do
  raise_if (ltb_ℤ offset (pos 0)) value_error
  parser ← or_raise (compile format) value_error
  raise_if (negative? minimum) value_error
  raise_if (below_some (pos (pos_part offset + items_size parser.items)) maximum) value_error
  raise_if (both_below maximum minimum) value_error
  ok (record {
    offset = pos_part offset;
    format = parser;
    converter = converter;
    minimum_length = to_ℕ? minimum;
    maximum_length = to_ℕ? maximum;
  })

abbrev pub or_zero : Option ℕ → ℕ
or_zero none = 0
or_zero (some n) = n

-- `applies_to(payload_length, base_offset=base)`
unfoldable pub applies_to : FieldSource → ℕ → ℕ → Bool
applies_to s payload_length base =
    let required_length = max (base + end_offset s) (or_zero s.minimum_length) in
    if not (fits required_length payload_length)
    then false
    else within payload_length s.maximum_length

-- `unpacked[0] if len(unpacked) == 1 else unpacked`
abbrev pub to_raw : List ℤ → Raw
to_raw (v ∷ []) = one v
to_raw vs = many vs

-- `parse_from(payload, base_offset=base)`
unfoldable pub parse_from : FieldSource → Bytes → ℕ → Result (Raw × Value)
unfolding unpack_from
parse_from s payload base = do
  let absolute_offset = base + s.offset
  raise_if (not (fits (absolute_offset + size s) (length payload))) value_error
  unpacked ← or_raise (unpack_from s.format payload absolute_offset) struct_error
  value ← s.converter (to_raw unpacked)
  ok (to_raw unpacked, value)

-- `SectionSource.offset`, `RepeatedSectionSource` and `RepeatedSectionSpec`.
pub record RepeatedSource : Type 0 where
  pub offset : ℕ
  pub stride : ℕ

pub record RepeatedSpec : Type 0 where
  pub count : ℕ
  pub sources : List (PacketSchema × RepeatedSource)

unfoldable pub new_section_source : ℤ → Result ℕ
new_section_source offset = do raise_if (ltb_ℤ offset (pos 0)) value_error; ok (pos_part offset)

unfoldable pub new_repeated_source : ℤ → ℤ → Result RepeatedSource
new_repeated_source offset stride = do
  raise_if (ltb_ℤ offset (pos 0)) value_error
  raise_if (ltb_ℤ stride (pos 1)) value_error
  ok (record { offset = pos_part offset; stride = pos_part stride })

abbrev is_empty : {A : Type 0} → List A → Bool
is_empty [] = true
is_empty (_ ∷ _) = false

unfoldable pub new_repeated_spec : ℤ → List (PacketSchema × RepeatedSource) → Result RepeatedSpec
new_repeated_spec count sources = do
  raise_if (ltb_ℤ count (pos 1)) value_error
  raise_if (is_empty sources) value_error
  ok (record { count = pos_part count; sources = sources })
