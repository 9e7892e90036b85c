-- ===== src/Converter.antt =====
-- The values that the data models hold, and the converters of
-- custom_components/marstek_ble/schema.py. A float is kept as the quotient that Python computes it
-- from: `real n d` is the float nearest to n / d.
use ha_marstek_ble.Prelude.{
  ℕ, ◌-◌, ◌/◌, ◌^◌, Bool, true, false, not, Option, some, List, map, bit_and, ◌==◌, ltb_ℤ, ℤ, pos,
  negsuc, pos_part, ◌*ℤ◌,
}
use ha_marstek_ble.Result.{value_error, type_error, Result, ok, err, ◌>>◌, raise_if}

-- `null` is None, `text` a str by its code points, `ints` a tuple, and `reals` the list of floats
-- or None that `cell_voltages` is.
pub data Value : Type 0 where
  null : Value
  bool : Bool → Value
  int : ℤ → Value
  real : ℤ → ℕ → Value
  text : List ℕ → Value
  ints : List ℤ → Value
  reals : List (Option (ℤ × ℕ)) → Value

-- What `parse_from` hands to a converter: a single item, or a tuple.
pub data Raw : Type 0 where
  one : ℤ → Raw
  many : List ℤ → Raw

abbrev pub Converter : Type 0
Converter = Raw → Result Value

abbrev pub identity : Converter
identity (one v) = ok (int v)
identity (many vs) = ok (ints vs)

-- The builtin `float` as a converter.
abbrev pub to_float : Converter
to_float (one v) = ok (real v 1)
to_float (many vs) = err type_error

abbrev pub is_zero : ℤ → Bool
is_zero (pos n) = n == 0
is_zero (negsuc n) = false

-- A tuple is never equal to 0.
abbrev pub nonzero : Converter
nonzero (one v) = ok (bool (not (is_zero v)))
nonzero (many vs) = ok (bool true)

-- `value & mask` for a mask of zero or more. A negative value -(n + 1) has the bits that n lacks.
abbrev pub and_mask : ℤ → ℕ → ℕ
and_mask (pos n) mask = bit_and n mask
and_mask (negsuc n) mask = mask - bit_and n mask

abbrev bit_converter : ℕ → Converter
bit_converter mask (one v) = ok (bool (not (and_mask v mask == 0)))
bit_converter mask (many vs) = err type_error

-- `bit(bit_number)`
unfoldable pub bit : ℤ → Result Converter
bit bit_number = do
  raise_if (ltb_ℤ bit_number (pos 0)) value_error
  ok (bit_converter (2 ^ pos_part bit_number))

-- `value >> count`, which rounds towards minus infinity.
abbrev pub shift_right : ℤ → ℕ → ℤ
shift_right (pos n) count = pos (n / 2 ^ count)
shift_right (negsuc n) count = negsuc (n / 2 ^ count)

abbrev bits_converter : ℕ → ℕ → Converter
bits_converter first mask (one v) = ok (int (pos (and_mask (shift_right v first) mask)))
bits_converter first mask (many vs) = err type_error

-- `bits(first_bit, bit_count)`
unfoldable pub bits : ℤ → ℤ → Result Converter
bits first_bit bit_count = do
  raise_if (ltb_ℤ first_bit (pos 0)) value_error
  raise_if (ltb_ℤ bit_count (pos 1)) value_error
  ok (bits_converter (pos_part first_bit) (2 ^ pos_part bit_count - 1))

-- `multiply_by(multiplier)` for an integer multiplier. A tuple times an integer is a repetition,
-- which no field of the products asks for; it is an error here.
unfoldable pub multiply_by : ℤ → Converter
multiply_by multiplier (one v) = ok (int (v *ℤ multiplier))
multiply_by multiplier (many vs) = err type_error

abbrev divide_converter : ℕ → Converter
divide_converter divisor (one v) = ok (real v divisor)
divide_converter divisor (many vs) = err type_error

-- `divide_by(divisor)` for a divisor of zero or more.
unfoldable pub divide_by : ℕ → Result Converter
divide_by divisor = do raise_if (divisor == 0) value_error; ok (divide_converter divisor)

abbrev divide_each_converter : ℕ → Converter
divide_each_converter divisor (one v) = err type_error
divide_each_converter divisor (many vs) = ok (reals (map (λ v. some (v, divisor)) vs))

-- `divide_each_by(divisor)`
unfoldable pub divide_each_by : ℕ → Result Converter
divide_each_by divisor = do raise_if (divisor == 0) value_error; ok (divide_each_converter divisor)
