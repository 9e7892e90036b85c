-- ===== src/Schema/Tables.antt =====
-- What the tables of custom_components/marstek_ble/products are written with: `FieldSource` with its
-- defaults, converters from factories, and dataclass instances by their fields.
use ha_marstek_ble.Prelude.{ℕ, zero, suc, none, some, List, [], ◌∷◌}
use ha_marstek_ble.Struct.{Format}
use ha_marstek_ble.Result.{Result, ok, err}
use ha_marstek_ble.Converter.{Converter}
use ha_marstek_ble.Schema.{FieldSource}
use ha_marstek_ble.Schema.Tree.{Slot, Fields, end, field, Items, stop, item}

-- A converter that its factory returned; a table whose factory raised would fail on import.
abbrev pub built : Result Converter → Converter
built (ok c) = c
built (err e) = λ raw. err e

abbrev pub source : ℕ → Format → Converter → FieldSource
source offset format converter = record {
  offset = offset;
  format = format;
  converter = converter;
  minimum_length = none;
  maximum_length = none;
}

abbrev pub long_source : ℕ → Format → Converter → ℕ → FieldSource
long_source offset format converter minimum = record {
  offset = offset;
  format = format;
  converter = converter;
  minimum_length = some minimum;
  maximum_length = none;
}

abbrev pub fields : List Slot → Fields
fields [] = end
fields (s ∷ slots) = field s (fields slots)

-- `[Section() for _ in range(count)]`
abbrev pub copies : ℕ → Fields → Items
copies zero fs = stop
copies (suc count) fs = item fs (copies count fs)
