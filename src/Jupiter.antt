-- ===== src/Jupiter.antt =====
-- The packets and the converters of custom_components/marstek_ble/products/jupiter.py.
pub mod Tables
pub mod Runtime
pub mod Ready
pub mod Accepts
pub mod Atomic
use ha_marstek_ble.Prelude.{
  ℕ, String, Bool, Option, none, some, List, [], ◌∷◌, ◌++◌, ◌==◌, if◌then◌else◌, ℤ, pos, negsuc,
  pos_part,
}
use ha_marstek_ble.Struct.{codes, Format, little, uint8, uint16}
use ha_marstek_ble.Result.{value_error, type_error, Result, ok, err}
use ha_marstek_ble.Text.{Text}
use ha_marstek_ble.Text.Numerals.{padded_decimal, padded_hex}
use ha_marstek_ble.Converter.{Value, text, Raw, one, many, Converter}
use ha_marstek_ble.Schema.{PacketSchema}

abbrev packet : String → ℕ → ℕ → Option ℕ → PacketSchema
packet name command minimum maximum = record {
  name = name;
  command = command;
  minimum_length = minimum;
  maximum_length = maximum;
}

-- `JupiterPackets`
abbrev pub runtime_information : PacketSchema
runtime_information = packet "jupiter_runtime_information" 0x03 74 (some 74)

abbrev pub device_information : PacketSchema
device_information = packet "jupiter_device_information" 0x04 0 none

abbrev pub wifi_ssid : PacketSchema
wifi_ssid = packet "jupiter_wifi_ssid" 0x08 0 none

abbrev pub unresolved_status : PacketSchema
unresolved_status = packet "jupiter_unresolved_status" 0x0D 12 (some 12)

abbrev pub event_history : PacketSchema
event_history = packet "jupiter_event_history" 0x13 160 (some 160)

abbrev pub detailed_telemetry : PacketSchema
detailed_telemetry = packet "jupiter_detailed_telemetry" 0x14 166 (some 166)

abbrev pub raw_status_21 : PacketSchema
raw_status_21 = packet "jupiter_raw_status_21" 0x21 1 (some 1)

abbrev pub raw_status_22 : PacketSchema
raw_status_22 = packet "jupiter_raw_status_22" 0x22 1 (some 1)

abbrev pub raw_status_24 : PacketSchema
raw_status_24 = packet "jupiter_raw_status_24" 0x24 1 (some 1)

-- The compiled format "<HBBBBBB".
abbrev pub event_format : Format
event_format = record {
  order = little;
  items = uint16 ∷ uint8 ∷ uint8 ∷ uint8 ∷ uint8 ∷ uint8 ∷ uint8 ∷ [];
}

abbrev pub state_name : ℤ → Text
state_name (pos n) =
    if n == 0
    then codes "idle"
    else if n == 1
    then codes "charging"
    else if n == 2
    then codes "discharging"
    else codes "unknown"
state_name (negsuc n) = codes "unknown"

-- `_battery_state`: a tuple is no key of the states.
unfoldable pub battery_state : Converter
battery_state (one v) = ok (text (state_name v))
battery_state (many vs) = ok (text (codes "unknown"))

-- `_event_summary`: a tuple of another length cannot be taken apart. The items are unsigned.
unfoldable pub event_summary : Converter
unfolding padded_decimal padded_hex
event_summary (many (year ∷ month ∷ day ∷ hour ∷ minute ∷ unknown_1 ∷ unknown_2 ∷ [])) = ok (
    text (
      padded_decimal 4 (pos_part year)
      ++ (b'-' ∷ padded_decimal 2 (pos_part month)
          ++ (b'-' ∷ padded_decimal 2 (pos_part day)
              ++ (b' ' ∷ padded_decimal 2 (pos_part hour)
                  ++ (b':' ∷ padded_decimal 2 (pos_part minute)
                      ++ (codes " | 0x"
                          ++ (padded_hex 2 (pos_part unknown_1)
                              ++ (codes " 0x" ++ padded_hex 2 (pos_part unknown_2))))))))))
event_summary (many vs) = err value_error
event_summary (one v) = err type_error
