-- ===== src/Marstek/Numeric.antt =====
-- The parsers of fixed binary payloads of `MarstekProtocol` in
-- custom_components/marstek_ble/marstek_device.py: commands 0x03, 0x0D, 0x13, 0x14, 0x1A and 0x22.
use ha_marstek_ble.Prelude.{
  ℕ, ◌+◌, ◌*◌, String, Bool, true, false, not, some, List, [], ◌∷◌, bit_and, fits, ◌==◌,
  if◌then◌else◌, length, set, pos, ◌≡◌, refl,
}
use ha_marstek_ble.Struct.{Bytes, Format, little, uint8, int8, uint16, int16, uint32, compile}
use ha_marstek_ble.Converter.{bool, int, real}
use ha_marstek_ble.Marstek.{
  Parse, ◌>>=◌, ◌>>◌, pure, assign, try_or_false, when, unpack_at, byte_at, mark_field_update,
  track_all,
}

-- The compiled formats "<B", "<b", "<H", "<h" and "<I".
abbrev pub u8 : Format
u8 = record { order = little; items = uint8 ∷ [] }

abbrev pub i8 : Format
i8 = record { order = little; items = int8 ∷ [] }

abbrev pub u16 : Format
u16 = record { order = little; items = uint16 ∷ [] }

abbrev pub i16 : Format
i16 = record { order = little; items = int16 ∷ [] }

abbrev pub u32 : Format
u32 = record { order = little; items = uint32 ∷ [] }

-- `(byte & mask) != 0` and `byte != 0`
abbrev pub set_bits : ℕ → ℕ → Bool
set_bits byte mask = not (bit_and byte mask == 0)

abbrev pub nonzero_byte : ℕ → Bool
nonzero_byte byte = not (byte == 0)

-- The body of `_parse_runtime_info` for payloads of 37 to 59 bytes.
unfoldable pub parse_short_runtime : Bytes → ℕ → Parse Bool
unfolding unpack_at track_all
parse_short_runtime payload timestamp = try_or_false do
  when (fits 16 (length payload)) do
    flags ← byte_at payload 15
    assign λ d. record d { wifi_connected = bool (set_bits flags 0x01) }
    assign λ d. record d { mqtt_connected = bool (set_bits flags 0x02) }
    mark_field_update "wifi_connected" 0x03 timestamp payload
    mark_field_update "mqtt_connected" 0x03 timestamp payload
  when (fits 17 (length payload)) do
    active ← byte_at payload 16
    assign λ d. record d { out1_active = bool (nonzero_byte active) }
    mark_field_update "out1_active" 0x03 timestamp payload
  when (fits 22 (length payload)) do
    power ← unpack_at u16 payload 20 22
    assign λ d. record d { out1_power = real power 1 }
    mark_field_update "out1_power" 0x03 timestamp payload
  when (fits 29 (length payload)) do
    extern1 ← byte_at payload 28
    assign λ d. record d { extern1_connected = bool (nonzero_byte extern1) }
    mark_field_update "extern1_connected" 0x03 timestamp payload
  pure true

-- Its fields for payloads of 100 bytes and more.
unfoldable pub parse_extended_runtime : Bytes → ℕ → Parse (Unit {0})
unfolding unpack_at track_all
parse_extended_runtime payload timestamp = do
  grid_power_raw ← unpack_at i16 payload 0 2
  assign λ d. record d { grid_power = real grid_power_raw 1 }
  solar_power_raw ← unpack_at i16 payload 2 4
  assign λ d. record d { solar_power = real solar_power_raw 1 }
  mode ← byte_at payload 4
  assign λ d. record d { work_mode = int (pos mode) }
  product_code_raw ← unpack_at u16 payload 12 14
  assign λ d. record d { product_code = int product_code_raw }
  daily_energy_charged_raw ← unpack_at u32 payload 14 18
  assign λ d. record d { daily_energy_charged = real daily_energy_charged_raw 100 }
  monthly_energy_charged_raw ← unpack_at u32 payload 18 22
  assign λ d. record d { monthly_energy_charged = real monthly_energy_charged_raw 1000 }
  daily_energy_discharged_raw ← unpack_at u32 payload 22 26
  assign λ d. record d { daily_energy_discharged = real daily_energy_discharged_raw 100 }
  monthly_energy_discharged_raw ← unpack_at u32 payload 26 30
  assign λ d. record d { monthly_energy_discharged = real monthly_energy_discharged_raw 100 }
  total_energy_charged_raw ← unpack_at u32 payload 41 45
  assign λ d. record d { total_energy_charged = real total_energy_charged_raw 100 }
  total_energy_discharged_raw ← unpack_at u32 payload 45 49
  assign λ d. record d { total_energy_discharged = real total_energy_discharged_raw 100 }
  power_rating_raw ← unpack_at u16 payload 74 76
  assign λ d. record d { power_rating = int power_rating_raw }
  track_all
      ("grid_power" ∷ "solar_power" ∷ "work_mode" ∷ "product_code" ∷ "daily_energy_charged"
        ∷ "monthly_energy_charged" ∷ "daily_energy_discharged" ∷ "monthly_energy_discharged"
        ∷ "total_energy_charged" ∷ "total_energy_discharged" ∷ "power_rating" ∷ [])
      0x03 timestamp payload

-- Its body for payloads of 60 bytes and more.
unfoldable pub parse_long_runtime : Bytes → ℕ → Parse Bool
unfolding unpack_at track_all parse_extended_runtime
parse_long_runtime payload timestamp = do
  out1_power_raw ← unpack_at u16 payload 20 22
  assign λ d. record d { out1_power = real out1_power_raw 1 }
  temp_low_raw ← unpack_at i16 payload 33 35
  assign λ d. record d { temp_low = real temp_low_raw 10 }
  temp_high_raw ← unpack_at i16 payload 35 37
  assign λ d. record d { temp_high = real temp_high_raw 10 }
  flags ← byte_at payload 15
  assign λ d. record d { wifi_connected = bool (set_bits flags 0x01) }
  assign λ d. record d { mqtt_connected = bool (set_bits flags 0x02) }
  active ← byte_at payload 16
  assign λ d. record d { out1_active = bool (nonzero_byte active) }
  extern1 ← byte_at payload 28
  assign λ d. record d { extern1_connected = bool (nonzero_byte extern1) }
  when (fits 100 (length payload)) (parse_extended_runtime payload timestamp)
  track_all
      ("out1_power" ∷ "temp_low" ∷ "temp_high" ∷ "wifi_connected" ∷ "mqtt_connected" ∷ "out1_active"
        ∷ "extern1_connected" ∷ [])
      0x03 timestamp payload
  pure true

-- `_parse_runtime_info`
unfoldable pub parse_runtime_info : Bytes → ℕ → Parse Bool
unfolding parse_short_runtime parse_long_runtime
parse_runtime_info payload timestamp =
    if not (fits 37 (length payload))
    then pure false
    else if not (fits 60 (length payload))
    then parse_short_runtime payload timestamp
    else parse_long_runtime payload timestamp

-- `_parse_system_data`
unfoldable pub parse_system_data : Bytes → ℕ → Parse Bool
unfolding unpack_at track_all
parse_system_data payload timestamp = if not (fits 11 (length payload)) then pure false else do
  status ← byte_at payload 0
  assign λ d. record d { system_status = int (pos status) }
  system_value_1_raw ← unpack_at u16 payload 1 3
  assign λ d. record d { system_value_1 = int system_value_1_raw }
  system_value_2_raw ← unpack_at u16 payload 3 5
  assign λ d. record d { system_value_2 = int system_value_2_raw }
  system_value_3_raw ← unpack_at u16 payload 5 7
  assign λ d. record d { system_value_3 = int system_value_3_raw }
  system_value_4_raw ← unpack_at u16 payload 7 9
  assign λ d. record d { system_value_4 = int system_value_4_raw }
  system_value_5_raw ← unpack_at u16 payload 9 11
  assign λ d. record d { system_value_5 = int system_value_5_raw }
  track_all
      ("system_status" ∷ "system_value_1" ∷ "system_value_2" ∷ "system_value_3" ∷ "system_value_4"
        ∷ "system_value_5" ∷ [])
      0x0D timestamp payload
  pure true

-- `_parse_timer_info`
unfoldable pub parse_timer_info : Bytes → ℕ → Parse Bool
unfolding unpack_at track_all
parse_timer_info payload timestamp = if not (fits 45 (length payload)) then pure false else do
  enabled ← byte_at payload 0
  assign λ d. record d { adaptive_mode_enabled = bool (nonzero_byte enabled) }
  connected ← byte_at payload 37
  assign λ d. record d { smart_meter_connected = bool (nonzero_byte connected) }
  power ← unpack_at u16 payload 38 40
  assign λ d. record d { adaptive_power_out = real power 1 }
  track_all ("adaptive_mode_enabled" ∷ "smart_meter_connected" ∷ "adaptive_power_out" ∷ []) 0x13
      timestamp payload
  pure true

-- The names `cell_1_voltage` to `cell_16_voltage`.
abbrev pub cell_names : List String
cell_names =
    "cell_1_voltage" ∷ "cell_2_voltage" ∷ "cell_3_voltage" ∷ "cell_4_voltage" ∷ "cell_5_voltage"
    ∷ "cell_6_voltage" ∷ "cell_7_voltage" ∷ "cell_8_voltage" ∷ "cell_9_voltage" ∷ "cell_10_voltage"
    ∷ "cell_11_voltage" ∷ "cell_12_voltage" ∷ "cell_13_voltage" ∷ "cell_14_voltage"
    ∷ "cell_15_voltage" ∷ "cell_16_voltage" ∷ []

-- The loop over the cells: cell `i` stands at 48 + 2 * i.
unfoldable pub parse_cells : List String → ℕ → Bytes → ℕ → Parse (Unit {0})
unfolding unpack_at mark_field_update
parse_cells [] i payload timestamp = pure tt
parse_cells (n ∷ names) i payload timestamp = do
  when (fits (48 + i * 2 + 2) (length payload)) do
    raw ← unpack_at u16 payload (48 + i * 2) (48 + i * 2 + 2)
    assign λ d. record d { cell_voltages = set d.cell_voltages i (some (raw, 1000)) }
    mark_field_update n 0x14 timestamp payload
  parse_cells names (i + 1) payload timestamp

-- `_parse_bms_data`
unfoldable pub parse_bms_data : Bytes → ℕ → Parse Bool
unfolding unpack_at track_all parse_cells
parse_bms_data payload timestamp = if not (fits 80 (length payload)) then pure false else do
  bms_version_raw ← unpack_at u16 payload 0 2
  assign λ d. record d { bms_version = int bms_version_raw }
  voltage_limit_raw ← unpack_at u16 payload 2 4
  assign λ d. record d { voltage_limit = real voltage_limit_raw 10 }
  charge_current_limit_raw ← unpack_at u16 payload 4 6
  assign λ d. record d { charge_current_limit = real charge_current_limit_raw 10 }
  discharge_current_limit_raw ← unpack_at i16 payload 6 8
  assign λ d. record d { discharge_current_limit = real discharge_current_limit_raw 10 }
  battery_soc_raw ← unpack_at u16 payload 8 10
  assign λ d. record d { battery_soc = real battery_soc_raw 1 }
  battery_soh_raw ← unpack_at u16 payload 10 12
  assign λ d. record d { battery_soh = real battery_soh_raw 1 }
  design_capacity_raw ← unpack_at u16 payload 12 14
  assign λ d. record d { design_capacity = real design_capacity_raw 1 }
  battery_voltage_raw ← unpack_at u16 payload 14 16
  assign λ d. record d { battery_voltage = real battery_voltage_raw 100 }
  battery_current_raw ← unpack_at i16 payload 16 18
  assign λ d. record d { battery_current = real battery_current_raw 10 }
  battery_temp_raw ← unpack_at u16 payload 18 20
  assign λ d. record d { battery_temp = real battery_temp_raw 1 }
  error_code_raw ← unpack_at u16 payload 26 28
  assign λ d. record d { error_code = int error_code_raw }
  warning_code_raw ← unpack_at u32 payload 28 32
  assign λ d. record d { warning_code = int warning_code_raw }
  runtime_hours_raw ← unpack_at u32 payload 32 36
  assign λ d. record d { runtime_hours = real runtime_hours_raw 3_600_000 }
  mosfet_temp_raw ← unpack_at u16 payload 38 40
  assign λ d. record d { mosfet_temp = real mosfet_temp_raw 1 }
  temp_sensor_1_raw ← unpack_at u16 payload 40 42
  assign λ d. record d { temp_sensor_1 = real temp_sensor_1_raw 1 }
  temp_sensor_2_raw ← unpack_at u16 payload 42 44
  assign λ d. record d { temp_sensor_2 = real temp_sensor_2_raw 1 }
  temp_sensor_3_raw ← unpack_at u16 payload 44 46
  assign λ d. record d { temp_sensor_3 = real temp_sensor_3_raw 1 }
  temp_sensor_4_raw ← unpack_at u16 payload 46 48
  assign λ d. record d { temp_sensor_4 = real temp_sensor_4_raw 1 }
  parse_cells cell_names 0 payload timestamp
  track_all
      ("bms_version" ∷ "voltage_limit" ∷ "charge_current_limit" ∷ "discharge_current_limit"
        ∷ "battery_soc" ∷ "battery_soh" ∷ "design_capacity" ∷ "battery_voltage" ∷ "battery_current"
        ∷ "battery_temp" ∷ "error_code" ∷ "warning_code" ∷ "runtime_hours" ∷ "mosfet_temp"
        ∷ "temp_sensor_1" ∷ "temp_sensor_2" ∷ "temp_sensor_3" ∷ "temp_sensor_4" ∷ [])
      0x14 timestamp payload
  pure true

-- `_parse_config_data`
unfoldable pub parse_config_data : Bytes → ℕ → Parse Bool
unfolding unpack_at track_all
parse_config_data payload timestamp = if not (fits 17 (length payload)) then pure false else do
  mode ← byte_at payload 0
  assign λ d. record d { config_mode = int (pos mode) }
  status ← unpack_at i8 payload 4 5
  assign λ d. record d { config_status = int status }
  value ← byte_at payload 16
  assign λ d. record d { config_value = int (pos value) }
  track_all ("config_mode" ∷ "config_status" ∷ "config_value" ∷ []) 0x1A timestamp payload
  pure true

-- `_parse_ct_polling_rate`
unfoldable pub parse_ct_polling_rate : Bytes → ℕ → Parse Bool
unfolding mark_field_update
parse_ct_polling_rate payload timestamp = if not (fits 1 (length payload)) then pure false else do
  rate ← byte_at payload 0
  assign λ d. record d { ct_polling_rate = int (pos rate) }
  mark_field_update "ct_polling_rate" 0x22 timestamp payload
  pure true

-- The formats are what `struct` compiles.
compiled_formats :
    (compile "<B" ≡ some u8)
    × (compile "<b" ≡ some i8)
    × (compile "<H" ≡ some u16)
    × (compile "<h" ≡ some i16)
    × (compile "<I" ≡ some u32)
unfolding compile
compiled_formats = (refl, refl, refl, refl, refl)
