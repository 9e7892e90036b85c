-- ===== src/Jupiter/Tables.antt =====
-- The dataclasses of custom_components/marstek_ble/products/jupiter.py: for each its fields with
-- their sources, as the instance that its constructor makes.
use ha_marstek_ble.Prelude.{ℕ, String, none, List, [], ◌∷◌, pos}
use ha_marstek_ble.Converter.{null, identity, to_float, nonzero, bit, multiply_by, divide_by}
use ha_marstek_ble.Schema.{PacketSchema, FieldSource, RepeatedSource, RepeatedSpec}
use ha_marstek_ble.Schema.Tree.{Slot, leaf, plain, section, repeated, Fields}
use ha_marstek_ble.Schema.Tables.{built, source, fields, copies}
use ha_marstek_ble.Marstek.Numeric.{u8, u16, i16, u32}
use ha_marstek_ble.Jupiter.{
  runtime_information, event_history, detailed_telemetry, raw_status_21, raw_status_22,
  raw_status_24, event_format, battery_state, event_summary,
}

abbrev field_of : String → List (PacketSchema × FieldSource) → Slot
field_of name sources = leaf name sources null

abbrev value_of : String → Slot
value_of name = plain name null

-- `JupiterPvInputData`
unfoldable pub jupiter_pv_input_data : Fields
unfolding divide_by
jupiter_pv_input_data = fields (
    field_of "power" (
      (runtime_information, source 0x00 u16 to_float)
      ∷ (detailed_telemetry, source 0x04 u16 (built (divide_by 10)))
      ∷ [])
    ∷ field_of "connected" ((runtime_information, source 0x02 u8 nonzero) ∷ [])
    ∷ field_of "voltage" ((detailed_telemetry, source 0x00 u16 (built (divide_by 10))) ∷ [])
    ∷ field_of "current" ((detailed_telemetry, source 0x02 u16 (built (divide_by 10))) ∷ [])
    ∷ [])

-- `JupiterRuntimeData`
unfoldable pub jupiter_runtime_data : Fields
unfolding battery_state bit multiply_by
jupiter_runtime_data = fields (
    field_of "ac_output_power" (
      (runtime_information, source 0x0C u16 to_float)
      ∷ (detailed_telemetry, source 0x10 i16 to_float)
      ∷ [])
    ∷ field_of "grid_connection_valid" ((runtime_information, source 0x0E u8 nonzero) ∷ [])
    ∷ field_of "ac_output_active" ((runtime_information, source 0x0E u8 nonzero) ∷ [])
    ∷ field_of "battery_state" ((runtime_information, source 0x12 u8 battery_state) ∷ [])
    ∷ field_of "stored_battery_energy" (
        (runtime_information, source 0x13 u16 (multiply_by (pos 10)))
        ∷ (detailed_telemetry, source 0x78 u16 to_float)
        ∷ [])
    ∷ field_of "battery_soc" (
        (runtime_information, source 0x15 u8 to_float)
        ∷ (detailed_telemetry, source 0x5E u16 to_float)
        ∷ [])
    ∷ field_of "operational_status" ((runtime_information, source 0x3C u8 identity) ∷ [])
    ∷ field_of "surplus_feed_in_active"
        ((runtime_information, source 0x3C u8 (built (bit (pos 1)))) ∷ [])
    ∷ field_of "ems_firmware_version" ((runtime_information, source 0x2F u16 identity) ∷ [])
    ∷ field_of "inverter_firmware_version" ((runtime_information, source 0x31 u16 identity) ∷ [])
    ∷ field_of "mppt_firmware_version" ((runtime_information, source 0x33 u16 identity) ∷ [])
    ∷ field_of "bms_firmware_version" (
        (runtime_information, source 0x35 u16 identity)
        ∷ (detailed_telemetry, source 0x64 u16 identity)
        ∷ [])
    ∷ [])

-- `JupiterEnergyData`
unfoldable pub jupiter_energy_data : Fields
unfolding divide_by
jupiter_energy_data = fields (
    field_of "daily_pv_generation" (
      (runtime_information, source 0x17 u32 (built (divide_by 100)))
      ∷ (detailed_telemetry, source 0x40 u32 (built (divide_by 100)))
      ∷ [])
    ∷ field_of "monthly_pv_generation" (
        (runtime_information, source 0x1B u32 (built (divide_by 100)))
        ∷ (detailed_telemetry, source 0x48 u32 (built (divide_by 100)))
        ∷ [])
    ∷ field_of "total_pv_generation" (
        (runtime_information, source 0x1F u32 (built (divide_by 100)))
        ∷ (detailed_telemetry, source 0x4C u32 (built (divide_by 100)))
        ∷ [])
    ∷ field_of "daily_output_energy" (
        (runtime_information, source 0x27 u32 (built (divide_by 100)))
        ∷ (detailed_telemetry, source 0x14 u32 (built (divide_by 100)))
        ∷ [])
    ∷ field_of "monthly_output_energy" (
        (runtime_information, source 0x2B u32 (built (divide_by 100)))
        ∷ (detailed_telemetry, source 0x1C u32 (built (divide_by 100)))
        ∷ [])
    ∷ field_of "local_total_output_energy"
        ((detailed_telemetry, source 0x18 u32 (built (divide_by 100))) ∷ [])
    ∷ [])

-- `JupiterInverterData`
unfoldable pub jupiter_inverter_data : Fields
unfolding divide_by
jupiter_inverter_data = fields (
    field_of "state_flags" ((detailed_telemetry, source 0x00 u16 identity) ∷ [])
    ∷ field_of "error_code" (
        (runtime_information, source 0x23 u16 identity)
        ∷ (detailed_telemetry, source 0x02 u16 identity)
        ∷ [])
    ∷ field_of "warning_code" ((detailed_telemetry, source 0x04 u16 identity) ∷ [])
    ∷ field_of "grid_voltage" ((detailed_telemetry, source 0x06 u16 (built (divide_by 10))) ∷ [])
    ∷ field_of "grid_current" ((detailed_telemetry, source 0x08 u16 (built (divide_by 10))) ∷ [])
    ∷ field_of "grid_power_factor" ((detailed_telemetry, source 0x0A u16 identity) ∷ [])
    ∷ field_of "grid_frequency" ((detailed_telemetry, source 0x0C u16 (built (divide_by 100))) ∷ [])
    ∷ field_of "bus_voltage" ((detailed_telemetry, source 0x0E u16 (built (divide_by 10))) ∷ [])
    ∷ field_of "temperature" ((detailed_telemetry, source 0x12 i16 to_float) ∷ [])
    ∷ [])

-- `JupiterMpptData`
unfoldable pub jupiter_mppt_data : Fields
unfolding bit divide_by
jupiter_mppt_data = fields (
    field_of "state_flags" ((detailed_telemetry, source 0x20 u16 identity) ∷ [])
    ∷ field_of "controller_ready" ((detailed_telemetry, source 0x20 u16 (built (bit (pos 2)))) ∷ [])
    ∷ field_of "pv_input_1_active"
        ((detailed_telemetry, source 0x20 u16 (built (bit (pos 4)))) ∷ [])
    ∷ field_of "pv_input_2_active"
        ((detailed_telemetry, source 0x20 u16 (built (bit (pos 5)))) ∷ [])
    ∷ field_of "pv_input_3_active"
        ((detailed_telemetry, source 0x20 u16 (built (bit (pos 6)))) ∷ [])
    ∷ field_of "pv_input_4_active"
        ((detailed_telemetry, source 0x20 u16 (built (bit (pos 7)))) ∷ [])
    ∷ field_of "error_code" ((detailed_telemetry, source 0x22 u16 identity) ∷ [])
    ∷ field_of "temperature" ((detailed_telemetry, source 0x24 i16 to_float) ∷ [])
    ∷ field_of "warning_code" ((detailed_telemetry, source 0x26 u16 identity) ∷ [])
    ∷ field_of "dc_output_voltage"
        ((detailed_telemetry, source 0x50 u16 (built (divide_by 10))) ∷ [])
    ∷ field_of "dc_output_current"
        ((detailed_telemetry, source 0x52 i16 (built (divide_by 10))) ∷ [])
    ∷ [])

-- `JupiterBatteryPackData`
unfoldable pub jupiter_battery_pack_data : Fields
unfolding divide_by
jupiter_battery_pack_data = fields (
    field_of "highest_cell_index" ((detailed_telemetry, source 0x00 u8 identity) ∷ [])
    ∷ field_of "lowest_cell_index" ((detailed_telemetry, source 0x01 u8 identity) ∷ [])
    ∷ field_of "highest_cell_voltage"
        ((detailed_telemetry, source 0x02 u16 (built (divide_by 1000))) ∷ [])
    ∷ field_of "lowest_cell_voltage"
        ((detailed_telemetry, source 0x04 u16 (built (divide_by 1000))) ∷ [])
    ∷ field_of "status" ((detailed_telemetry, source 0x06 u16 identity) ∷ [])
    ∷ [])

abbrev records : ℕ → ℕ → RepeatedSource
records offset stride = record { offset = offset; stride = stride }

abbrev pub pack_spec : RepeatedSpec
pack_spec = record { count = 4; sources = (detailed_telemetry, records 0x7A 8) ∷ [] }

-- `JupiterBatteryData`
unfoldable pub jupiter_battery_data : Fields
unfolding divide_by jupiter_battery_pack_data
jupiter_battery_data = fields (
    field_of "base_voltage" ((detailed_telemetry, source 0x54 u16 (built (divide_by 10))) ∷ [])
    ∷ field_of "pe_voltage" ((detailed_telemetry, source 0x56 u16 (built (divide_by 10))) ∷ [])
    ∷ field_of "charge_voltage_limit"
        ((detailed_telemetry, source 0x58 u16 (built (divide_by 10))) ∷ [])
    ∷ field_of "charge_current_limit"
        ((detailed_telemetry, source 0x5A u16 (built (divide_by 10))) ∷ [])
    ∷ field_of "discharge_current_limit"
        ((detailed_telemetry, source 0x5C u16 (built (divide_by 10))) ∷ [])
    ∷ field_of "soh" ((detailed_telemetry, source 0x60 u16 to_float) ∷ [])
    ∷ field_of "rated_capacity" ((detailed_telemetry, source 0x62 u16 to_float) ∷ [])
    ∷ field_of "voltage" ((detailed_telemetry, source 0x66 u16 (built (divide_by 100))) ∷ [])
    ∷ field_of "current" ((detailed_telemetry, source 0x68 i16 (built (divide_by 10))) ∷ [])
    ∷ field_of "temperature" ((detailed_telemetry, source 0x6A i16 (built (divide_by 10))) ∷ [])
    ∷ field_of "error_code_1" ((detailed_telemetry, source 0x6C u16 identity) ∷ [])
    ∷ field_of "warning_code_1" ((detailed_telemetry, source 0x6E u16 identity) ∷ [])
    ∷ field_of "error_code_2" ((detailed_telemetry, source 0x70 u16 identity) ∷ [])
    ∷ field_of "warning_code_2" ((detailed_telemetry, source 0x72 u16 identity) ∷ [])
    ∷ field_of "cell_flags" ((detailed_telemetry, source 0x74 u8 identity) ∷ [])
    ∷ field_of "status_flags" ((detailed_telemetry, source 0x75 u8 identity) ∷ [])
    ∷ field_of "pack_count" ((detailed_telemetry, source 0x76 u16 identity) ∷ [])
    ∷ repeated "packs" pack_spec (copies 4 jupiter_battery_pack_data)
    ∷ field_of "temp_sensor_1" ((detailed_telemetry, source 0x9A i16 to_float) ∷ [])
    ∷ field_of "temp_sensor_2" ((detailed_telemetry, source 0x9C i16 to_float) ∷ [])
    ∷ field_of "temp_sensor_3" ((detailed_telemetry, source 0x9E i16 to_float) ∷ [])
    ∷ field_of "temp_sensor_4" ((detailed_telemetry, source 0xA0 i16 to_float) ∷ [])
    ∷ field_of "environment_temperature" ((detailed_telemetry, source 0xA2 i16 to_float) ∷ [])
    ∷ field_of "mosfet_temperature" ((detailed_telemetry, source 0xA4 i16 to_float) ∷ [])
    ∷ [])

-- `JupiterEventRecord`
unfoldable pub jupiter_event_record : Fields
unfolding event_summary
jupiter_event_record = fields (
    field_of "summary" ((event_history, source 0x00 event_format event_summary) ∷ [])
    ∷ field_of "year" ((event_history, source 0x00 u16 identity) ∷ [])
    ∷ field_of "month" ((event_history, source 0x02 u8 identity) ∷ [])
    ∷ field_of "day" ((event_history, source 0x03 u8 identity) ∷ [])
    ∷ field_of "hour" ((event_history, source 0x04 u8 identity) ∷ [])
    ∷ field_of "minute" ((event_history, source 0x05 u8 identity) ∷ [])
    ∷ field_of "event_code" ((event_history, source 0x06 u16 identity) ∷ [])
    ∷ field_of "event_value" ((event_history, source 0x06 u8 identity) ∷ [])
    ∷ field_of "event_state" ((event_history, source 0x07 u8 identity) ∷ [])
    ∷ [])

-- `JupiterIdentityData`
unfoldable pub jupiter_identity_data : Fields
jupiter_identity_data = fields (
    value_of "device_type"
    ∷ value_of "device_id"
    ∷ value_of "mac_address"
    ∷ value_of "wifi_ssid"
    ∷ [])

-- `JupiterRawStatusData`
unfoldable pub jupiter_raw_status_data : Fields
jupiter_raw_status_data = fields (
    field_of "status_21" ((raw_status_21, source 0 u8 identity) ∷ [])
    ∷ field_of "status_22" ((raw_status_22, source 0 u8 identity) ∷ [])
    ∷ field_of "status_24" ((raw_status_24, source 0 u8 identity) ∷ [])
    ∷ [])

abbrev pub pv_spec : RepeatedSpec
pv_spec = record {
  count = 4;
  sources = (runtime_information, records 0 3) ∷ (detailed_telemetry, records 0x28 6) ∷ [];
}

abbrev pub event_spec : RepeatedSpec
event_spec = record { count = 20; sources = (event_history, records 0 8) ∷ [] }

-- `JupiterData`
unfoldable pub jupiter_data : Fields
unfolding jupiter_runtime_data jupiter_energy_data jupiter_inverter_data jupiter_mppt_data
    jupiter_pv_input_data jupiter_battery_data jupiter_event_record jupiter_identity_data
    jupiter_raw_status_data
jupiter_data = fields (
    section "runtime" none jupiter_runtime_data
    ∷ section "energy" none jupiter_energy_data
    ∷ section "inverter" none jupiter_inverter_data
    ∷ section "mppt" none jupiter_mppt_data
    ∷ repeated "pv_inputs" pv_spec (copies 4 jupiter_pv_input_data)
    ∷ section "battery" none jupiter_battery_data
    ∷ repeated "events" event_spec (copies 20 jupiter_event_record)
    ∷ section "identity" none jupiter_identity_data
    ∷ section "raw_status" none jupiter_raw_status_data
    ∷ [])
