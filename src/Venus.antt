-- ===== src/Venus.antt =====
-- The declarations of custom_components/marstek_ble/products/venus.py: the packets, and for each
-- dataclass its fields with their sources. A section is given as the instance that holds the values
-- of a `MarstekData`, so that `new_data` gives the one that the constructor makes. The
-- `field_updates` of `VenusData` stand beside the tree, in ProductRuntime.antt.
pub mod Compat
pub mod Telemetry
pub mod Runtime
pub mod TextCompat
pub mod Replacement
pub mod Notification
pub mod Atomic
pub mod Ready
pub mod Accepts
use ha_marstek_ble.Prelude.{
  ℕ, String, Option, none, some, List, [], ◌∷◌, replicate, ◌≡◌, refl, ℤ, pos,
}
use ha_marstek_ble.Struct.{Format, little, uint16, compile}
use ha_marstek_ble.Result.{Result, ok, err}
use ha_marstek_ble.Converter.{
  Value, reals, Converter, identity, to_float, nonzero, bit, divide_by, divide_each_by,
}
use ha_marstek_ble.Schema.{PacketSchema, FieldSource}
use ha_marstek_ble.Schema.Tree.{
  Slot, leaf, plain, section, Fields, end, field, PathElement, DataPath,
}
use ha_marstek_ble.Schema.Tables.{built, source, long_source, fields}
use ha_marstek_ble.Marstek.{MarstekData, new_data}
use ha_marstek_ble.Marstek.Numeric.{u8, i8, u16, i16, u32}

abbrev packet : String → ℕ → ℕ → PacketSchema
packet name command minimum = record {
  name = name;
  command = command;
  minimum_length = minimum;
  maximum_length = none;
}

-- `VenusPackets`
abbrev pub runtime_information : PacketSchema
runtime_information = packet "venus_runtime_information" 0x03 37

abbrev pub device_information : PacketSchema
device_information = packet "venus_device_information" 0x04 1

abbrev pub wifi_ssid : PacketSchema
wifi_ssid = packet "venus_wifi_ssid" 0x08 0

abbrev pub system_data : PacketSchema
system_data = packet "venus_system_data" 0x0D 11

abbrev pub timer_information : PacketSchema
timer_information = packet "venus_timer_information" 0x13 45

abbrev pub bms_data : PacketSchema
bms_data = packet "venus_bms_data" 0x14 80

abbrev pub configuration_data : PacketSchema
configuration_data = packet "venus_configuration_data" 0x1A 17

abbrev pub meter_ip : PacketSchema
meter_ip = packet "venus_meter_ip" 0x21 1

abbrev pub ct_polling_rate : PacketSchema
ct_polling_rate = packet "venus_ct_polling_rate" 0x22 1

abbrev pub network_information : PacketSchema
network_information = packet "venus_network_information" 0x24 0

abbrev pub local_api_status : PacketSchema
local_api_status = packet "venus_local_api_status" 0x28 3

-- The compiled format "<16H".
abbrev pub cells16 : Format
cells16 = record { order = little; items = replicate 16 uint16 }

-- `VenusRuntimeData`
unfoldable pub venus_runtime_data : MarstekData → Fields
unfolding bit divide_by
venus_runtime_data d = fields (
    leaf "out1_power" ((runtime_information, source 0x14 u16 to_float) ∷ []) d.out1_power
    ∷ leaf "temp_low" ((runtime_information, long_source 0x21 i16 (built (divide_by 10)) 60) ∷ [])
        d.temp_low
    ∷ leaf "temp_high" ((runtime_information, long_source 0x23 i16 (built (divide_by 10)) 60) ∷ [])
        d.temp_high
    ∷ leaf "wifi_connected" ((runtime_information, source 0x0F u8 (built (bit (pos 0)))) ∷ [])
        d.wifi_connected
    ∷ leaf "mqtt_connected" ((runtime_information, source 0x0F u8 (built (bit (pos 1)))) ∷ [])
        d.mqtt_connected
    ∷ leaf "out1_active" ((runtime_information, source 0x10 u8 nonzero) ∷ []) d.out1_active
    ∷ leaf "extern1_connected" ((runtime_information, source 0x1C u8 nonzero) ∷ [])
        d.extern1_connected
    ∷ leaf "grid_power" ((runtime_information, long_source 0x00 i16 to_float 100) ∷ []) d.grid_power
    ∷ leaf "solar_power" ((runtime_information, long_source 0x02 i16 to_float 100) ∷ [])
        d.solar_power
    ∷ leaf "work_mode" ((runtime_information, long_source 0x04 u8 identity 100) ∷ []) d.work_mode
    ∷ leaf "product_code" ((runtime_information, long_source 0x0C u16 identity 100) ∷ [])
        d.product_code
    ∷ leaf "power_rating" ((runtime_information, long_source 0x4A u16 identity 100) ∷ [])
        d.power_rating
    ∷ leaf "daily_energy_charged"
        ((runtime_information, long_source 0x0E u32 (built (divide_by 100)) 100) ∷ [])
        d.daily_energy_charged
    ∷ leaf "monthly_energy_charged"
        ((runtime_information, long_source 0x12 u32 (built (divide_by 1000)) 100) ∷ [])
        d.monthly_energy_charged
    ∷ leaf "daily_energy_discharged"
        ((runtime_information, long_source 0x16 u32 (built (divide_by 100)) 100) ∷ [])
        d.daily_energy_discharged
    ∷ leaf "monthly_energy_discharged"
        ((runtime_information, long_source 0x1A u32 (built (divide_by 100)) 100) ∷ [])
        d.monthly_energy_discharged
    ∷ leaf "total_energy_charged"
        ((runtime_information, long_source 0x29 u32 (built (divide_by 100)) 100) ∷ [])
        d.total_energy_charged
    ∷ leaf "total_energy_discharged"
        ((runtime_information, long_source 0x2D u32 (built (divide_by 100)) 100) ∷ [])
        d.total_energy_discharged
    ∷ [])

-- `VenusBatteryData`
unfoldable pub venus_battery_data : MarstekData → Fields
unfolding divide_by divide_each_by
venus_battery_data d = fields (
    leaf "bms_version" ((bms_data, source 0x00 u16 identity) ∷ []) d.bms_version
    ∷ leaf "voltage_limit" ((bms_data, source 0x02 u16 (built (divide_by 10))) ∷ []) d.voltage_limit
    ∷ leaf "charge_current_limit" ((bms_data, source 0x04 u16 (built (divide_by 10))) ∷ [])
        d.charge_current_limit
    ∷ leaf "discharge_current_limit" ((bms_data, source 0x06 i16 (built (divide_by 10))) ∷ [])
        d.discharge_current_limit
    ∷ leaf "battery_soc" ((bms_data, source 0x08 u16 to_float) ∷ []) d.battery_soc
    ∷ leaf "battery_soh" ((bms_data, source 0x0A u16 to_float) ∷ []) d.battery_soh
    ∷ leaf "design_capacity" ((bms_data, source 0x0C u16 to_float) ∷ []) d.design_capacity
    ∷ leaf "battery_voltage" ((bms_data, source 0x0E u16 (built (divide_by 100))) ∷ [])
        d.battery_voltage
    ∷ leaf "battery_current" ((bms_data, source 0x10 i16 (built (divide_by 10))) ∷ [])
        d.battery_current
    ∷ leaf "battery_temp" ((bms_data, source 0x12 u16 to_float) ∷ []) d.battery_temp
    ∷ leaf "error_code" ((bms_data, source 0x1A u16 identity) ∷ []) d.error_code
    ∷ leaf "warning_code" ((bms_data, source 0x1C u32 identity) ∷ []) d.warning_code
    ∷ leaf "runtime_hours" ((bms_data, source 0x20 u32 (built (divide_by 3_600_000))) ∷ [])
        d.runtime_hours
    ∷ leaf "mosfet_temp" ((bms_data, source 0x26 u16 to_float) ∷ []) d.mosfet_temp
    ∷ leaf "temp_sensor_1" ((bms_data, source 0x28 u16 to_float) ∷ []) d.temp_sensor_1
    ∷ leaf "temp_sensor_2" ((bms_data, source 0x2A u16 to_float) ∷ []) d.temp_sensor_2
    ∷ leaf "temp_sensor_3" ((bms_data, source 0x2C u16 to_float) ∷ []) d.temp_sensor_3
    ∷ leaf "temp_sensor_4" ((bms_data, source 0x2E u16 to_float) ∷ []) d.temp_sensor_4
    ∷ leaf "cell_voltages" ((bms_data, source 0x30 cells16 (built (divide_each_by 1000))) ∷ [])
        (reals d.cell_voltages)
    ∷ [])

-- `VenusSystemData`
unfoldable pub venus_system_data : MarstekData → Fields
venus_system_data d = fields (
    leaf "system_status" ((system_data, source 0x00 u8 identity) ∷ []) d.system_status
    ∷ leaf "system_value_1" ((system_data, source 0x01 u16 identity) ∷ []) d.system_value_1
    ∷ leaf "system_value_2" ((system_data, source 0x03 u16 identity) ∷ []) d.system_value_2
    ∷ leaf "system_value_3" ((system_data, source 0x05 u16 identity) ∷ []) d.system_value_3
    ∷ leaf "system_value_4" ((system_data, source 0x07 u16 identity) ∷ []) d.system_value_4
    ∷ leaf "system_value_5" ((system_data, source 0x09 u16 identity) ∷ []) d.system_value_5
    ∷ [])

-- `VenusTimerData`
unfoldable pub venus_timer_data : MarstekData → Fields
venus_timer_data d = fields (
    leaf "adaptive_mode_enabled" ((timer_information, source 0x00 u8 nonzero) ∷ [])
      d.adaptive_mode_enabled
    ∷ leaf "smart_meter_connected" ((timer_information, source 0x25 u8 nonzero) ∷ [])
        d.smart_meter_connected
    ∷ leaf "adaptive_power_out" ((timer_information, source 0x26 u16 to_float) ∷ [])
        d.adaptive_power_out
    ∷ [])

-- `VenusConfigurationData`
unfoldable pub venus_configuration_data : MarstekData → Fields
venus_configuration_data d = fields (
    leaf "config_mode" ((configuration_data, source 0x00 u8 identity) ∷ []) d.config_mode
    ∷ leaf "config_status" ((configuration_data, source 0x04 i8 identity) ∷ []) d.config_status
    ∷ leaf "config_value" ((configuration_data, source 0x10 u8 identity) ∷ []) d.config_value
    ∷ leaf "ct_polling_rate" ((ct_polling_rate, source 0x00 u8 identity) ∷ []) d.ct_polling_rate
    ∷ [])

-- `VenusDeviceInformation`
unfoldable pub venus_device_information : MarstekData → Fields
venus_device_information d = fields (
    plain "device_type" d.device_type
    ∷ plain "device_id" d.device_id
    ∷ plain "serial_number" d.serial_number
    ∷ plain "mac_address" d.mac_address
    ∷ plain "firmware_version" d.firmware_version
    ∷ plain "hardware_version" d.hardware_version
    ∷ [])

-- `VenusNetworkData`
unfoldable pub venus_network_data : MarstekData → Fields
venus_network_data d = fields (
    plain "wifi_ssid" d.wifi_ssid
    ∷ plain "meter_ip" d.meter_ip
    ∷ plain "network_info" d.network_info
    ∷ plain "ip_address" d.ip_address
    ∷ plain "gateway" d.gateway
    ∷ plain "subnet_mask" d.subnet_mask
    ∷ plain "dns_server" d.dns_server
    ∷ plain "local_api_status" d.local_api_status
    ∷ [])

-- `VenusData`
unfoldable pub venus_data : MarstekData → Fields
unfolding venus_runtime_data venus_battery_data venus_system_data venus_timer_data
    venus_configuration_data venus_device_information venus_network_data
venus_data d = fields (
    section "runtime" none (venus_runtime_data d)
    ∷ section "battery" none (venus_battery_data d)
    ∷ section "system" none (venus_system_data d)
    ∷ section "timer" none (venus_timer_data d)
    ∷ section "configuration" none (venus_configuration_data d)
    ∷ section "device" none (venus_device_information d)
    ∷ section "network" none (venus_network_data d)
    ∷ [])
