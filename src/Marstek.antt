-- ===== src/Marstek.antt =====
-- `MarstekData` of custom_components/marstek_ble/marstek_device.py and the statements that its
-- parsers are made of. A parser is a state passing function that keeps what was written before an
-- exception. `timestamp` is the clock reading that the notification took.
pub mod Numeric
pub mod Texts
pub mod Notification
pub mod Cells
pub mod Kept
pub mod KeptTexts
use text.Mathlib.Text.{◌==◌ as str_eq}
use ha_marstek_ble.Prelude.{
  ℕ, ◌+◌, ◌-◌, ◌/◌, ◌%◌, String, Bool, true, false, Option, none, some, List, [], ◌∷◌, ◌++◌, ltb,
  if◌then◌else◌, get_elem?, replicate, ℤ,
}
use ha_marstek_ble.Struct.{Bytes, slice, Format, unpack}
use ha_marstek_ble.Result.{Error, struct_error, index_error, Result, ok, err, or_raise}
use ha_marstek_ble.Converter.{Value, null, reals}

abbrev hex_digit : ℕ → ℕ
hex_digit n = if ltb n 10 then b'0' + n else b'a' + (n - 10)

-- `payload.hex()`
unfoldable pub hex : Bytes → List ℕ
hex [] = []
hex (b ∷ bytes) = hex_digit (b / 16) ∷ hex_digit (b % 16) ∷ hex bytes

-- `payload.hex() if payload else None`
abbrev pub hex_or_none : Bytes → Option (List ℕ)
hex_or_none [] = none
hex_or_none (b ∷ bytes) = some (hex (b ∷ bytes))

-- An entry of `field_updates`.
pub record Update : Type 0 where
  pub command : ℕ
  pub timestamp : ℕ
  pub payload_hex : Option (List ℕ)

-- A dict from field names to their last update, in insertion order.
abbrev pub Updates : Type 0
Updates = List (String × Update)

unfoldable pub insert_update : String → Update → Updates → Updates
insert_update field u [] = (field, u) ∷ []
insert_update field u ((key, old) ∷ updates) =
    if str_eq key field then (key, u) ∷ updates else (key, old) ∷ insert_update field u updates

-- The fields hold `null` until a packet supplies them; `cell_voltages` is a list of 16.
pub record MarstekData : Type 0 where
  pub out1_power : Value
  pub temp_low : Value
  pub temp_high : Value
  pub wifi_connected : Value
  pub mqtt_connected : Value
  pub out1_active : Value
  pub extern1_connected : Value
  pub grid_power : Value
  pub solar_power : Value
  pub work_mode : Value
  pub product_code : Value
  pub power_rating : Value
  pub daily_energy_charged : Value
  pub daily_energy_discharged : Value
  pub monthly_energy_charged : Value
  pub monthly_energy_discharged : Value
  pub total_energy_charged : Value
  pub total_energy_discharged : Value
  pub device_type : Value
  pub device_id : Value
  pub serial_number : Value
  pub mac_address : Value
  pub firmware_version : Value
  pub hardware_version : Value
  pub wifi_ssid : Value
  pub system_status : Value
  pub system_value_1 : Value
  pub system_value_2 : Value
  pub system_value_3 : Value
  pub system_value_4 : Value
  pub system_value_5 : Value
  pub adaptive_mode_enabled : Value
  pub smart_meter_connected : Value
  pub adaptive_power_out : Value
  pub battery_soc : Value
  pub battery_soh : Value
  pub design_capacity : Value
  pub battery_voltage : Value
  pub battery_current : Value
  pub battery_temp : Value
  pub bms_version : Value
  pub voltage_limit : Value
  pub charge_current_limit : Value
  pub discharge_current_limit : Value
  pub error_code : Value
  pub warning_code : Value
  pub runtime_hours : Value
  pub mosfet_temp : Value
  pub temp_sensor_1 : Value
  pub temp_sensor_2 : Value
  pub temp_sensor_3 : Value
  pub temp_sensor_4 : Value
  pub config_mode : Value
  pub config_status : Value
  pub config_value : Value
  pub meter_ip : Value
  pub ct_polling_rate : Value
  pub network_info : Value
  pub ip_address : Value
  pub gateway : Value
  pub subnet_mask : Value
  pub dns_server : Value
  pub local_api_status : Value
  pub cell_voltages : List (Option (ℤ × ℕ))
  pub field_updates : Updates

-- `MarstekData()`
abbrev pub new_data : MarstekData
new_data = record {
  out1_power = null;
  temp_low = null;
  temp_high = null;
  wifi_connected = null;
  mqtt_connected = null;
  out1_active = null;
  extern1_connected = null;
  grid_power = null;
  solar_power = null;
  work_mode = null;
  product_code = null;
  power_rating = null;
  daily_energy_charged = null;
  daily_energy_discharged = null;
  monthly_energy_charged = null;
  monthly_energy_discharged = null;
  total_energy_charged = null;
  total_energy_discharged = null;
  device_type = null;
  device_id = null;
  serial_number = null;
  mac_address = null;
  firmware_version = null;
  hardware_version = null;
  wifi_ssid = null;
  system_status = null;
  system_value_1 = null;
  system_value_2 = null;
  system_value_3 = null;
  system_value_4 = null;
  system_value_5 = null;
  adaptive_mode_enabled = null;
  smart_meter_connected = null;
  adaptive_power_out = null;
  battery_soc = null;
  battery_soh = null;
  design_capacity = null;
  battery_voltage = null;
  battery_current = null;
  battery_temp = null;
  bms_version = null;
  voltage_limit = null;
  charge_current_limit = null;
  discharge_current_limit = null;
  error_code = null;
  warning_code = null;
  runtime_hours = null;
  mosfet_temp = null;
  temp_sensor_1 = null;
  temp_sensor_2 = null;
  temp_sensor_3 = null;
  temp_sensor_4 = null;
  config_mode = null;
  config_status = null;
  config_value = null;
  meter_ip = null;
  ct_polling_rate = null;
  network_info = null;
  ip_address = null;
  gateway = null;
  subnet_mask = null;
  dns_server = null;
  local_api_status = null;
  cell_voltages = replicate 16 none;
  field_updates = [];
}

abbrev pub Parse : Type 0 → Type 0
Parse A = MarstekData → Result A × MarstekData

-- What comes after a statement with this outcome.
abbrev pub continue :
    {A B : Type 0} → Result A × MarstekData → (A → Parse B) → Result B × MarstekData
continue (ok a, d) f = f a d
continue (err e, d) f = (err e, d)

infixl 5 ◌>>=◌ ◌>>◌
abbrev pub ◌>>=◌ : {A B : Type 0} → Parse A → (A → Parse B) → Parse B
◌>>=◌ m f d = continue (m d) f

abbrev pub ◌>>◌ : {A B : Type 0} → Parse A → Parse B → Parse B
m >> k = m >>= λ _. k

abbrev pub pure : {A : Type 0} → A → Parse A
pure a d = (ok a, d)

abbrev pub lift : {A : Type 0} → Result A → Parse A
lift r d = (r, d)

-- `device_data.field = value`
abbrev pub assign : (MarstekData → MarstekData) → Parse (Unit {0})
assign f d = (ok tt, f d)

-- `try: ... except Exception: return False`
abbrev pub or_false : Result Bool × MarstekData → Result Bool × MarstekData
or_false (ok b, d) = (ok b, d)
or_false (err e, d) = (ok false, d)

abbrev pub try_or_false : Parse Bool → Parse Bool
try_or_false m d = or_false (m d)

-- `if test: body`
abbrev pub when : Bool → Parse (Unit {0}) → Parse (Unit {0})
when test body = if test then body else pure tt

abbrev pub head_of : List ℤ → Option ℤ
head_of [] = none
head_of (v ∷ _) = some v

abbrev pub first_of : Option (List ℤ) → Result ℤ
first_of none = err struct_error
first_of (some vs) = or_raise (head_of vs) index_error

-- `struct.unpack(format, payload[first:last])[0]`
unfoldable pub unpack_at : Format → Bytes → ℕ → ℕ → Parse ℤ
unfolding unpack
unpack_at f payload first last = lift (first_of (unpack f (slice payload first last)))

-- `payload[i]`
abbrev pub byte_at : Bytes → ℕ → Parse ℕ
byte_at payload i = lift (or_raise (get_elem? payload i) index_error)

-- `mark_field_update`, which `_track_field` calls.
unfoldable pub mark_field_update : String → ℕ → ℕ → Bytes → Parse (Unit {0})
unfolding insert_update
mark_field_update field command timestamp payload = assign λ d. record d {
  field_updates =
      insert_update field
        (record { command = command; timestamp = timestamp; payload_hex = hex_or_none payload })
        d.field_updates;
}

-- `for field in (...): _track_field(device_data, field, command, timestamp, payload)`
unfoldable pub track_all : List String → ℕ → ℕ → Bytes → Parse (Unit {0})
unfolding mark_field_update
track_all [] command timestamp payload = pure tt
track_all (field ∷ fields) command timestamp payload =
    mark_field_update field command timestamp payload >> track_all fields command timestamp payload
