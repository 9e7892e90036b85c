-- ===== src/Jupiter/Runtime.antt =====
-- custom_components/marstek_ble/products/jupiter_runtime.py: the text parsers of Jupiter products,
-- their metadata aliases and their polling schedules, with `JUPITER_PROFILE` of jupiter.py.
use package.text.Mathlib.Text.{◌==◌ as str_eq}
use ha_marstek_ble.Prelude.{
  ℕ, String, Bool, false, ◌&&◌, ◌||◌, Option, none, some, List, [], ◌∷◌, ◌++◌, ◌==◌, if◌then◌else◌,
  ℤ,
}
use ha_marstek_ble.Struct.{codes}
use ha_marstek_ble.Result.{ok}
use ha_marstek_ble.Text.{Text, strip, split, split_once, text_eq, right_strip}
use ha_marstek_ble.Text.Decoding.{decode_ascii_strict, decode_utf8}
use ha_marstek_ble.Text.Numerals.{parse_int}
use ha_marstek_ble.Converter.{Value, text, int}
use ha_marstek_ble.Schema.Tree.{Fields, PathElement, DataPath}
use ha_marstek_ble.Schema.Attributes.{set_in}
use ha_marstek_ble.ProductRuntime.{
  PollCommand, Parsed, PayloadParser, ProductProfile, ProductRuntime, last_alias, unique,
}
use ha_marstek_ble.Jupiter.{
  runtime_information, device_information, wifi_ssid, unresolved_status, event_history,
  detailed_telemetry, raw_status_21, raw_status_22, raw_status_24,
}
use ha_marstek_ble.Jupiter.Tables.{jupiter_data}

abbrev pub path_in : String → String → DataPath
path_in section attribute = PathElement.name section ∷ PathElement.name attribute ∷ []

-- `_FLAT_PATHS`: the name, the section and the attribute.
abbrev flat_paths : List (String × String × String)
flat_paths =
    ("battery_voltage", "battery", "voltage")
    ∷ ("battery_current", "battery", "current")
    ∷ ("battery_soc", "runtime", "battery_soc")
    ∷ ("battery_soh", "battery", "soh")
    ∷ ("battery_temp", "battery", "temperature")
    ∷ ("design_capacity", "battery", "rated_capacity")
    ∷ ("grid_power", "runtime", "ac_output_power")
    ∷ ("out1_power", "runtime", "ac_output_power")
    ∷ ("daily_energy_discharged", "energy", "daily_output_energy")
    ∷ ("monthly_energy_discharged", "energy", "monthly_output_energy")
    ∷ ("total_energy_discharged", "energy", "local_total_output_energy")
    ∷ ("mosfet_temp", "battery", "mosfet_temperature")
    ∷ ("temp_sensor_1", "battery", "temp_sensor_1")
    ∷ ("temp_sensor_2", "battery", "temp_sensor_2")
    ∷ ("temp_sensor_3", "battery", "temp_sensor_3")
    ∷ ("temp_sensor_4", "battery", "temp_sensor_4")
    ∷ ("bms_version", "runtime", "bms_firmware_version")
    ∷ ("voltage_limit", "battery", "charge_voltage_limit")
    ∷ ("charge_current_limit", "battery", "charge_current_limit")
    ∷ ("discharge_current_limit", "battery", "discharge_current_limit")
    ∷ ("error_code", "battery", "error_code_1")
    ∷ ("warning_code", "battery", "warning_code_1")
    ∷ ("device_type", "identity", "device_type")
    ∷ ("device_id", "identity", "device_id")
    ∷ ("mac_address", "identity", "mac_address")
    ∷ ("wifi_ssid", "identity", "wifi_ssid")
    ∷ ("out1_active", "runtime", "ac_output_active")
    ∷ []

abbrev is_path : DataPath → String → String → Bool
is_path (PathElement.name a ∷ PathElement.name b ∷ []) section attribute =
    str_eq a section && str_eq b attribute
is_path _ section attribute = false

-- The names whose flat path this is.
flat_names : List (String × String × String) → DataPath → List String
flat_names [] path = []
flat_names ((name, section, attribute) ∷ rest) path =
    let names = flat_names rest path in
    if is_path path section attribute then name ∷ names else names

abbrev is_name : PathElement → String → Bool
is_name (PathElement.name a) name = str_eq a name
is_name (PathElement.index i) name = false

ends_in : DataPath → String → Bool
ends_in [] name = false
ends_in (p ∷ []) name = is_name p name
ends_in (p ∷ q ∷ path) name = ends_in (q ∷ path) name

abbrev starts_in : DataPath → String → Bool
starts_in [] name = false
starts_in (p ∷ path) name = is_name p name

-- `RuntimeJupiterData._metadata_aliases`
unfoldable pub jupiter_aliases : DataPath → List String
unfolding last_alias flat_names ends_in unique
jupiter_aliases path = unique [] (
    last_alias path
    ++ (flat_names flat_paths path
        ++ ((if starts_in path "pv_inputs" && ends_in path "power" then "solar_power" ∷ [] else [])
            ++ (if is_path path "runtime" "battery_soc" || is_path path "battery" "rated_capacity"
                then "remaining_capacity" ∷ "available_capacity" ∷ []
                else []))))

-- The dict `values`: an assignment to a known key keeps its place.
abbrev pub TextDict : Type 0
TextDict = List (Text × Text)

unfoldable pub set_item : Text → Text → TextDict → TextDict
unfolding text_eq
set_item key value [] = (key, value) ∷ []
set_item key value ((k, old) ∷ rest) =
    let more = set_item key value rest in
    if text_eq k key then (k, value) ∷ rest else (k, old) ∷ more

unfoldable pub get_item : Text → TextDict → Option Text
unfolding text_eq
get_item key [] = none
get_item key ((k, value) ∷ rest) = if text_eq k key then some value else get_item key rest

abbrev pub set_pair_item : Option (Text × Text) → TextDict → TextDict
set_pair_item none values = values
set_pair_item (some (key, value)) values = set_item (strip key) (strip value) values

-- The loop over `text.split(",")`.
unfoldable pub read_items : List Text → TextDict → TextDict
unfolding set_item split_once strip
read_items [] values = values
read_items (entry ∷ entries) values =
    read_items entries (set_pair_item (split_once b'=' entry) values)

-- The instance and the paths updated so far.
abbrev pub Updating : Type 0
Updating = Fields × List DataPath

abbrev pub store : String → String → Option Value → Updating → Updating
store section attribute none s = s
store section attribute (some value) (fs, updates) =
    (set_in section attribute value fs, updates ++ path_in section attribute ∷ [])

abbrev pub as_text : Option Text → Option Value
as_text none = none
as_text (some t) = some (text t)

abbrev int_of : Option ℤ → Option Value
int_of none = none
int_of (some z) = some (int z)

-- A value that is no number is passed over.
abbrev pub as_int : Option Text → Option Value
as_int none = none
as_int (some t) = int_of (parse_int t)

abbrev pub identity_fields : List (Text × String)
identity_fields =
    (codes "type", "device_type") ∷ (codes "id", "device_id") ∷ (codes "mac", "mac_address") ∷ []

abbrev pub version_fields : List (Text × String)
version_fields =
    (codes "ems_v", "ems_firmware_version")
    ∷ (codes "inv_v", "inverter_firmware_version")
    ∷ (codes "mppt_v", "mppt_firmware_version")
    ∷ (codes "bms_v", "bms_firmware_version")
    ∷ []

-- The two loops over the fields, whose values `read` makes of texts.
unfoldable pub store_items :
    String → (Option Text → Option Value) → List (Text × String) → TextDict → Updating → Updating
unfolding get_item set_in
store_items section read [] values s = s
store_items section read ((key, attribute) ∷ rest) values s =
    store_items section read rest values (store section attribute (read (get_item key values)) s)

abbrev pub reported : Updating → Parsed
reported (fs, updates) = (ok (some updates), fs)

abbrev pub parse_text : Option Text → Fields → Parsed
parse_text none fs = (ok (some []), fs)
parse_text (some t) fs =
    let values = read_items (split b',' t) [] in
    reported (
      store_items "runtime" as_int version_fields values
        (store_items "identity" as_text identity_fields values (fs, [])))

-- `_parse_device_information`
unfoldable pub parse_device_information : PayloadParser
unfolding decode_ascii_strict read_items store_items split parse_int
parse_device_information payload fs = parse_text (decode_ascii_strict payload) fs

abbrev strip_end : Text → Text
strip_end = right_strip λ c. c == 0

abbrev pub parse_ssid : Option Text → Fields → Parsed
parse_ssid none fs = (ok (some []), fs)
parse_ssid (some ssid) fs = (
  ok (some (path_in "identity" "wifi_ssid" ∷ [])),
  set_in "identity" "wifi_ssid" (text (strip_end ssid)) fs,
)

-- `_parse_wifi_ssid`
unfoldable pub parse_wifi_ssid : PayloadParser
unfolding decode_utf8 right_strip set_in
parse_wifi_ssid payload fs = parse_ssid (decode_utf8 payload) fs

-- `JUPITER_RUNTIME_PROFILE`: `JUPITER_PROFILE` with the tracking data.
unfoldable pub jupiter_profile : ProductProfile
unfolding jupiter_data jupiter_aliases
jupiter_profile = record {
  product_id = "jupiter_c_plus";
  new_fields = jupiter_data;
  aliases = jupiter_aliases;
  packets =
      runtime_information ∷ device_information ∷ wifi_ssid ∷ unresolved_status ∷ event_history
      ∷ detailed_telemetry ∷ raw_status_21 ∷ raw_status_22 ∷ raw_status_24 ∷ [];
  supported_commands = 0x03 ∷ 0x08 ∷ 0x0D ∷ 0x13 ∷ 0x14 ∷ [];
  discovery_prefixes = "MST_JPLS_" ∷ [];
}

abbrev poll : ℕ → ℕ → PollCommand
poll command delay = record { command = command; payload = []; delay = delay }

abbrev pub jupiter_fast_poll : List PollCommand
jupiter_fast_poll = poll 0x03 100 ∷ poll 0x14 100 ∷ []

abbrev pub jupiter_medium_poll : List PollCommand
jupiter_medium_poll = poll 0x0D 300 ∷ poll 0x08 300 ∷ poll 0x04 300 ∷ poll 0x13 300 ∷ []

unfoldable pub jupiter_parsers : List (ℕ × PayloadParser)
unfolding parse_device_information parse_wifi_ssid
jupiter_parsers = (0x04, parse_device_information) ∷ (0x08, parse_wifi_ssid) ∷ []

-- `JUPITER_RUNTIME`
unfoldable pub jupiter_runtime : ProductRuntime
unfolding jupiter_profile jupiter_parsers
jupiter_runtime = record {
  profile = jupiter_profile;
  fast_poll = jupiter_fast_poll;
  medium_poll = jupiter_medium_poll;
  payload_parsers = jupiter_parsers;
}
