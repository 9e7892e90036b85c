-- ===== src/Venus/Runtime.antt =====
-- custom_components/marstek_ble/products/venus_runtime.py: the text parsers of Venus products and
-- their polling schedules, with `VENUS_PROFILE` of venus.py.
use package.text.Mathlib.Text.{◌==◌ as str_eq}
use ha_marstek_ble.Prelude.{
  ℕ, String, Bool, false, ◌&&◌, ◌||◌, Option, none, some, List, [], ◌∷◌, ◌++◌, get_elem?,
  if◌then◌else◌, pos_part,
}
use ha_marstek_ble.Struct.{Bytes, codes, unpack_from}
use ha_marstek_ble.Result.{index_error, Result, ok, err, ◌>>=◌, or_raise}
use ha_marstek_ble.Text.{Text, decode_ascii, strip, strip_nul, split, split_once, text_eq, decimal}
use ha_marstek_ble.Converter.{Value, text}
use ha_marstek_ble.Schema.Tree.{Fields, PathElement, DataPath}
use ha_marstek_ble.Schema.Attributes.{set_in}
use ha_marstek_ble.Marstek.{new_data, first_of}
use ha_marstek_ble.Marstek.Numeric.{u16, cell_names}
use ha_marstek_ble.Marstek.Texts.{meter_text, api_text}
use ha_marstek_ble.ProductRuntime.{
  PollCommand, Parsed, PayloadParser, ProductProfile, ProductRuntime, last_alias,
}
use ha_marstek_ble.Venus.{
  venus_data, runtime_information, device_information, wifi_ssid, system_data, timer_information,
  bms_data, configuration_data, meter_ip, ct_polling_rate, network_information, local_api_status,
}

abbrev pub path_in : String → String → DataPath
path_in name attribute = PathElement.name name ∷ PathElement.name attribute ∷ []

-- `mapping.get(key)` of the device information.
unfoldable pub device_attribute : Text → Option String
unfolding text_eq
device_attribute key =
    if text_eq key (codes "type")
    then some "device_type"
    else if text_eq key (codes "id")
    then some "device_id"
    else if text_eq key (codes "sn")
    then some "serial_number"
    else if text_eq key (codes "mac")
    then some "mac_address"
    else if text_eq key (codes "hw")
    then some "hardware_version"
    else if text_eq key (codes "dev_ver")
    then some "firmware_version"
    else if text_eq key (codes "fc_ver")
    then some "firmware_version"
    else if text_eq key (codes "fw")
    then some "firmware_version"
    else none

-- `mapping.get(key)` of the network information.
unfoldable pub network_attribute : Text → Option String
unfolding text_eq
network_attribute key =
    if text_eq key (codes "ip")
    then some "ip_address"
    else if text_eq key (codes "gate")
    then some "gateway"
    else if text_eq key (codes "gateway")
    then some "gateway"
    else if text_eq key (codes "mask")
    then some "subnet_mask"
    else if text_eq key (codes "dns")
    then some "dns_server"
    else none

abbrev is_update : String → List String → Bool
is_update attribute [] = false
is_update attribute (a ∷ updates) = str_eq a attribute || is_update attribute updates

-- `if path not in updates: updates.append(path)`, on the attributes of one section.
abbrev add_update : String → List String → List String
add_update attribute updates =
    if is_update attribute updates then updates else updates ++ attribute ∷ []

abbrev pub Section : Type 0
Section = Fields × List String

abbrev pub store : String → Option String → Value → Section → Section
store name none value s = s
store name (some attribute) value (fs, updates) =
    (set_in name attribute value fs, add_update attribute updates)

abbrev pub store_pair : String → (Text → Option String) → Option (Text × Text) → Section → Section
store_pair name mapping none s = s
store_pair name mapping (some (key, value)) s =
    store name (mapping (strip key)) (text (strip value)) s

-- The loop over the pairs of `_parse_device_information` and `_parse_network_information`.
unfoldable pub store_pairs : String → (Text → Option String) → ℕ → List Text → Section → Section
unfolding split_once strip set_in
store_pairs name mapping separator [] s = s
store_pairs name mapping separator (pair ∷ pairs) s =
    store_pairs name mapping separator pairs (store_pair name mapping (split_once separator pair) s)

abbrev paths_in : String → List String → List DataPath
paths_in name [] = []
paths_in name (a ∷ attributes) = path_in name a ∷ paths_in name attributes

abbrev updated : String → Section → Parsed
updated name (fs, attributes) = (ok (some (paths_in name attributes)), fs)

-- `_parse_device_information`
unfoldable pub parse_device_information : PayloadParser
unfolding store_pairs device_attribute decode_ascii split
parse_device_information payload fs =
    updated "device"
      (store_pairs "device" device_attribute b'=' (split b',' (decode_ascii payload)) (fs, []))

-- `_parse_wifi_ssid`
unfoldable pub parse_wifi_ssid : PayloadParser
unfolding set_in decode_ascii strip
parse_wifi_ssid payload fs = (
  ok (some (path_in "network" "wifi_ssid" ∷ [])),
  set_in "network" "wifi_ssid" (text (strip (decode_ascii payload))) fs,
)

-- `_parse_meter_ip`
unfoldable pub parse_meter_ip : PayloadParser
unfolding set_in decode_ascii strip_nul
parse_meter_ip payload fs = (
  ok (some (path_in "network" "meter_ip" ∷ [])),
  set_in "network" "meter_ip" (text (meter_text payload)) fs,
)

-- `_parse_network_information`
unfoldable pub parse_network_information : PayloadParser
unfolding store_pairs network_attribute decode_ascii strip split set_in
parse_network_information payload fs =
    let network = strip (decode_ascii payload) in
    updated "network" (
      store_pairs "network" network_attribute b':' (split b',' network)
        (set_in "network" "network_info" (text network) fs, "network_info" ∷ []))

abbrev pub api_status : Result Text → Fields → Parsed
api_status (err e) fs = (err e, fs)
api_status (ok status) fs = (
  ok (some (path_in "network" "local_api_status" ∷ [])),
  set_in "network" "local_api_status" (text status) fs,
)

-- `_parse_local_api_status`
unfoldable pub parse_local_api_status : PayloadParser
unfolding set_in unpack_from decimal
parse_local_api_status payload fs =
    api_status
      (do
        flag ← or_raise (get_elem? payload 0) index_error
        port ← first_of (unpack_from u16 payload 1)
        ok (api_text flag (pos_part port)))
      fs

abbrev is_path : DataPath → String → String → Bool
is_path (PathElement.name a ∷ PathElement.name b ∷ []) n m = str_eq a n && str_eq b m
is_path _ n m = false

-- `VenusData._metadata_aliases`
unfoldable pub venus_aliases : DataPath → List String
unfolding last_alias
venus_aliases path =
    last_alias path ++ (if is_path path "battery" "cell_voltages" then cell_names else [])

-- `VENUS_PROFILE`
unfoldable pub venus_profile : ProductProfile
unfolding venus_data venus_aliases
venus_profile = record {
  product_id = "venus";
  new_fields = venus_data new_data;
  aliases = venus_aliases;
  packets =
      runtime_information ∷ device_information ∷ wifi_ssid ∷ system_data ∷ timer_information
      ∷ bms_data ∷ configuration_data ∷ meter_ip ∷ ct_polling_rate ∷ network_information
      ∷ local_api_status ∷ [];
  supported_commands =
      0x03 ∷ 0x08 ∷ 0x0D ∷ 0x13 ∷ 0x14 ∷ 0x1A ∷ 0x1C ∷ 0x21 ∷ 0x22 ∷ 0x24 ∷ 0x28 ∷ [];
  discovery_prefixes = "MST_ACCP_" ∷ "MST_VNSE3_" ∷ [];
}

abbrev poll : ℕ → Bytes → ℕ → PollCommand
poll command payload delay = record { command = command; payload = payload; delay = delay }

abbrev pub venus_fast_poll : List PollCommand
venus_fast_poll = poll 0x03 [] 100 ∷ poll 0x14 [] 100 ∷ []

abbrev pub venus_medium_poll : List PollCommand
venus_medium_poll =
    poll 0x0D [] 300
    ∷ poll 0x08 [] 300
    ∷ poll 0x1A [] 300
    ∷ poll 0x22 [] 300
    ∷ poll 0x21 (0x0B ∷ []) 300
    ∷ poll 0x24 [] 300
    ∷ poll 0x04 [] 300
    ∷ poll 0x13 [] 300
    ∷ poll 0x28 [] 300
    ∷ poll 0x1C [] 300
    ∷ []

unfoldable pub venus_parsers : List (ℕ × PayloadParser)
unfolding parse_device_information parse_wifi_ssid parse_meter_ip parse_network_information
    parse_local_api_status
venus_parsers =
    (0x04, parse_device_information)
    ∷ (0x08, parse_wifi_ssid)
    ∷ (0x21, parse_meter_ip)
    ∷ (0x24, parse_network_information)
    ∷ (0x28, parse_local_api_status)
    ∷ []

-- `VENUS_RUNTIME`
unfoldable pub venus_runtime : ProductRuntime
unfolding venus_profile venus_parsers
venus_runtime = record {
  profile = venus_profile;
  fast_poll = venus_fast_poll;
  medium_poll = venus_medium_poll;
  payload_parsers = venus_parsers;
}
