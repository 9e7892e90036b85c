-- ===== src/Venus/Accepts.antt =====
-- The notifications that a Venus product of custom_components/marstek_ble/products/venus_runtime.py
-- accepts.
use ha_marstek_ble.Prelude.{
  ℕ, String, ◌≡◌, refl, ◌↔◌, true, Option, none, some, List, [], ◌∷◌, All, fits,
}
use ha_marstek_ble.Struct.{Bytes, unpack_from, read_items}
use ha_marstek_ble.Result.{Result, ok, err}
use ha_marstek_ble.Text.{Text, split_once, split, strip, decode_ascii}
use ha_marstek_ble.Converter.{Value, text}
use ha_marstek_ble.Schema.{validate_payload}
use ha_marstek_ble.Schema.Tree.{Fields}
use ha_marstek_ble.Schema.Total.{IsReady}
use ha_marstek_ble.Schema.Attributes.{set_in}
use ha_marstek_ble.Schema.Ready.{set_in-IsReady}
use ha_marstek_ble.Marstek.{new_data}
use ha_marstek_ble.ProductRuntime.{
  PayloadParser, parser_of, packet_of, create_data, parse_notification, receive,
}
use ha_marstek_ble.ProductRuntime.Ready.{KeepsReady, receive-IsReady}
use ha_marstek_ble.ProductRuntime.Accepts.{IsComplete, IsExpected, Reports, accepted_iff_IsExpected}
use ha_marstek_ble.Venus.{local_api_status}
use ha_marstek_ble.Venus.Ready.{venus_data-IsReady}
use ha_marstek_ble.Venus.Runtime.{
  Section, device_attribute, network_attribute, store, store_pair, store_pairs, venus_runtime,
  venus_profile, venus_parsers, api_status, parse_device_information, parse_wifi_ssid,
  parse_meter_ip, parse_network_information, parse_local_api_status,
}

store-IsReady :
    (name : String) (attribute : Option String) (value : Value) (s : Section)
    → IsReady s.0
    → IsReady (store name attribute value s).0
store-IsReady name none value s h = h
store-IsReady name (some attribute) value (fs, updates) h = set_in-IsReady name attribute value fs h

store_pair-IsReady :
    (name : String) (mapping : Text → Option String) (pair : Option (Text × Text)) (s : Section)
    → IsReady s.0
    → IsReady (store_pair name mapping pair s).0
store_pair-IsReady name mapping none s h = h
store_pair-IsReady name mapping (some (key, value)) s h = store-IsReady name _ _ s h

store_pairs-IsReady :
    (name : String) (mapping : Text → Option String) (separator : ℕ) (pairs : List Text)
    (s : Section)
    → IsReady s.0
    → IsReady (store_pairs name mapping separator pairs s).0
unfolding store_pairs
store_pairs-IsReady name mapping separator [] s h = h
store_pairs-IsReady name mapping separator (pair ∷ pairs) s h =
    store_pairs-IsReady name mapping separator pairs _
      (store_pair-IsReady name mapping (split_once separator pair) s h)

api_status-IsReady : (r : Result Text) (fs : Fields) → IsReady fs → IsReady (api_status r fs).1
api_status-IsReady (ok status) fs h = set_in-IsReady "network" "local_api_status" _ fs h
api_status-IsReady (err e) fs h = h

device_information-KeepsReady : KeepsReady parse_device_information
unfolding parse_device_information
device_information-KeepsReady payload fs h =
    store_pairs-IsReady "device" device_attribute b'=' (split b',' (decode_ascii payload)) (fs, [])
      h

network_information-KeepsReady : KeepsReady parse_network_information
unfolding parse_network_information
network_information-KeepsReady payload fs h =
    let network = strip (decode_ascii payload) in
    store_pairs-IsReady "network" network_attribute b':' (split b',' network)
      (set_in "network" "network_info" (text network) fs, "network_info" ∷ [])
      (set_in-IsReady "network" "network_info" (text network) fs h)

pub venus_parsers-KeepsReady : All (λ (p : ℕ × PayloadParser). KeepsReady p.1) venus_parsers
unfolding venus_parsers parse_wifi_ssid parse_meter_ip parse_local_api_status
venus_parsers-KeepsReady = (
  device_information-KeepsReady,
  (
    λ payload fs h. set_in-IsReady "network" "wifi_ssid" _ fs h,
    (
      λ payload fs h. set_in-IsReady "network" "meter_ip" _ fs h,
      (network_information-KeepsReady, (λ payload fs h. api_status-IsReady _ fs h, tt)),
    ),
  ),
)

-- Three bytes are enough for the flag and the port.
local_api_status-Reports :
    (payload : Bytes) (fs : Fields)
    → validate_payload local_api_status payload ≡ ok tt
    → Reports (parse_local_api_status payload fs)
unfolding parse_local_api_status validate_payload unpack_from read_items fits
local_api_status-Reports [] fs v = absurd cc
local_api_status-Reports (a ∷ []) fs v = absurd cc
local_api_status-Reports (a ∷ b ∷ []) fs v = absurd cc
local_api_status-Reports (a ∷ b ∷ c ∷ payload) fs v = (_, refl)

pub venus_runtime-IsComplete : IsComplete venus_runtime
unfolding venus_runtime venus_profile venus_parsers parser_of packet_of parse_device_information
    parse_wifi_ssid parse_meter_ip parse_network_information
venus_runtime-IsComplete = record {
  answers = (
    tt,
    (
      λ payload fs v. (_, refl),
      (
        λ payload fs v. (_, refl),
        (
          tt,
          (
            tt,
            (
              tt,
              (
                tt,
                (
                  λ payload fs v. (_, refl),
                  (tt, (λ payload fs v. (_, refl), (local_api_status-Reports, tt))),
                ),
              ),
            ),
          ),
        ),
      ),
    ),
  );
  known = ((_, refl), ((_, refl), ((_, refl), ((_, refl), ((_, refl), tt)))));
}

received-IsReady :
    (history : List (Bytes × ℕ))
    → IsReady (receive venus_runtime history (create_data venus_runtime)).fields
unfolding venus_runtime venus_profile
received-IsReady history =
    receive-IsReady venus_runtime history (create_data venus_runtime) venus_parsers-KeepsReady
      (venus_data-IsReady new_data)

-- After any history of notifications on new data, a Venus product accepts the frames that hold a payload of a
-- length that the packet of their command allows, whatever its bytes, and nothing else.
pub venus_accepted_iff_IsExpected :
    (history : List (Bytes × ℕ)) (frame : Bytes) (timestamp : ℕ)
    → ((parse_notification venus_runtime frame timestamp
          (receive venus_runtime history (create_data venus_runtime))).0
        ≡ true)
      ↔ IsExpected venus_runtime frame
venus_accepted_iff_IsExpected history frame timestamp =
    accepted_iff_IsExpected venus_runtime frame timestamp
      (receive venus_runtime history (create_data venus_runtime)) venus_runtime-IsComplete
      (received-IsReady history)
