-- ===== src/Jupiter/Accepts.antt =====
-- The notifications that a Jupiter product of
-- custom_components/marstek_ble/products/jupiter_runtime.py accepts.
use ha_marstek_ble.Prelude.{ℕ, String, ◌≡◌, refl, ◌↔◌, true, Option, none, some, List, [], ◌∷◌, All}
use ha_marstek_ble.Struct.{Bytes}
use ha_marstek_ble.Text.{Text, split}
use ha_marstek_ble.Text.Decoding.{decode_ascii_strict, decode_utf8}
use ha_marstek_ble.Converter.{Value}
use ha_marstek_ble.Schema.Tree.{Fields}
use ha_marstek_ble.Schema.Total.{IsReady}
use ha_marstek_ble.Schema.Ready.{set_in-IsReady}
use ha_marstek_ble.ProductRuntime.{
  PayloadParser, parser_of, packet_of, create_data, parse_notification, receive,
}
use ha_marstek_ble.ProductRuntime.Ready.{KeepsReady, receive-IsReady}
use ha_marstek_ble.ProductRuntime.Accepts.{IsComplete, IsExpected, Reports, accepted_iff_IsExpected}
use ha_marstek_ble.Jupiter.Ready.{jupiter_data-IsReady}
use ha_marstek_ble.Jupiter.Runtime.{
  TextDict, Updating, store, store_items, read_items, identity_fields, version_fields, as_text,
  as_int, parse_text, parse_ssid, parse_device_information, parse_wifi_ssid, jupiter_runtime,
  jupiter_profile, jupiter_parsers,
}

store-IsReady :
    (name attribute : String) (value : Option Value) (s : Updating)
    → IsReady s.0
    → IsReady (store name attribute value s).0
store-IsReady name attribute none s h = h
store-IsReady name attribute (some value) (fs, updates) h = set_in-IsReady name attribute value fs h

store_items-IsReady :
    (name : String) (read : Option Text → Option Value) (table : List (Text × String))
    (values : TextDict) (s : Updating)
    → IsReady s.0
    → IsReady (store_items name read table values s).0
unfolding store_items
store_items-IsReady name read [] values s h = h
store_items-IsReady name read ((key, attribute) ∷ rest) values s h =
    store_items-IsReady name read rest values _ (store-IsReady name attribute _ s h)

text-IsReady : (t : Option Text) (fs : Fields) → IsReady fs → IsReady (parse_text t fs).1
text-IsReady none fs h = h
text-IsReady (some t) fs h =
    let values = read_items (split b',' t) [] in
    store_items-IsReady "runtime" as_int version_fields values
      (store_items "identity" as_text identity_fields values (fs, []))
      (store_items-IsReady "identity" as_text identity_fields values (fs, []) h)

ssid-IsReady : (t : Option Text) (fs : Fields) → IsReady fs → IsReady (parse_ssid t fs).1
ssid-IsReady none fs h = h
ssid-IsReady (some t) fs h = set_in-IsReady "identity" "wifi_ssid" _ fs h

pub jupiter_parsers-KeepsReady : All (λ (p : ℕ × PayloadParser). KeepsReady p.1) jupiter_parsers
unfolding jupiter_parsers parse_device_information parse_wifi_ssid
jupiter_parsers-KeepsReady = (
  λ payload fs h. text-IsReady (decode_ascii_strict payload) fs h,
  (λ payload fs h. ssid-IsReady (decode_utf8 payload) fs h, tt),
)

text-Reports : (t : Option Text) (fs : Fields) → Reports (parse_text t fs)
text-Reports none fs = ([], refl)
text-Reports (some t) fs = (_, refl)

ssid-Reports : (t : Option Text) (fs : Fields) → Reports (parse_ssid t fs)
ssid-Reports none fs = ([], refl)
ssid-Reports (some t) fs = (_, refl)

pub jupiter_runtime-IsComplete : IsComplete jupiter_runtime
unfolding jupiter_runtime jupiter_profile jupiter_parsers parser_of packet_of
    parse_device_information parse_wifi_ssid
jupiter_runtime-IsComplete = record {
  answers = (
    tt,
    (
      λ payload fs v. text-Reports (decode_ascii_strict payload) fs,
      (
        λ payload fs v. ssid-Reports (decode_utf8 payload) fs,
        (tt, (tt, (tt, (tt, (tt, (tt, tt)))))),
      ),
    ),
  );
  known = ((_, refl), ((_, refl), tt));
}

received-IsReady :
    (history : List (Bytes × ℕ))
    → IsReady (receive jupiter_runtime history (create_data jupiter_runtime)).fields
unfolding jupiter_runtime jupiter_profile
received-IsReady history =
    receive-IsReady jupiter_runtime history (create_data jupiter_runtime) jupiter_parsers-KeepsReady
      jupiter_data-IsReady

-- After any history of notifications on new data, a Jupiter product accepts the frames that hold a
-- payload of a length that the packet of their command allows, whatever its bytes, and nothing
-- else.
pub jupiter_accepted_iff_IsExpected :
    (history : List (Bytes × ℕ)) (frame : Bytes) (timestamp : ℕ)
    → ((parse_notification jupiter_runtime frame timestamp
          (receive jupiter_runtime history (create_data jupiter_runtime))).0
        ≡ true)
      ↔ IsExpected jupiter_runtime frame
jupiter_accepted_iff_IsExpected history frame timestamp =
    accepted_iff_IsExpected jupiter_runtime frame timestamp
      (receive jupiter_runtime history (create_data jupiter_runtime)) jupiter_runtime-IsComplete
      (received-IsReady history)
