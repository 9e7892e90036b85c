-- ===== src/Jupiter/Atomic.antt =====
-- What the parsers of custom_components/marstek_ble/products/jupiter_runtime.py have written where
-- they report nothing.
use ha_marstek_ble.Prelude.{ℕ, ◌≡◌, false, Option, none, some, All}
use ha_marstek_ble.Struct.{Bytes}
use ha_marstek_ble.Text.{Text}
use ha_marstek_ble.Text.Decoding.{decode_ascii_strict, decode_utf8}
use ha_marstek_ble.Schema.Tree.{Fields}
use ha_marstek_ble.ProductRuntime.{PayloadParser, ProductData, parse_notification}
use ha_marstek_ble.ProductRuntime.Safety.{IsKept, IsAtomic, rejected_unchanged}
use ha_marstek_ble.Jupiter.Runtime.{
  jupiter_runtime, jupiter_parsers, parse_device_information, parse_wifi_ssid, parse_text,
  parse_ssid,
}

text_atomic : (t : Option Text) (fs : Fields) → IsKept fs (parse_text t fs)
text_atomic none fs = tt
text_atomic (some t) fs = tt

ssid_atomic : (t : Option Text) (fs : Fields) → IsKept fs (parse_ssid t fs)
ssid_atomic none fs = tt
ssid_atomic (some t) fs = tt

device_information-IsAtomic : IsAtomic parse_device_information
unfolding parse_device_information
device_information-IsAtomic payload fs = text_atomic (decode_ascii_strict payload) fs

wifi_ssid-IsAtomic : IsAtomic parse_wifi_ssid
unfolding parse_wifi_ssid
wifi_ssid-IsAtomic payload fs = ssid_atomic (decode_utf8 payload) fs

pub jupiter_parsers-IsAtomic : All (λ (p : ℕ × PayloadParser). IsAtomic p.1) jupiter_parsers
unfolding jupiter_parsers
jupiter_parsers-IsAtomic = (device_information-IsAtomic, (wifi_ssid-IsAtomic, tt))

-- A notification that a Jupiter product does not accept, for its frame, its command or its payload,
-- leaves the values and the metadata of the product's data as they were.
pub jupiter_rejected_unchanged :
    (frame : Bytes) (timestamp : ℕ) (d : ProductData)
    → (parse_notification jupiter_runtime frame timestamp d).0 ≡ false
    → (parse_notification jupiter_runtime frame timestamp d).1 ≡ d
unfolding jupiter_runtime
jupiter_rejected_unchanged frame timestamp d =
    rejected_unchanged jupiter_runtime frame timestamp d jupiter_parsers-IsAtomic
