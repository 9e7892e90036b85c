-- ===== src/Venus/Atomic.antt =====
-- What the parsers of custom_components/marstek_ble/products/venus_runtime.py have written where
-- they raise.
use ha_marstek_ble.Prelude.{ℕ, ◌≡◌, refl, false, All}
use ha_marstek_ble.Struct.{Bytes}
use ha_marstek_ble.Text.{Text}
use ha_marstek_ble.Result.{Result, ok, err}
use ha_marstek_ble.Schema.Tree.{Fields}
use ha_marstek_ble.ProductRuntime.{PayloadParser, ProductData, parse_notification}
use ha_marstek_ble.ProductRuntime.Safety.{IsKept, IsAtomic, rejected_unchanged}
use ha_marstek_ble.Venus.Runtime.{
  venus_runtime, venus_parsers, parse_device_information, parse_wifi_ssid, parse_meter_ip,
  parse_network_information, parse_local_api_status, api_status,
}

api_status_atomic : (r : Result Text) (fs : Fields) → IsKept fs (api_status r fs)
api_status_atomic (ok status) fs = tt
api_status_atomic (err e) fs = refl

local_api_status-IsAtomic : IsAtomic parse_local_api_status
unfolding parse_local_api_status
local_api_status-IsAtomic payload fs = api_status_atomic _ fs

device_information-IsAtomic : IsAtomic parse_device_information
unfolding parse_device_information
device_information-IsAtomic payload fs = tt

wifi_ssid-IsAtomic : IsAtomic parse_wifi_ssid
unfolding parse_wifi_ssid
wifi_ssid-IsAtomic payload fs = tt

meter_ip-IsAtomic : IsAtomic parse_meter_ip
unfolding parse_meter_ip
meter_ip-IsAtomic payload fs = tt

network_information-IsAtomic : IsAtomic parse_network_information
unfolding parse_network_information
network_information-IsAtomic payload fs = tt

pub venus_parsers-IsAtomic : All (λ (p : ℕ × PayloadParser). IsAtomic p.1) venus_parsers
unfolding venus_parsers
venus_parsers-IsAtomic = (
  device_information-IsAtomic,
  (
    wifi_ssid-IsAtomic,
    (meter_ip-IsAtomic, (network_information-IsAtomic, (local_api_status-IsAtomic, tt))),
  ),
)

-- A notification that a Venus product does not accept, for its frame, its command or its payload,
-- leaves the values and the metadata of the product's data as they were.
pub venus_rejected_unchanged :
    (frame : Bytes) (timestamp : ℕ) (d : ProductData)
    → (parse_notification venus_runtime frame timestamp d).0 ≡ false
    → (parse_notification venus_runtime frame timestamp d).1 ≡ d
unfolding venus_runtime
venus_rejected_unchanged frame timestamp d =
    rejected_unchanged venus_runtime frame timestamp d venus_parsers-IsAtomic
