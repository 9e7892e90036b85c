-- ===== src/Marstek/KeptTexts.antt =====
-- The cell voltages of `MarstekData` under the text parsers and `parse_notification` of
-- custom_components/marstek_ble/marstek_device.py.
use ha_marstek_ble.Prelude.{
  ℕ, Bool, true, false, not, inl, inr, Option, none, some, List, [], ◌∷◌, String, ◌==◌, ◌||◌,
  if◌then◌else◌, fits, Bool-cases,
}
use ha_marstek_ble.Struct.{Bytes, codes}
use ha_marstek_ble.Text.{Text, decode_ascii, split, split_once, strip, text_eq}
use ha_marstek_ble.Converter.{Value}
use ha_marstek_ble.Frame.{Checked, accepted, refused, check_frame}
use ha_marstek_ble.Result.{Result, ok, err}
use ha_marstek_ble.Marstek.{
  MarstekData, Parse, ◌>>=◌, pure, when, assign, continue, or_false, mark_field_update,
}
use ha_marstek_ble.Marstek.Cells.{HasCells}
use ha_marstek_ble.Marstek.Kept.{
  Keeps, runtime_info-Keeps, system_data-Keeps, timer_info-Keeps, bms_data-Keeps, config_data-Keeps,
  ct_polling_rate-Keeps,
}
use ha_marstek_ble.Marstek.Texts.{
  parse_device_info, parse_wifi_ssid, parse_meter_ip, parse_network_info, parse_local_api_status,
  set_pair, set_pairs, set_device_key, set_network_key, track_set, is_set, is_empty, device_fields,
  network_fields,
}
use ha_marstek_ble.Marstek.Notification.{dispatch, outcome, parse_checked, parse_notification}

if_HasCells :
    (b : Bool) (x y : MarstekData) → HasCells x → HasCells y → HasCells (if b then x else y)
if_HasCells true x y h k = h
if_HasCells false x y h k = k

set_device_key-HasCells :
    (key : Text) (value : Value) (d : MarstekData)
    → HasCells d
    → HasCells (set_device_key key value d)
unfolding set_device_key
set_device_key-HasCells key value d h = if_HasCells (text_eq key (codes "type")) _ _ h (
    if_HasCells (text_eq key (codes "id")) _ _ h (
      if_HasCells (text_eq key (codes "sn")) _ _ h (
        if_HasCells (text_eq key (codes "mac")) _ _ h (
          if_HasCells
            (text_eq key (codes "dev_ver")
              || text_eq key (codes "fc_ver")
              || text_eq key (codes "fw"))
            _ _ h (if_HasCells (text_eq key (codes "hw")) _ _ h h)))))

set_network_key-HasCells :
    (key : Text) (value : Value) (d : MarstekData)
    → HasCells d
    → HasCells (set_network_key key value d)
unfolding set_network_key
set_network_key-HasCells key value d h = if_HasCells (text_eq key (codes "ip")) _ _ h (
    if_HasCells (text_eq key (codes "gate") || text_eq key (codes "gateway")) _ _ h (
      if_HasCells (text_eq key (codes "mask")) _ _ h
        (if_HasCells (text_eq key (codes "dns")) _ _ h h)))

-- What keeps the cell voltages on one key keeps them on all pairs.
set_pairs-HasCells :
    (set_key : Text → Value → MarstekData → MarstekData)
    → ((key : Text) (value : Value) (d : MarstekData) → HasCells d → HasCells (set_key key value d))
    → (separator : ℕ) (pairs : List Text) (d : MarstekData) → HasCells d
    → HasCells (set_pairs separator set_key pairs d)
unfolding set_pairs
set_pairs-HasCells set_key keeps separator [] d h = h
set_pairs-HasCells set_key keeps separator (pair ∷ pairs) d h =
    set_pairs-HasCells set_key keeps separator pairs
      (set_pair set_key (split_once separator pair) d) (one (split_once separator pair))
  where
    one : (pair : Option (Text × Text)) → HasCells (set_pair set_key pair d)
    one none = h
    one (some (key, value)) = keeps (strip key) (Value.text (strip value)) d h

track_set-HasCells :
    (names : List (String × (MarstekData → Value))) (command timestamp : ℕ) (payload : Bytes)
    (d : MarstekData)
    → HasCells d
    → HasCells (or_false (continue (track_set names command timestamp payload d) λ _. pure true)).1
unfolding track_set mark_field_update
track_set-HasCells [] command timestamp payload d h = h
track_set-HasCells ((name, get) ∷ names) command timestamp payload d h =
    elim (Bool-cases (is_set (get d))) [
      | inl t ↦ rw t (
          track_set-HasCells names command timestamp payload
            (mark_field_update name command timestamp payload d).1 h)
      | inr f ↦ rw f (track_set-HasCells names command timestamp payload d h)
    ]

device_info-Keeps : Keeps parse_device_info
unfolding parse_device_info
device_info-Keeps [] timestamp d h = h
device_info-Keeps (b ∷ payload) timestamp d h =
    track_set-HasCells device_fields 0x04 timestamp (b ∷ payload) _
      (set_pairs-HasCells set_device_key set_device_key-HasCells b'=' _ d h)

network_info-Keeps : Keeps parse_network_info
unfolding parse_network_info
network_info-Keeps payload timestamp d h = kept (strip (decode_ascii payload))
  where
    kept :
        (network : Text)
        → HasCells
            (or_false (
              continue
                (when
                  (not (is_empty network))
                  (assign (set_pairs b':' set_network_key (split b',' network)))
                  (record d { network_info = Value.text network }))
                λ _. track_set network_fields 0x24 timestamp payload >>= λ _. pure true)).1
    kept [] = track_set-HasCells network_fields 0x24 timestamp payload _ h
    kept (c ∷ network) =
        track_set-HasCells network_fields 0x24 timestamp payload _
          (set_pairs-HasCells set_network_key set_network_key-HasCells b':' _ _ h)

wifi_ssid-Keeps : Keeps parse_wifi_ssid
unfolding parse_wifi_ssid
wifi_ssid-Keeps payload timestamp d h = h

meter_ip-Keeps : Keeps parse_meter_ip
unfolding parse_meter_ip
meter_ip-Keeps [] timestamp d h = h
meter_ip-Keeps (b ∷ payload) timestamp d h = h

local_api_status-Keeps : Keeps parse_local_api_status
unfolding parse_local_api_status fits
local_api_status-Keeps [] timestamp d h = h
local_api_status-Keeps (a ∷ []) timestamp d h = h
local_api_status-Keeps (a ∷ b ∷ []) timestamp d h = h
local_api_status-Keeps (a ∷ b ∷ c ∷ payload) timestamp d h = h

if_Keeps :
    (b : Bool) (x y : Bytes → ℕ → Parse Bool)
    → Keeps x
    → Keeps y
    → Keeps λ payload timestamp. if b then x payload timestamp else y payload timestamp
if_Keeps true x y k l = k
if_Keeps false x y k l = l

pub dispatch-Keeps : (cmd : ℕ) → Keeps (dispatch cmd)
unfolding dispatch
dispatch-Keeps cmd = if_Keeps (cmd == 0x03) _ _ runtime_info-Keeps (
    if_Keeps (cmd == 0x04) _ _ device_info-Keeps (
      if_Keeps (cmd == 0x08) _ _ wifi_ssid-Keeps (
        if_Keeps (cmd == 0x0D) _ _ system_data-Keeps (
          if_Keeps (cmd == 0x13) _ _ timer_info-Keeps (
            if_Keeps (cmd == 0x14) _ _ bms_data-Keeps (
              if_Keeps (cmd == 0x1A) _ _ config_data-Keeps (
                if_Keeps (cmd == 0x21) _ _ meter_ip-Keeps (
                  if_Keeps (cmd == 0x22) _ _ ct_polling_rate-Keeps (
                    if_Keeps (cmd == 0x24) _ _ network_info-Keeps (
                      if_Keeps (cmd == 0x28) _ _ local_api_status-Keeps
                        (λ payload timestamp d h. h)))))))))))

outcome-HasCells : (r : Result Bool × MarstekData) → HasCells r.1 → HasCells (outcome r).1
outcome-HasCells (ok b, d) h = h
outcome-HasCells (err e, d) h = h

-- Whatever the notification is and whatever its parser does, a list of 16 cell voltages stays one
-- of 16.
pub parse_notification-HasCells :
    (notification : Bytes) (timestamp : ℕ) (d : MarstekData)
    → HasCells d
    → HasCells (parse_notification notification timestamp d).1
unfolding parse_notification
parse_notification-HasCells notification timestamp d h = kept (check_frame notification)
  where
    kept : (c : Checked) → HasCells (parse_checked c timestamp d).1
    kept (refused r) = h
    kept (accepted cmd payload) =
        outcome-HasCells (dispatch cmd payload timestamp d)
          (dispatch-Keeps cmd payload timestamp d h)
