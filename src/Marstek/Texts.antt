-- ===== src/Marstek/Texts.antt =====
-- The text parsers of `MarstekProtocol` in custom_components/marstek_ble/marstek_device.py:
-- commands 0x04, 0x08, 0x21, 0x24 and 0x28.
use ha_marstek_ble.Prelude.{
  ℕ, String, Bool, true, false, not, ◌||◌, Option, none, some, List, [], ◌∷◌, ◌++◌, all, fits, ◌==◌,
  if◌then◌else◌, length, pos_part,
}
use ha_marstek_ble.Struct.{Bytes, codes}
use ha_marstek_ble.Text.{Text, decode_ascii, strip, strip_nul, split, split_once, text_eq, decimal}
use ha_marstek_ble.Converter.{Value, null, text}
use ha_marstek_ble.Marstek.{
  MarstekData, Parse, ◌>>=◌, ◌>>◌, pure, assign, try_or_false, when, unpack_at, byte_at,
  mark_field_update,
}
use ha_marstek_ble.Marstek.Numeric.{u16}

-- One key of the device information.
unfoldable pub set_device_key : Text → Value → MarstekData → MarstekData
unfolding text_eq
set_device_key key value d =
    if text_eq key (codes "type")
    then record d { device_type = value }
    else if text_eq key (codes "id")
    then record d { device_id = value }
    else if text_eq key (codes "sn")
    then record d { serial_number = value }
    else if text_eq key (codes "mac")
    then record d { mac_address = value }
    else if text_eq key (codes "dev_ver")
        || text_eq key (codes "fc_ver")
        || text_eq key (codes "fw")
    then record d { firmware_version = value }
    else if text_eq key (codes "hw")
    then record d { hardware_version = value }
    else d

abbrev pub set_pair :
    (Text → Value → MarstekData → MarstekData) → Option (Text × Text) → MarstekData → MarstekData
set_pair set_key none d = d
set_pair set_key (some (key, value)) d = set_key (strip key) (text (strip value)) d

-- What a list of pairs does, one pair after the other.
unfoldable pub set_pairs :
    ℕ → (Text → Value → MarstekData → MarstekData) → List Text → MarstekData → MarstekData
unfolding split_once strip
set_pairs separator set_key [] d = d
set_pairs separator set_key (pair ∷ pairs) d =
    set_pairs separator set_key pairs (set_pair set_key (split_once separator pair) d)

abbrev pub is_set : Value → Bool
is_set null = false
is_set _ = true

-- `for field in (...): if getattr(device_data, field) is not None: _track_field(...)`
unfoldable pub track_set : List (String × (MarstekData → Value)) → ℕ → ℕ → Bytes → Parse (Unit {0})
unfolding mark_field_update
track_set [] command timestamp payload = pure tt
track_set ((field, get) ∷ fields) command timestamp payload = do
  value ← λ d. pure (get d) d
  when (is_set value) (mark_field_update field command timestamp payload)
  track_set fields command timestamp payload

abbrev pub device_fields : List (String × (MarstekData → Value))
device_fields =
    ("device_type", λ d. d.device_type)
    ∷ ("device_id", λ d. d.device_id)
    ∷ ("serial_number", λ d. d.serial_number)
    ∷ ("mac_address", λ d. d.mac_address)
    ∷ ("firmware_version", λ d. d.firmware_version)
    ∷ ("hardware_version", λ d. d.hardware_version)
    ∷ []

abbrev pub is_empty : Bytes → Bool
is_empty [] = true
is_empty (_ ∷ _) = false

-- `_parse_device_info`
unfoldable pub parse_device_info : Bytes → ℕ → Parse Bool
unfolding set_device_key decode_ascii split
parse_device_info payload timestamp =
    if is_empty payload
    then pure false
    else try_or_false do
      assign (set_pairs b'=' set_device_key (split b',' (decode_ascii payload)))
      track_set device_fields 0x04 timestamp payload
      pure true

-- `_parse_wifi_ssid`
unfoldable pub parse_wifi_ssid : Bytes → ℕ → Parse Bool
unfolding mark_field_update decode_ascii strip
parse_wifi_ssid payload timestamp = try_or_false do
  assign λ d. record d { wifi_ssid = text (strip (decode_ascii payload)) }
  mark_field_update "wifi_ssid" 0x08 timestamp payload
  pure true

abbrev pub meter_text : Bytes → Text
meter_text payload =
    if all (λ b. b == 0xFF) payload then codes "(not set)" else strip_nul (decode_ascii payload)

-- `_parse_meter_ip`
unfoldable pub parse_meter_ip : Bytes → ℕ → Parse Bool
unfolding mark_field_update decode_ascii strip_nul
parse_meter_ip payload timestamp =
    if is_empty payload
    then pure false
    else try_or_false do
      assign λ d. record d { meter_ip = text (meter_text payload) }
      mark_field_update "meter_ip" 0x21 timestamp payload
      pure true

-- One key of the network information.
unfoldable pub set_network_key : Text → Value → MarstekData → MarstekData
unfolding text_eq
set_network_key key value d =
    if text_eq key (codes "ip")
    then record d { ip_address = value }
    else if text_eq key (codes "gate") || text_eq key (codes "gateway")
    then record d { gateway = value }
    else if text_eq key (codes "mask")
    then record d { subnet_mask = value }
    else if text_eq key (codes "dns")
    then record d { dns_server = value }
    else d

abbrev pub network_fields : List (String × (MarstekData → Value))
network_fields =
    ("network_info", λ d. d.network_info)
    ∷ ("ip_address", λ d. d.ip_address)
    ∷ ("gateway", λ d. d.gateway)
    ∷ ("subnet_mask", λ d. d.subnet_mask)
    ∷ ("dns_server", λ d. d.dns_server)
    ∷ []

-- `_parse_network_info`
unfoldable pub parse_network_info : Bytes → ℕ → Parse Bool
unfolding set_network_key decode_ascii strip split
parse_network_info payload timestamp = try_or_false do
  let network = strip (decode_ascii payload)
  assign λ d. record d { network_info = text network }
  when (not (is_empty network)) (assign (set_pairs b':' set_network_key (split b',' network)))
  track_set network_fields 0x24 timestamp payload
  pure true

abbrev pub api_text : ℕ → ℕ → Text
api_text flag port =
    (if flag == 1 then codes "enabled" else codes "disabled") ++ (b'/' ∷ decimal port)

-- `_parse_local_api_status`
unfoldable pub parse_local_api_status : Bytes → ℕ → Parse Bool
unfolding mark_field_update unpack_at decimal
parse_local_api_status payload timestamp = if not (fits 3 (length payload)) then pure false else do
  flag ← byte_at payload 0
  port ← unpack_at u16 payload 1 3
  assign λ d. record d { local_api_status = text (api_text flag (pos_part port)) }
  mark_field_update "local_api_status" 0x28 timestamp payload
  pure true
