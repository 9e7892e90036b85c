-- ===== src/Marstek/Notification.antt =====
-- `MarstekProtocol.parse_notification` of custom_components/marstek_ble/marstek_device.py.
use ha_marstek_ble.Prelude.{ℕ, Bool, false, ◌==◌, if◌then◌else◌}
use ha_marstek_ble.Struct.{Bytes}
use ha_marstek_ble.Result.{Result, ok, err}
use ha_marstek_ble.Frame.{Checked, accepted, refused, check_frame}
use ha_marstek_ble.Marstek.{MarstekData, Parse, pure}
use ha_marstek_ble.Marstek.Numeric.{
  parse_runtime_info, parse_system_data, parse_timer_info, parse_bms_data, parse_config_data,
  parse_ct_polling_rate,
}
use ha_marstek_ble.Marstek.Texts.{
  parse_device_info, parse_wifi_ssid, parse_meter_ip, parse_network_info, parse_local_api_status,
}

-- The parser of each command; an unknown command is not parsed.
unfoldable pub dispatch : ℕ → Bytes → ℕ → Parse Bool
dispatch cmd payload timestamp =
    if cmd == 0x03
    then parse_runtime_info payload timestamp
    else if cmd == 0x04
    then parse_device_info payload timestamp
    else if cmd == 0x08
    then parse_wifi_ssid payload timestamp
    else if cmd == 0x0D
    then parse_system_data payload timestamp
    else if cmd == 0x13
    then parse_timer_info payload timestamp
    else if cmd == 0x14
    then parse_bms_data payload timestamp
    else if cmd == 0x1A
    then parse_config_data payload timestamp
    else if cmd == 0x21
    then parse_meter_ip payload timestamp
    else if cmd == 0x22
    then parse_ct_polling_rate payload timestamp
    else if cmd == 0x24
    then parse_network_info payload timestamp
    else if cmd == 0x28
    then parse_local_api_status payload timestamp
    else pure false

abbrev pub outcome : Result Bool × MarstekData → Bool × MarstekData
outcome (ok b, d) = (b, d)
outcome (err e, d) = (false, d)

abbrev pub parse_checked : Checked → ℕ → MarstekData → Bool × MarstekData
parse_checked (refused r) timestamp d = (false, d)
parse_checked (accepted cmd payload) timestamp d = outcome (dispatch cmd payload timestamp d)

-- `parse_notification`: what an exception of a parser has written stays.
unfoldable pub parse_notification : Bytes → ℕ → MarstekData → Bool × MarstekData
unfolding dispatch check_frame
parse_notification notification timestamp d = parse_checked (check_frame notification) timestamp d
