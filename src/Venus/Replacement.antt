-- ===== src/Venus/Replacement.antt =====
-- Each command of a Venus device under product_runtime.py, with the tables of venus.py and the
-- parsers of venus_runtime.py, against its parser in marstek_device.py.
use ha_marstek_ble.Prelude.{
  ℕ, ◌≡◌, refl, sym, ap, ◌∙◌, Bool, true, false, not, inl, inr, none, some, List, [], ◌∷◌, fits,
  Bool-cases, String,
}
use ha_marstek_ble.Struct.{Bytes}
use ha_marstek_ble.Result as Result
use ha_marstek_ble.Result.{Error, Result, ok, err, ◌>>◌}
use ha_marstek_ble.Text.{Text, decode_ascii, strip, split}
use ha_marstek_ble.Converter.{Value, text}
use ha_marstek_ble.Schema.{PacketSchema, validate_payload}
use ha_marstek_ble.Schema.Tree.{
  Fields, ParsedField, apply_all, iter_fields, parsed_fields, parse_into,
}
use ha_marstek_ble.Marstek.{
  MarstekData, ◌>>=◌, pure, assign, when, or_false, continue, mark_field_update,
}
use ha_marstek_ble.Marstek.Numeric.{
  parse_runtime_info, parse_system_data, parse_timer_info, parse_bms_data, parse_config_data,
  parse_ct_polling_rate,
}
use ha_marstek_ble.Marstek.Texts as Texts
use ha_marstek_ble.Marstek.Texts.{
  parse_device_info, parse_network_info, set_device_key, set_network_key, set_pairs, track_set,
  is_set, device_fields, network_fields, is_empty,
}
use ha_marstek_ble.ProductRuntime as ProductRuntime
use ha_marstek_ble.ProductRuntime.{
  PayloadParser, Parsed, packet_of, parser_of, parse_by, parse_payload, ProductData,
}
use ha_marstek_ble.Schema.Attributes.{set_in}
use ha_marstek_ble.Venus.{
  venus_data, runtime_information, system_data, timer_information, bms_data, configuration_data,
  ct_polling_rate,
}
use ha_marstek_ble.Venus.Runtime.{venus_runtime, store_pairs, device_attribute, network_attribute}
use ha_marstek_ble.Venus.Compat.{
  after, shown, parse_system_data_replaced, parse_timer_info_replaced, parse_config_data_replaced,
  parse_ct_polling_rate_replaced,
}
use ha_marstek_ble.Marstek.Cells.{HasCells}
use ha_marstek_ble.Venus.Telemetry.{parse_bms_data_replaced, parse_runtime_info_replaced}
use ha_marstek_ble.Venus.TextCompat.{device-KeySame, network-KeySame, pairs_same}

-- Whether `parse_payload` updated anything, and the instance that it leaves.
abbrev pub seen : Parsed → Bool × Fields
seen (ok none, fs) = (false, fs)
seen (ok (some paths), fs) = (true, fs)
seen (err e, fs) = (false, fs)

seen-validated :
    (check : Result (Unit {0})) (m : Result (List ParsedField)) (fs : Fields)
    → seen (ProductRuntime.checked check fs (ProductRuntime.written (check >> m) fs))
      ≡ after fs (Result.◌>>=◌ (check >> m) λ us. ok (apply_all us fs))
seen-validated (ok tt) (ok us) fs = refl
seen-validated (ok tt) (err e) fs = refl
seen-validated (err e) m fs = refl

-- A command with a packet and no parser of its own is parsed by the packet.
seen-packet :
    (packet : PacketSchema) (payload : Bytes) (fs : Fields)
    → seen (parse_by (some packet) none payload fs) ≡ after fs (parse_into payload packet fs)
unfolding parse_into parsed_fields
seen-packet packet payload fs =
    seen-validated (validate_payload packet payload) (iter_fields payload packet fs 0 []) fs

-- Metadata is no part of the instance, and to record it never fails.
track_set-quiet :
    (names : List (String × (MarstekData → Value))) (command timestamp : ℕ) (payload : Bytes)
    (d : MarstekData)
    → (d' : MarstekData) × (track_set names command timestamp payload d ≡ (ok tt, d'))
      × (venus_data d' ≡ venus_data d)
unfolding track_set venus_data
track_set-quiet [] command timestamp payload d = (d, refl, refl)
track_set-quiet ((name, get) ∷ names) command timestamp payload d =
    elim (Bool-cases (is_set (get d))) [
      | inl t ↦
          let (d', e, same) =
            track_set-quiet names command timestamp payload
              (mark_field_update name command timestamp payload d).1 in
          (d', rw t e, same)
      | inr f ↦
          let (d', e, same) = track_set-quiet names command timestamp payload d in
          (d', rw f e, same)
    ]

module _ (payload : Bytes) (timestamp : ℕ) (d : MarstekData) where
  -- The outcome of `parse_payload` on the instance that holds the values of `d`.
  abbrev pub product : ℕ → Bool × Fields
  product command = seen (parse_payload venus_runtime command payload (venus_data d))

  pub runtime_replaced : product 0x03 ≡ shown (parse_runtime_info payload timestamp d)
  unfolding parse_payload venus_runtime
  runtime_replaced =
      seen-packet runtime_information payload (venus_data d)
      ∙ parse_runtime_info_replaced payload timestamp d

  pub system_replaced : product 0x0D ≡ shown (parse_system_data payload timestamp d)
  unfolding parse_payload venus_runtime
  system_replaced =
      seen-packet system_data payload (venus_data d)
      ∙ parse_system_data_replaced payload timestamp d

  pub timer_replaced : product 0x13 ≡ shown (parse_timer_info payload timestamp d)
  unfolding parse_payload venus_runtime
  timer_replaced =
      seen-packet timer_information payload (venus_data d)
      ∙ parse_timer_info_replaced payload timestamp d

  pub bms_replaced : HasCells d → product 0x14 ≡ shown (parse_bms_data payload timestamp d)
  unfolding parse_payload venus_runtime
  bms_replaced cells =
      seen-packet bms_data payload (venus_data d)
      ∙ parse_bms_data_replaced payload timestamp d cells

  pub config_replaced : product 0x1A ≡ shown (parse_config_data payload timestamp d)
  unfolding parse_payload venus_runtime
  config_replaced =
      seen-packet configuration_data payload (venus_data d)
      ∙ parse_config_data_replaced payload timestamp d

  pub rate_replaced : product 0x22 ≡ shown (parse_ct_polling_rate payload timestamp d)
  unfolding parse_payload venus_runtime
  rate_replaced =
      seen-packet ct_polling_rate payload (venus_data d)
      ∙ parse_ct_polling_rate_replaced payload timestamp d

  pub ssid_replaced : product 0x08 ≡ shown (Texts.parse_wifi_ssid payload timestamp d)
  unfolding parse_payload venus_runtime Texts.parse_wifi_ssid fits venus_data
  ssid_replaced = refl

pub meter_replaced :
    (payload : Bytes) (timestamp : ℕ) (d : MarstekData)
    → product payload timestamp d 0x21 ≡ shown (Texts.parse_meter_ip payload timestamp d)
unfolding parse_payload venus_runtime Texts.parse_meter_ip fits venus_data
meter_replaced [] timestamp d = refl
meter_replaced (b ∷ payload) timestamp d = refl

pub api_replaced :
    (payload : Bytes) (timestamp : ℕ) (d : MarstekData)
    → product payload timestamp d 0x28 ≡ shown (Texts.parse_local_api_status payload timestamp d)
unfolding parse_payload venus_runtime Texts.parse_local_api_status fits venus_data
api_replaced [] timestamp d = refl
api_replaced (a ∷ []) timestamp d = refl
api_replaced (a ∷ b ∷ []) timestamp d = refl
api_replaced (a ∷ b ∷ c ∷ payload) timestamp d = refl

-- To record the metadata is the last statement of a parser, and it returns true.
track_set-shown :
    (names : List (String × (MarstekData → Value))) (command timestamp : ℕ) (payload : Bytes)
    (d : MarstekData)
    → shown (or_false (continue (track_set names command timestamp payload d) λ _. pure true))
      ≡ (true, venus_data d)
track_set-shown names command timestamp payload d =
    let (d', e, same) = track_set-quiet names command timestamp payload d in
    ap (λ r. shown (or_false (continue r λ _. pure true))) e ∙ ap (λ fs. (true, fs)) same

pub device_replaced :
    (payload : Bytes) (timestamp : ℕ) (d : MarstekData)
    → product payload timestamp d 0x04 ≡ shown (parse_device_info payload timestamp d)
unfolding parse_payload venus_runtime parse_device_info fits
device_replaced [] timestamp d = refl
device_replaced (b ∷ payload) timestamp d =
    let pairs = split b',' (decode_ascii (b ∷ payload)) in
    ap (λ fs. (true, fs))
      (pairs_same "device" device_attribute set_device_key device-KeySame b'=' pairs d
        (venus_data d, []) refl)
    ∙ sym (
        track_set-shown device_fields 0x04 timestamp (b ∷ payload)
          (set_pairs b'=' set_device_key pairs d))

-- An empty text has no pairs.
set_pairs-nonempty :
    (network : Text) (d : MarstekData)
    → when (not (is_empty network)) (assign (set_pairs b':' set_network_key (split b',' network))) d
      ≡ (ok tt, set_pairs b':' set_network_key (split b',' network) d)
unfolding set_pairs split
set_pairs-nonempty [] d = refl
set_pairs-nonempty (c ∷ network) d = refl

network_stored :
    (network : Text) (d : MarstekData)
    → (store_pairs "network" network_attribute b':'
        (split b',' network)
        (set_in "network" "network_info" (text network) (venus_data d), "network_info" ∷ [])).0
      ≡ venus_data (
          set_pairs b':' set_network_key
            (split b',' network)
            (record d { network_info = text network }))
unfolding set_in venus_data
network_stored network d =
    pairs_same "network" network_attribute set_network_key network-KeySame b':' (split b',' network)
      (record d { network_info = text network })
      (set_in "network" "network_info" (text network) (venus_data d), "network_info" ∷ []) refl

pub network_replaced :
    (payload : Bytes) (timestamp : ℕ) (d : MarstekData)
    → product payload timestamp d 0x24 ≡ shown (parse_network_info payload timestamp d)
unfolding parse_payload venus_runtime parse_network_info fits
network_replaced payload timestamp d =
    let network = strip (decode_ascii payload) in
    let base = record d { network_info = text network } in
    let stored = set_pairs b':' set_network_key (split b',' network) base in
    ap (λ fs. (true, fs)) (network_stored network d)
    ∙ sym (
        ap
          (λ r. shown (
            or_false
              (continue r λ _. track_set network_fields 0x24 timestamp payload >>= λ _. pure true)))
          (set_pairs-nonempty network base)
        ∙ track_set-shown network_fields 0x24 timestamp payload stored)
