-- ===== src/Venus/Compat.antt =====
-- The declarative Venus parser against the parsers of marstek_device.py that it replaces, for the
-- packets of fixed fields. A payload is split into the bytes that the fields stand in and the rest.
use ha_marstek_ble.Prelude.{
  ℕ, ◌≡◌, refl, ap, ◌∙◌, Bool, true, false, ◌++◌, length, tabulate, fits, by_length,
}
use ha_marstek_ble.Struct.{Bytes}
use ha_marstek_ble.Result.{Result, ok, err}
use ha_marstek_ble.Schema.Tree.{Fields, parse_into}
use ha_marstek_ble.Schema.OnePass.{decode, decode_slot, parse_into-eq-decode}
use ha_marstek_ble.Marstek.{MarstekData}
use ha_marstek_ble.Marstek.Numeric.{
  parse_system_data, parse_timer_info, parse_config_data, parse_ct_polling_rate,
}
use ha_marstek_ble.Venus.{
  venus_data, system_data, timer_information, configuration_data, ct_polling_rate,
}

-- Whether a parser succeeded and the instance that it leaves: a declarative one that raises leaves
-- the instance that it was given.
abbrev pub after : Fields → Result Fields → Bool × Fields
after old (ok fs) = (true, fs)
after old (err e) = (false, old)

-- The same of a parser of marstek_device.py, by the instance that holds its values.
abbrev pub shown : Result Bool × MarstekData → Bool × Fields
shown (ok b, d) = (b, venus_data d)
shown (err e, d) = (false, venus_data d)

system_same :
    (f : ℕ → ℕ) (rest : Bytes) (timestamp : ℕ) (d : MarstekData)
    → after (venus_data d) (decode (tabulate f 11 ++ rest) system_data (venus_data d))
      ≡ shown (parse_system_data (tabulate f 11 ++ rest) timestamp d)
unfolding decode decode_slot venus_data parse_system_data fits
system_same f rest timestamp d = refl

system_short :
    (payload : Bytes) (timestamp : ℕ) (d : MarstekData)
    → fits 11 (length payload) ≡ false
    → after (venus_data d) (decode payload system_data (venus_data d))
      ≡ shown (parse_system_data payload timestamp d)
unfolding decode parse_system_data
system_short payload timestamp d h = rw h

-- On every payload of command 0x0D the two parsers agree.
pub parse_system_data_replaced :
    (payload : Bytes) (timestamp : ℕ) (d : MarstekData)
    → after (venus_data d) (parse_into payload system_data (venus_data d))
      ≡ shown (parse_system_data payload timestamp d)
parse_system_data_replaced payload timestamp d =
    ap (after (venus_data d)) (parse_into-eq-decode payload system_data (venus_data d))
    ∙ by_length
        (λ p.
          after (venus_data d) (decode p system_data (venus_data d))
          ≡ shown (parse_system_data p timestamp d))
        11 payload (system_short payload timestamp d) (λ f rest. system_same f rest timestamp d)

timer_same :
    (f : ℕ → ℕ) (rest : Bytes) (timestamp : ℕ) (d : MarstekData)
    → after (venus_data d) (decode (tabulate f 45 ++ rest) timer_information (venus_data d))
      ≡ shown (parse_timer_info (tabulate f 45 ++ rest) timestamp d)
unfolding decode decode_slot venus_data parse_timer_info fits
timer_same f rest timestamp d = refl

timer_short :
    (payload : Bytes) (timestamp : ℕ) (d : MarstekData)
    → fits 45 (length payload) ≡ false
    → after (venus_data d) (decode payload timer_information (venus_data d))
      ≡ shown (parse_timer_info payload timestamp d)
unfolding decode parse_timer_info
timer_short payload timestamp d h = rw h

-- On every payload of command 0x13 the two parsers agree.
pub parse_timer_info_replaced :
    (payload : Bytes) (timestamp : ℕ) (d : MarstekData)
    → after (venus_data d) (parse_into payload timer_information (venus_data d))
      ≡ shown (parse_timer_info payload timestamp d)
parse_timer_info_replaced payload timestamp d =
    ap (after (venus_data d)) (parse_into-eq-decode payload timer_information (venus_data d))
    ∙ by_length
        (λ p.
          after (venus_data d) (decode p timer_information (venus_data d))
          ≡ shown (parse_timer_info p timestamp d))
        45 payload (timer_short payload timestamp d) (λ f rest. timer_same f rest timestamp d)

config_same :
    (f : ℕ → ℕ) (rest : Bytes) (timestamp : ℕ) (d : MarstekData)
    → after (venus_data d) (decode (tabulate f 17 ++ rest) configuration_data (venus_data d))
      ≡ shown (parse_config_data (tabulate f 17 ++ rest) timestamp d)
unfolding decode decode_slot venus_data parse_config_data fits
config_same f rest timestamp d = refl

config_short :
    (payload : Bytes) (timestamp : ℕ) (d : MarstekData)
    → fits 17 (length payload) ≡ false
    → after (venus_data d) (decode payload configuration_data (venus_data d))
      ≡ shown (parse_config_data payload timestamp d)
unfolding decode parse_config_data
config_short payload timestamp d h = rw h

-- On every payload of command 0x1A the two parsers agree.
pub parse_config_data_replaced :
    (payload : Bytes) (timestamp : ℕ) (d : MarstekData)
    → after (venus_data d) (parse_into payload configuration_data (venus_data d))
      ≡ shown (parse_config_data payload timestamp d)
parse_config_data_replaced payload timestamp d =
    ap (after (venus_data d)) (parse_into-eq-decode payload configuration_data (venus_data d))
    ∙ by_length
        (λ p.
          after (venus_data d) (decode p configuration_data (venus_data d))
          ≡ shown (parse_config_data p timestamp d))
        17 payload (config_short payload timestamp d) (λ f rest. config_same f rest timestamp d)

rate_same :
    (f : ℕ → ℕ) (rest : Bytes) (timestamp : ℕ) (d : MarstekData)
    → after (venus_data d) (decode (tabulate f 1 ++ rest) ct_polling_rate (venus_data d))
      ≡ shown (parse_ct_polling_rate (tabulate f 1 ++ rest) timestamp d)
unfolding decode decode_slot venus_data parse_ct_polling_rate fits
rate_same f rest timestamp d = refl

rate_short :
    (payload : Bytes) (timestamp : ℕ) (d : MarstekData)
    → fits 1 (length payload) ≡ false
    → after (venus_data d) (decode payload ct_polling_rate (venus_data d))
      ≡ shown (parse_ct_polling_rate payload timestamp d)
unfolding decode parse_ct_polling_rate
rate_short payload timestamp d h = rw h

-- On every payload of command 0x22 the two parsers agree.
pub parse_ct_polling_rate_replaced :
    (payload : Bytes) (timestamp : ℕ) (d : MarstekData)
    → after (venus_data d) (parse_into payload ct_polling_rate (venus_data d))
      ≡ shown (parse_ct_polling_rate payload timestamp d)
parse_ct_polling_rate_replaced payload timestamp d =
    ap (after (venus_data d)) (parse_into-eq-decode payload ct_polling_rate (venus_data d))
    ∙ by_length
        (λ p.
          after (venus_data d) (decode p ct_polling_rate (venus_data d))
          ≡ shown (parse_ct_polling_rate p timestamp d))
        1 payload (rate_short payload timestamp d) (λ f rest. rate_same f rest timestamp d)
