-- ===== src/Venus/Telemetry.antt =====
-- The declarative Venus parser against `_parse_runtime_info` and `_parse_bms_data`, whose payloads
-- come in several lengths.
use ha_marstek_ble.Prelude.{
  ℕ, ◌≡◌, refl, ap, ◌∙◌, false, inl, inr, Option, ◌++◌, length, length-drop, drop, tabulate, ℤ,
  arith, fits, fits→le, not_fits→lt, lt→not_fits, Bool-cases, by_prefix, by_length, get_or,
}
use ha_marstek_ble.Struct.{Bytes}
use ha_marstek_ble.Schema.Tree.{parse_into}
use ha_marstek_ble.Schema.OnePass.{decode, decode_slot, parse_into-eq-decode}
use ha_marstek_ble.Marstek.{MarstekData}
use ha_marstek_ble.Marstek.Numeric.{parse_bms_data, parse_runtime_info}
use ha_marstek_ble.Venus.{venus_data, runtime_information, bms_data}
use ha_marstek_ble.Venus.Compat.{after, shown}
use ha_marstek_ble.Marstek.Cells.{HasCells, with_cells}

bms_same :
    (f : ℕ → ℕ) (rest : Bytes) (timestamp : ℕ) (d : MarstekData) (c : ℕ → Option (ℤ × ℕ))
    → let d' : MarstekData = record d { cell_voltages = tabulate c 16 } in
      after (venus_data d') (decode (tabulate f 80 ++ rest) bms_data (venus_data d'))
      ≡ shown (parse_bms_data (tabulate f 80 ++ rest) timestamp d')
unfolding decode decode_slot venus_data parse_bms_data fits
bms_same f rest timestamp d c = refl

bms_short :
    (payload : Bytes) (timestamp : ℕ) (d : MarstekData)
    → fits 80 (length payload) ≡ false
    → after (venus_data d) (decode payload bms_data (venus_data d))
      ≡ shown (parse_bms_data payload timestamp d)
unfolding decode parse_bms_data
bms_short payload timestamp d h = rw h

-- On every payload of command 0x14 the two parsers agree, on data with 16 cell voltages.
pub parse_bms_data_replaced :
    (payload : Bytes) (timestamp : ℕ) (d : MarstekData)
    → HasCells d
    → after (venus_data d) (parse_into payload bms_data (venus_data d))
      ≡ shown (parse_bms_data payload timestamp d)
parse_bms_data_replaced payload timestamp d cells =
    ap (after (venus_data d)) (parse_into-eq-decode payload bms_data (venus_data d))
    ∙ by_length
        (λ p.
          after (venus_data d) (decode p bms_data (venus_data d))
          ≡ shown (parse_bms_data p timestamp d))
        80 payload (bms_short payload timestamp d)
        (λ f rest.
          let p : Bytes = tabulate f 80 ++ rest in
          with_cells
            (λ e.
              after (venus_data e) (decode p bms_data (venus_data e))
              ≡ shown (parse_bms_data p timestamp e))
            d cells (bms_same f rest timestamp d))

-- 37 to 59, 60 to 99, and 100 or more bytes of runtime information.
runtime_same_short :
    (f : ℕ → ℕ) (rest : Bytes) (timestamp : ℕ) (d : MarstekData)
    → fits 23 (length rest) ≡ false
    → fits 63 (length rest) ≡ false
    → after (venus_data d) (decode (tabulate f 37 ++ rest) runtime_information (venus_data d))
      ≡ shown (parse_runtime_info (tabulate f 37 ++ rest) timestamp d)
unfolding decode decode_slot venus_data parse_runtime_info fits
runtime_same_short f rest timestamp d h k = rw (h, k)

runtime_same_long :
    (f : ℕ → ℕ) (rest : Bytes) (timestamp : ℕ) (d : MarstekData)
    → fits 40 (length rest) ≡ false
    → after (venus_data d) (decode (tabulate f 60 ++ rest) runtime_information (venus_data d))
      ≡ shown (parse_runtime_info (tabulate f 60 ++ rest) timestamp d)
unfolding decode decode_slot venus_data parse_runtime_info fits
runtime_same_long f rest timestamp d h = rw h

runtime_same_extended :
    (f : ℕ → ℕ) (rest : Bytes) (timestamp : ℕ) (d : MarstekData)
    → after (venus_data d) (decode (tabulate f 100 ++ rest) runtime_information (venus_data d))
      ≡ shown (parse_runtime_info (tabulate f 100 ++ rest) timestamp d)
unfolding decode decode_slot venus_data parse_runtime_info fits
runtime_same_extended f rest timestamp d = refl

runtime_too_short :
    (payload : Bytes) (timestamp : ℕ) (d : MarstekData)
    → fits 37 (length payload) ≡ false
    → after (venus_data d) (decode payload runtime_information (venus_data d))
      ≡ shown (parse_runtime_info payload timestamp d)
unfolding decode parse_runtime_info
runtime_too_short payload timestamp d h = rw h

-- On every payload of command 0x03, of any length, the two parsers agree: the short layout, the
-- long one, and the one with the fields of 100 bytes and more.
pub parse_runtime_info_replaced :
    (payload : Bytes) (timestamp : ℕ) (d : MarstekData)
    → after (venus_data d) (parse_into payload runtime_information (venus_data d))
      ≡ shown (parse_runtime_info payload timestamp d)
parse_runtime_info_replaced payload timestamp d =
    ap (after (venus_data d)) (parse_into-eq-decode payload runtime_information (venus_data d))
    ∙ elim (Bool-cases (fits 37 (length payload))) [
      | inr f ↦ runtime_too_short payload timestamp d f
      | inl t ↦ elim (Bool-cases (fits 60 (length payload))) [
        | inr g ↦ by_prefix agree 37 payload (fits→le 37 _ t) (
            runtime_same_short (get_or payload 0) (drop 37 payload) timestamp d
              (lt→not_fits 23 _ (omega (arith, not_fits→lt 60 _ g, length-drop 37 payload)))
              (lt→not_fits 63 _ (omega (arith, not_fits→lt 60 _ g, length-drop 37 payload))))
        | inl u ↦ elim (Bool-cases (fits 100 (length payload))) [
          | inr g ↦ by_prefix agree 60 payload (fits→le 60 _ u) (
              runtime_same_long (get_or payload 0) (drop 60 payload) timestamp d
                (lt→not_fits 40 _ (omega (arith, not_fits→lt 100 _ g, length-drop 60 payload))))
          | inl v ↦
              by_prefix agree 100 payload (fits→le 100 _ v)
                (runtime_same_extended (get_or payload 0) (drop 100 payload) timestamp d)
        ]
      ]
    ]
  where
    agree : Bytes → Type 0
    agree p =
        after (venus_data d) (decode p runtime_information (venus_data d))
        ≡ shown (parse_runtime_info p timestamp d)
