-- ===== src/Marstek/Kept.antt =====
-- The cell voltages of `MarstekData` under the parsers of numbers of
-- custom_components/marstek_ble/marstek_device.py.
use ha_marstek_ble.Prelude.{
  ℕ, ◌+◌, ◌≤◌, ◌≡◌, refl, Bool, false, inl, inr, Option, List, ◌++◌, length, length-drop, drop,
  tabulate, ℤ, arith, fits, fits→le, not_fits→lt, lt→not_fits, Bool-cases, by_prefix, by_length,
  get_or, get_or,
}
use ha_marstek_ble.Struct.{Bytes}
use ha_marstek_ble.Marstek.{MarstekData, Parse}
use ha_marstek_ble.Marstek.Cells.{HasCells, with_cells}
use ha_marstek_ble.Marstek.Numeric.{
  parse_runtime_info, parse_system_data, parse_timer_info, parse_bms_data, parse_config_data,
  parse_ct_polling_rate,
}

-- A parser that leaves 16 cell voltages.
abbrev pub Keeps : (Bytes → ℕ → Parse Bool) → Type 0
Keeps parse =
    (payload : Bytes) (timestamp : ℕ) (d : MarstekData)
    → HasCells d
    → HasCells (parse payload timestamp d).1

system_data_short :
    (payload : Bytes) (timestamp : ℕ) (d : MarstekData)
    → HasCells d
    → fits 11 (length payload) ≡ false
    → HasCells (parse_system_data payload timestamp d).1
unfolding parse_system_data
system_data_short payload timestamp d h f = rw f h

system_data_long :
    (b : ℕ → ℕ) (rest : Bytes) (timestamp : ℕ) (d : MarstekData)
    → HasCells d
    → HasCells (parse_system_data (tabulate b 11 ++ rest) timestamp d).1
unfolding parse_system_data fits
system_data_long b rest timestamp d h = h

pub system_data-Keeps : Keeps parse_system_data
system_data-Keeps payload timestamp d h =
    by_length (λ p. HasCells (parse_system_data p timestamp d).1) 11 payload
      (system_data_short payload timestamp d h) (λ b rest. system_data_long b rest timestamp d h)

timer_info_short :
    (payload : Bytes) (timestamp : ℕ) (d : MarstekData)
    → HasCells d
    → fits 45 (length payload) ≡ false
    → HasCells (parse_timer_info payload timestamp d).1
unfolding parse_timer_info
timer_info_short payload timestamp d h f = rw f h

timer_info_long :
    (b : ℕ → ℕ) (rest : Bytes) (timestamp : ℕ) (d : MarstekData)
    → HasCells d
    → HasCells (parse_timer_info (tabulate b 45 ++ rest) timestamp d).1
unfolding parse_timer_info fits
timer_info_long b rest timestamp d h = h

pub timer_info-Keeps : Keeps parse_timer_info
timer_info-Keeps payload timestamp d h =
    by_length (λ p. HasCells (parse_timer_info p timestamp d).1) 45 payload
      (timer_info_short payload timestamp d h) (λ b rest. timer_info_long b rest timestamp d h)

config_data_short :
    (payload : Bytes) (timestamp : ℕ) (d : MarstekData)
    → HasCells d
    → fits 17 (length payload) ≡ false
    → HasCells (parse_config_data payload timestamp d).1
unfolding parse_config_data
config_data_short payload timestamp d h f = rw f h

config_data_long :
    (b : ℕ → ℕ) (rest : Bytes) (timestamp : ℕ) (d : MarstekData)
    → HasCells d
    → HasCells (parse_config_data (tabulate b 17 ++ rest) timestamp d).1
unfolding parse_config_data fits
config_data_long b rest timestamp d h = h

pub config_data-Keeps : Keeps parse_config_data
config_data-Keeps payload timestamp d h =
    by_length (λ p. HasCells (parse_config_data p timestamp d).1) 17 payload
      (config_data_short payload timestamp d h) (λ b rest. config_data_long b rest timestamp d h)

ct_polling_rate_short :
    (payload : Bytes) (timestamp : ℕ) (d : MarstekData)
    → HasCells d
    → fits 1 (length payload) ≡ false
    → HasCells (parse_ct_polling_rate payload timestamp d).1
unfolding parse_ct_polling_rate
ct_polling_rate_short payload timestamp d h f = rw f h

ct_polling_rate_long :
    (b : ℕ → ℕ) (rest : Bytes) (timestamp : ℕ) (d : MarstekData)
    → HasCells d
    → HasCells (parse_ct_polling_rate (tabulate b 1 ++ rest) timestamp d).1
unfolding parse_ct_polling_rate fits
ct_polling_rate_long b rest timestamp d h = h

pub ct_polling_rate-Keeps : Keeps parse_ct_polling_rate
ct_polling_rate-Keeps payload timestamp d h =
    by_length (λ p. HasCells (parse_ct_polling_rate p timestamp d).1) 1 payload
      (ct_polling_rate_short payload timestamp d h)
      (λ b rest. ct_polling_rate_long b rest timestamp d h)

bms_data_short :
    (payload : Bytes) (timestamp : ℕ) (d : MarstekData)
    → HasCells d
    → fits 80 (length payload) ≡ false
    → HasCells (parse_bms_data payload timestamp d).1
unfolding parse_bms_data
bms_data_short payload timestamp d h f = rw f h

bms_data_long :
    (b : ℕ → ℕ) (rest : Bytes) (timestamp : ℕ) (d : MarstekData) (c : ℕ → Option (ℤ × ℕ))
    → HasCells
        (parse_bms_data
          (tabulate b 80 ++ rest)
          timestamp
          (record d { cell_voltages = tabulate c 16 })).1
unfolding parse_bms_data fits
bms_data_long b rest timestamp d c = refl

pub bms_data-Keeps : Keeps parse_bms_data
bms_data-Keeps payload timestamp d h =
    by_length (λ p. HasCells (parse_bms_data p timestamp d).1) 80 payload
      (bms_data_short payload timestamp d h)
      (λ b rest.
        with_cells (λ e. HasCells (parse_bms_data (tabulate b 80 ++ rest) timestamp e).1) d h
          (bms_data_long b rest timestamp d))

short_runtime_keeps :
    (b : ℕ → ℕ) (rest : Bytes) (timestamp : ℕ) (d : MarstekData)
    → HasCells d
    → fits 23 (length rest) ≡ false
    → HasCells (parse_runtime_info (tabulate b 37 ++ rest) timestamp d).1
unfolding parse_runtime_info fits
short_runtime_keeps b rest timestamp d h f = rw f h

long_runtime_keeps :
    (b : ℕ → ℕ) (rest : Bytes) (timestamp : ℕ) (d : MarstekData)
    → HasCells d
    → fits 40 (length rest) ≡ false
    → HasCells (parse_runtime_info (tabulate b 60 ++ rest) timestamp d).1
unfolding parse_runtime_info fits
long_runtime_keeps b rest timestamp d h f = rw f h

extended_runtime_keeps :
    (b : ℕ → ℕ) (rest : Bytes) (timestamp : ℕ) (d : MarstekData)
    → HasCells d
    → HasCells (parse_runtime_info (tabulate b 100 ++ rest) timestamp d).1
unfolding parse_runtime_info fits
extended_runtime_keeps b rest timestamp d h = h

no_runtime_keeps :
    (payload : Bytes) (timestamp : ℕ) (d : MarstekData)
    → HasCells d
    → fits 37 (length payload) ≡ false
    → HasCells (parse_runtime_info payload timestamp d).1
unfolding parse_runtime_info
no_runtime_keeps payload timestamp d h f = rw f h

fits-tabulate :
    (n m : ℕ) (xs : List ℕ)
    → n ≤ length xs
    → fits (n + m) (length xs) ≡ false
    → fits m (length (drop n xs)) ≡ false
fits-tabulate n m xs h f =
    lt→not_fits m _ (omega (arith, not_fits→lt (n + m) _ f, length-drop n xs))

pub runtime_info-Keeps : Keeps parse_runtime_info
runtime_info-Keeps payload timestamp d h = elim (Bool-cases (fits 37 (length payload))) [
  | inr f ↦ no_runtime_keeps payload timestamp d h f
  | inl t ↦ elim (Bool-cases (fits 60 (length payload))) [
    | inr f ↦ by_prefix kept 37 payload (fits→le 37 _ t) (
        short_runtime_keeps (get_or payload 0) (drop 37 payload) timestamp d h
          (fits-tabulate 37 23 payload (fits→le 37 _ t) f))
    | inl u ↦ elim (Bool-cases (fits 100 (length payload))) [
      | inr f ↦ by_prefix kept 60 payload (fits→le 60 _ u) (
          long_runtime_keeps (get_or payload 0) (drop 60 payload) timestamp d h
            (fits-tabulate 60 40 payload (fits→le 60 _ u) f))
      | inl v ↦
          by_prefix kept 100 payload (fits→le 100 _ v)
            (extended_runtime_keeps (get_or payload 0) (drop 100 payload) timestamp d h)
    ]
  ]
]
  where
    kept : Bytes → Type 0
    kept p = HasCells (parse_runtime_info p timestamp d).1
