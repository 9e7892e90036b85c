-- ===== src/Venus/Ready.antt =====
-- The tables of custom_components/marstek_ble/products/venus.py: every converter suits its format.
use ha_marstek_ble.Prelude.{List, [], ◌∷◌, some, map, length, ◌≡◌, refl, ℤ, arith}
use ha_marstek_ble.Result.{ok}
use ha_marstek_ble.Converter.{Value, reals, divide_each_by}
use ha_marstek_ble.Schema.{to_raw}
use ha_marstek_ble.Schema.Tables.{built}
use ha_marstek_ble.Schema.Total.{IsReady, IsReadySlot}
use ha_marstek_ble.Schema.Ready.{
  identity-TakesOne, to_float-TakesOne, nonzero-TakesOne, divide_by-TakesOne, bit-TakesOne,
}
use ha_marstek_ble.Marstek.{MarstekData}
use ha_marstek_ble.Venus.{
  venus_data, venus_runtime_data, venus_battery_data, venus_system_data, venus_timer_data,
  venus_configuration_data, venus_device_information, venus_network_data,
}

cells_takes :
    (vs : List ℤ) → length vs ≡ 16 → (v : Value) × (built (divide_each_by 1000) (to_raw vs) ≡ ok v)
unfolding divide_each_by
cells_takes [] h = absurd (omega arith)
cells_takes (v ∷ []) h = absurd (omega arith)
cells_takes (v ∷ w ∷ vs) h = (reals (map (λ x. some (x, 1000)) (v ∷ w ∷ vs)), refl)

venus_runtime_data-IsReady : (d : MarstekData) → IsReady (venus_runtime_data d)
unfolding IsReady IsReadySlot venus_runtime_data
venus_runtime_data-IsReady d = (
  (to_float-TakesOne, tt),
  (
    (divide_by-TakesOne 10 refl, tt),
    (
      (divide_by-TakesOne 10 refl, tt),
      (
        (bit-TakesOne 0, tt),
        (
          (bit-TakesOne 1, tt),
          (
            (nonzero-TakesOne, tt),
            (
              (nonzero-TakesOne, tt),
              (
                (to_float-TakesOne, tt),
                (
                  (to_float-TakesOne, tt),
                  (
                    (identity-TakesOne, tt),
                    (
                      (identity-TakesOne, tt),
                      (
                        (identity-TakesOne, tt),
                        (
                          (divide_by-TakesOne 100 refl, tt),
                          (
                            (divide_by-TakesOne 1000 refl, tt),
                            (
                              (divide_by-TakesOne 100 refl, tt),
                              (
                                (divide_by-TakesOne 100 refl, tt),
                                (
                                  (divide_by-TakesOne 100 refl, tt),
                                  ((divide_by-TakesOne 100 refl, tt), tt),
                                ),
                              ),
                            ),
                          ),
                        ),
                      ),
                    ),
                  ),
                ),
              ),
            ),
          ),
        ),
      ),
    ),
  ),
)

venus_battery_data-IsReady : (d : MarstekData) → IsReady (venus_battery_data d)
unfolding IsReady IsReadySlot venus_battery_data
venus_battery_data-IsReady d = (
  (identity-TakesOne, tt),
  (
    (divide_by-TakesOne 10 refl, tt),
    (
      (divide_by-TakesOne 10 refl, tt),
      (
        (divide_by-TakesOne 10 refl, tt),
        (
          (to_float-TakesOne, tt),
          (
            (to_float-TakesOne, tt),
            (
              (to_float-TakesOne, tt),
              (
                (divide_by-TakesOne 100 refl, tt),
                (
                  (divide_by-TakesOne 10 refl, tt),
                  (
                    (to_float-TakesOne, tt),
                    (
                      (identity-TakesOne, tt),
                      (
                        (identity-TakesOne, tt),
                        (
                          (divide_by-TakesOne 3_600_000 refl, tt),
                          (
                            (to_float-TakesOne, tt),
                            (
                              (to_float-TakesOne, tt),
                              (
                                (to_float-TakesOne, tt),
                                (
                                  (to_float-TakesOne, tt),
                                  ((to_float-TakesOne, tt), ((cells_takes, tt), tt)),
                                ),
                              ),
                            ),
                          ),
                        ),
                      ),
                    ),
                  ),
                ),
              ),
            ),
          ),
        ),
      ),
    ),
  ),
)

venus_system_data-IsReady : (d : MarstekData) → IsReady (venus_system_data d)
unfolding IsReady IsReadySlot venus_system_data
venus_system_data-IsReady d = (
  (identity-TakesOne, tt),
  (
    (identity-TakesOne, tt),
    (
      (identity-TakesOne, tt),
      ((identity-TakesOne, tt), ((identity-TakesOne, tt), ((identity-TakesOne, tt), tt))),
    ),
  ),
)

venus_timer_data-IsReady : (d : MarstekData) → IsReady (venus_timer_data d)
unfolding IsReady IsReadySlot venus_timer_data
venus_timer_data-IsReady d =
    ((nonzero-TakesOne, tt), ((nonzero-TakesOne, tt), ((to_float-TakesOne, tt), tt)))

venus_configuration_data-IsReady : (d : MarstekData) → IsReady (venus_configuration_data d)
unfolding IsReady IsReadySlot venus_configuration_data
venus_configuration_data-IsReady d = (
  (identity-TakesOne, tt),
  ((identity-TakesOne, tt), ((identity-TakesOne, tt), ((identity-TakesOne, tt), tt))),
)

venus_device_information-IsReady : (d : MarstekData) → IsReady (venus_device_information d)
unfolding IsReady IsReadySlot venus_device_information
venus_device_information-IsReady d = (tt, (tt, (tt, (tt, (tt, (tt, tt))))))

venus_network_data-IsReady : (d : MarstekData) → IsReady (venus_network_data d)
unfolding IsReady IsReadySlot venus_network_data
venus_network_data-IsReady d = (tt, (tt, (tt, (tt, (tt, (tt, (tt, (tt, tt))))))))

-- Every converter of a Venus instance suits its format.
pub venus_data-IsReady : (d : MarstekData) → IsReady (venus_data d)
unfolding IsReady IsReadySlot venus_data
venus_data-IsReady d = (
  venus_runtime_data-IsReady d,
  (
    venus_battery_data-IsReady d,
    (
      venus_system_data-IsReady d,
      (
        venus_timer_data-IsReady d,
        (
          venus_configuration_data-IsReady d,
          (venus_device_information-IsReady d, (venus_network_data-IsReady d, tt)),
        ),
      ),
    ),
  ),
)
