-- ===== src/Jupiter/Ready.antt =====
-- The tables of custom_components/marstek_ble/products/jupiter.py: every converter suits its format.
use ha_marstek_ble.Prelude.{ℕ, zero, suc, List, [], ◌∷◌, length, ◌≡◌, refl, ℤ, pos, arith}
use ha_marstek_ble.Result.{ok}
use ha_marstek_ble.Converter.{Value, text}
use ha_marstek_ble.Schema.{to_raw}
use ha_marstek_ble.Schema.Tree.{Fields}
use ha_marstek_ble.Schema.Tables.{copies}
use ha_marstek_ble.Schema.Total.{IsReady, IsReadySlot, IsReadyItems}
use ha_marstek_ble.Schema.Ready.{
  TakesOne, one-TakesOne, identity-TakesOne, to_float-TakesOne, nonzero-TakesOne,
  divide_by-TakesOne, multiply_by-TakesOne, bit-TakesOne,
}
use ha_marstek_ble.Jupiter.{battery_state, state_name, event_summary}
use ha_marstek_ble.Jupiter.Tables.{
  jupiter_data, jupiter_pv_input_data, jupiter_runtime_data, jupiter_energy_data,
  jupiter_inverter_data, jupiter_mppt_data, jupiter_battery_pack_data, jupiter_battery_data,
  jupiter_event_record, jupiter_identity_data, jupiter_raw_status_data,
}

battery_state-TakesOne : TakesOne battery_state
unfolding battery_state
battery_state-TakesOne = one-TakesOne battery_state λ v. (text (state_name v), refl)

event_summary_takes :
    (vs : List ℤ) → length vs ≡ 7 → (v : Value) × (event_summary (to_raw vs) ≡ ok v)
unfolding event_summary
event_summary_takes [] h = absurd (omega arith)
event_summary_takes (a ∷ []) h = absurd (omega arith)
event_summary_takes (a ∷ b ∷ []) h = absurd (omega arith)
event_summary_takes (a ∷ b ∷ c ∷ []) h = absurd (omega arith)
event_summary_takes (a ∷ b ∷ c ∷ d ∷ []) h = absurd (omega arith)
event_summary_takes (a ∷ b ∷ c ∷ d ∷ e ∷ []) h = absurd (omega arith)
event_summary_takes (a ∷ b ∷ c ∷ d ∷ e ∷ f ∷ []) h = absurd (omega arith)
event_summary_takes (a ∷ b ∷ c ∷ d ∷ e ∷ f ∷ g ∷ []) h = (_, refl)
event_summary_takes (a ∷ b ∷ c ∷ d ∷ e ∷ f ∷ g ∷ i ∷ vs) h = absurd (omega arith)

copies-IsReady : (n : ℕ) (fs : Fields) → IsReady fs → IsReadyItems (copies n fs)
unfolding IsReadyItems
copies-IsReady zero fs h = tt
copies-IsReady (suc n) fs h = (h, copies-IsReady n fs h)

jupiter_pv_input_data-IsReady : IsReady jupiter_pv_input_data
unfolding IsReady IsReadySlot jupiter_pv_input_data
jupiter_pv_input_data-IsReady = (
  (to_float-TakesOne, (divide_by-TakesOne 10 refl, tt)),
  (
    (nonzero-TakesOne, tt),
    ((divide_by-TakesOne 10 refl, tt), ((divide_by-TakesOne 10 refl, tt), tt)),
  ),
)

jupiter_runtime_data-IsReady : IsReady jupiter_runtime_data
unfolding IsReady IsReadySlot jupiter_runtime_data
jupiter_runtime_data-IsReady = (
  (to_float-TakesOne, (to_float-TakesOne, tt)),
  (
    (nonzero-TakesOne, tt),
    (
      (nonzero-TakesOne, tt),
      (
        (battery_state-TakesOne, tt),
        (
          (multiply_by-TakesOne (pos 10), (to_float-TakesOne, tt)),
          (
            (to_float-TakesOne, (to_float-TakesOne, tt)),
            (
              (identity-TakesOne, tt),
              (
                (bit-TakesOne 1, tt),
                (
                  (identity-TakesOne, tt),
                  (
                    (identity-TakesOne, tt),
                    ((identity-TakesOne, tt), ((identity-TakesOne, (identity-TakesOne, tt)), tt)),
                  ),
                ),
              ),
            ),
          ),
        ),
      ),
    ),
  ),
)

jupiter_energy_data-IsReady : IsReady jupiter_energy_data
unfolding IsReady IsReadySlot jupiter_energy_data
jupiter_energy_data-IsReady = (
  (divide_by-TakesOne 100 refl, (divide_by-TakesOne 100 refl, tt)),
  (
    (divide_by-TakesOne 100 refl, (divide_by-TakesOne 100 refl, tt)),
    (
      (divide_by-TakesOne 100 refl, (divide_by-TakesOne 100 refl, tt)),
      (
        (divide_by-TakesOne 100 refl, (divide_by-TakesOne 100 refl, tt)),
        (
          (divide_by-TakesOne 100 refl, (divide_by-TakesOne 100 refl, tt)),
          ((divide_by-TakesOne 100 refl, tt), tt),
        ),
      ),
    ),
  ),
)

jupiter_inverter_data-IsReady : IsReady jupiter_inverter_data
unfolding IsReady IsReadySlot jupiter_inverter_data
jupiter_inverter_data-IsReady = (
  (identity-TakesOne, tt),
  (
    (identity-TakesOne, (identity-TakesOne, tt)),
    (
      (identity-TakesOne, tt),
      (
        (divide_by-TakesOne 10 refl, tt),
        (
          (divide_by-TakesOne 10 refl, tt),
          (
            (identity-TakesOne, tt),
            (
              (divide_by-TakesOne 100 refl, tt),
              ((divide_by-TakesOne 10 refl, tt), ((to_float-TakesOne, tt), tt)),
            ),
          ),
        ),
      ),
    ),
  ),
)

jupiter_mppt_data-IsReady : IsReady jupiter_mppt_data
unfolding IsReady IsReadySlot jupiter_mppt_data
jupiter_mppt_data-IsReady = (
  (identity-TakesOne, tt),
  (
    (bit-TakesOne 2, tt),
    (
      (bit-TakesOne 4, tt),
      (
        (bit-TakesOne 5, tt),
        (
          (bit-TakesOne 6, tt),
          (
            (bit-TakesOne 7, tt),
            (
              (identity-TakesOne, tt),
              (
                (to_float-TakesOne, tt),
                (
                  (identity-TakesOne, tt),
                  ((divide_by-TakesOne 10 refl, tt), ((divide_by-TakesOne 10 refl, tt), tt)),
                ),
              ),
            ),
          ),
        ),
      ),
    ),
  ),
)

jupiter_battery_pack_data-IsReady : IsReady jupiter_battery_pack_data
unfolding IsReady IsReadySlot jupiter_battery_pack_data
jupiter_battery_pack_data-IsReady = (
  (identity-TakesOne, tt),
  (
    (identity-TakesOne, tt),
    (
      (divide_by-TakesOne 1000 refl, tt),
      ((divide_by-TakesOne 1000 refl, tt), ((identity-TakesOne, tt), tt)),
    ),
  ),
)

jupiter_event_record-IsReady : IsReady jupiter_event_record
unfolding IsReady IsReadySlot jupiter_event_record
jupiter_event_record-IsReady = (
  (event_summary_takes, tt),
  (
    (identity-TakesOne, tt),
    (
      (identity-TakesOne, tt),
      (
        (identity-TakesOne, tt),
        (
          (identity-TakesOne, tt),
          (
            (identity-TakesOne, tt),
            ((identity-TakesOne, tt), ((identity-TakesOne, tt), ((identity-TakesOne, tt), tt))),
          ),
        ),
      ),
    ),
  ),
)

jupiter_identity_data-IsReady : IsReady jupiter_identity_data
unfolding IsReady IsReadySlot jupiter_identity_data
jupiter_identity_data-IsReady = (tt, (tt, (tt, (tt, tt))))

jupiter_raw_status_data-IsReady : IsReady jupiter_raw_status_data
unfolding IsReady IsReadySlot jupiter_raw_status_data
jupiter_raw_status_data-IsReady =
    ((identity-TakesOne, tt), ((identity-TakesOne, tt), ((identity-TakesOne, tt), tt)))

jupiter_battery_data-IsReady : IsReady jupiter_battery_data
unfolding IsReady IsReadySlot jupiter_battery_data
jupiter_battery_data-IsReady = (
  (divide_by-TakesOne 10 refl, tt),
  (
    (divide_by-TakesOne 10 refl, tt),
    (
      (divide_by-TakesOne 10 refl, tt),
      (
        (divide_by-TakesOne 10 refl, tt),
        (
          (divide_by-TakesOne 10 refl, tt),
          (
            (to_float-TakesOne, tt),
            (
              (to_float-TakesOne, tt),
              (
                (divide_by-TakesOne 100 refl, tt),
                (
                  (divide_by-TakesOne 10 refl, tt),
                  (
                    (divide_by-TakesOne 10 refl, tt),
                    (
                      (identity-TakesOne, tt),
                      (
                        (identity-TakesOne, tt),
                        (
                          (identity-TakesOne, tt),
                          (
                            (identity-TakesOne, tt),
                            (
                              (identity-TakesOne, tt),
                              (
                                (identity-TakesOne, tt),
                                (
                                  (identity-TakesOne, tt),
                                  (
                                    (
                                      refl,
                                      copies-IsReady 4 jupiter_battery_pack_data
                                          jupiter_battery_pack_data-IsReady,
                                    ),
                                    (
                                      (to_float-TakesOne, tt),
                                      (
                                        (to_float-TakesOne, tt),
                                        (
                                          (to_float-TakesOne, tt),
                                          (
                                            (to_float-TakesOne, tt),
                                            (
                                              (to_float-TakesOne, tt),
                                              ((to_float-TakesOne, tt), tt),
                                            ),
                                          ),
                                        ),
                                      ),
                                    ),
                                  ),
                                ),
                              ),
                            ),
                          ),
                        ),
                      ),
                    ),
                  ),
                ),
              ),
            ),
          ),
        ),
      ),
    ),
  ),
)

-- Every converter of a new Jupiter instance suits its format, and its lists have their fixed
-- number of items.
pub jupiter_data-IsReady : IsReady jupiter_data
unfolding IsReady IsReadySlot jupiter_data
jupiter_data-IsReady = (
  jupiter_runtime_data-IsReady,
  (
    jupiter_energy_data-IsReady,
    (
      jupiter_inverter_data-IsReady,
      (
        jupiter_mppt_data-IsReady,
        (
          (refl, copies-IsReady 4 jupiter_pv_input_data jupiter_pv_input_data-IsReady),
          (
            jupiter_battery_data-IsReady,
            (
              (refl, copies-IsReady 20 jupiter_event_record jupiter_event_record-IsReady),
              (jupiter_identity_data-IsReady, (jupiter_raw_status_data-IsReady, tt)),
            ),
          ),
        ),
      ),
    ),
  ),
)
