-- ===== src/Venus/Notification.antt =====
-- The notifications of a Venus device under product_runtime.py and under marstek_device.py.
use ha_marstek_ble.Prelude.{
  ℕ, String, ◌≡◌, refl, sym, ap, ◌∙◌, Bool, false, inl, inr, none, some, List, [], ◌∷◌, ◌==◌,
  ==_iff, Bool-cases, subst,
}
use ha_marstek_ble.Struct.{Bytes}
use ha_marstek_ble.Result.{Result, ok, err}
use ha_marstek_ble.Frame.{Checked, accepted, refused, check_frame}
use ha_marstek_ble.Schema.Tree.{Fields, DataPath}
use ha_marstek_ble.Marstek.{MarstekData, Updates, new_data}
use ha_marstek_ble.Marstek.Cells.{HasCells}
use ha_marstek_ble.Marstek.KeptTexts.{parse_notification-HasCells}
use ha_marstek_ble.Marstek.Notification.{dispatch, outcome}
use ha_marstek_ble.Marstek.Notification as Marstek
use ha_marstek_ble.ProductRuntime as ProductRuntime
use ha_marstek_ble.ProductRuntime.{
  Parsed, ProductData, packet_of, parser_of, parse_payload, create_data, noted, receive,
}
use ha_marstek_ble.Venus.{venus_data}
use ha_marstek_ble.Venus.Runtime.{venus_runtime, venus_profile}
use ha_marstek_ble.Venus.Compat.{shown}
use ha_marstek_ble.Venus.Replacement.{
  seen, product, runtime_replaced, device_replaced, ssid_replaced, system_replaced, timer_replaced,
  bms_replaced, config_replaced, meter_replaced, rate_replaced, network_replaced, api_replaced,
}

-- A command that a Venus device has no parser for.
unknown_replaced :
    (cmd : ℕ) (payload : Bytes) (timestamp : ℕ) (d : MarstekData)
    → (cmd == 0x03) ≡ false
    → (cmd == 0x04) ≡ false
    → (cmd == 0x08) ≡ false
    → (cmd == 0x0D) ≡ false
    → (cmd == 0x13) ≡ false
    → (cmd == 0x14) ≡ false
    → (cmd == 0x1A) ≡ false
    → (cmd == 0x21) ≡ false
    → (cmd == 0x22) ≡ false
    → (cmd == 0x24) ≡ false
    → (cmd == 0x28) ≡ false
    → product payload timestamp d cmd ≡ shown (dispatch cmd payload timestamp d)
unfolding parse_payload venus_runtime packet_of parser_of dispatch
unknown_replaced cmd payload timestamp d a b c e f g h i j k l =
    rw (a, b, c, e, f, g, h, i, j, k, l)

-- A payload does the same to the instance and to the data: the same Boolean and the same values.
pub payload_replaced :
    (cmd : ℕ) (payload : Bytes) (timestamp : ℕ) (d : MarstekData)
    → HasCells d
    → product payload timestamp d cmd ≡ shown (dispatch cmd payload timestamp d)
unfolding dispatch
payload_replaced cmd payload timestamp d cells = elim (Bool-cases (cmd == 0x03)) [
  | inl t ↦
      subst (λ m. product payload timestamp d m ≡ shown (dispatch m payload timestamp d))
        (sym ((==_iff cmd 0x03).0 t)) (runtime_replaced payload timestamp d)
  | inr a ↦ elim (Bool-cases (cmd == 0x04)) [
    | inl t ↦
        subst (λ m. product payload timestamp d m ≡ shown (dispatch m payload timestamp d))
          (sym ((==_iff cmd 0x04).0 t)) (device_replaced payload timestamp d)
    | inr b ↦ elim (Bool-cases (cmd == 0x08)) [
      | inl t ↦
          subst (λ m. product payload timestamp d m ≡ shown (dispatch m payload timestamp d))
            (sym ((==_iff cmd 0x08).0 t)) (ssid_replaced payload timestamp d)
      | inr c ↦ elim (Bool-cases (cmd == 0x0D)) [
        | inl t ↦
            subst (λ m. product payload timestamp d m ≡ shown (dispatch m payload timestamp d))
              (sym ((==_iff cmd 0x0D).0 t)) (system_replaced payload timestamp d)
        | inr e ↦ elim (Bool-cases (cmd == 0x13)) [
          | inl t ↦
              subst (λ m. product payload timestamp d m ≡ shown (dispatch m payload timestamp d))
                (sym ((==_iff cmd 0x13).0 t)) (timer_replaced payload timestamp d)
          | inr f ↦ elim (Bool-cases (cmd == 0x14)) [
            | inl t ↦
                subst (λ m. product payload timestamp d m ≡ shown (dispatch m payload timestamp d))
                  (sym ((==_iff cmd 0x14).0 t)) (bms_replaced payload timestamp d cells)
            | inr g ↦ elim (Bool-cases (cmd == 0x1A)) [
              | inl t ↦
                  subst
                    (λ m. product payload timestamp d m ≡ shown (dispatch m payload timestamp d))
                    (sym ((==_iff cmd 0x1A).0 t)) (config_replaced payload timestamp d)
              | inr h ↦ elim (Bool-cases (cmd == 0x21)) [
                | inl t ↦
                    subst
                      (λ m. product payload timestamp d m ≡ shown (dispatch m payload timestamp d))
                      (sym ((==_iff cmd 0x21).0 t)) (meter_replaced payload timestamp d)
                | inr i ↦ elim (Bool-cases (cmd == 0x22)) [
                  | inl t ↦
                      subst
                        (λ m.
                          product payload timestamp d m ≡ shown (dispatch m payload timestamp d))
                        (sym ((==_iff cmd 0x22).0 t)) (rate_replaced payload timestamp d)
                  | inr j ↦ elim (Bool-cases (cmd == 0x24)) [
                    | inl t ↦
                        subst
                          (λ m.
                            product payload timestamp d m ≡ shown (dispatch m payload timestamp d))
                          (sym ((==_iff cmd 0x24).0 t)) (network_replaced payload timestamp d)
                    | inr k ↦ elim (Bool-cases (cmd == 0x28)) [
                      | inl t ↦
                          subst
                            (λ m.
                              product payload timestamp d m
                              ≡ shown (dispatch m payload timestamp d))
                            (sym ((==_iff cmd 0x28).0 t)) (api_replaced payload timestamp d)
                      | inr l ↦ unknown_replaced cmd payload timestamp d a b c e f g h i j k l
                    ]
                  ]
                ]
              ]
            ]
          ]
        ]
      ]
    ]
  ]
]

-- What a caller sees of a notification's effect: the Boolean and the values.
abbrev pub values : Bool × ProductData → Bool × Fields
values (b, d) = (b, d.fields)

abbrev pub legacy_values : Bool × MarstekData → Bool × Fields
legacy_values (b, d) = (b, venus_data d)

noted-values :
    (aliases : DataPath → List String) (command : ℕ) (payload : Bytes) (timestamp : ℕ)
    (updates : Updates) (p : Parsed)
    → values (noted aliases command payload timestamp updates p) ≡ seen p
noted-values aliases command payload timestamp updates (ok none, fs) = refl
noted-values aliases command payload timestamp updates (ok (some paths), fs) = refl
noted-values aliases command payload timestamp updates (err e, fs) = refl

outcome-values : (r : Result Bool × MarstekData) → legacy_values (outcome r) ≡ shown r
outcome-values (ok b, d) = refl
outcome-values (err e, d) = refl

-- For every sequence of bytes and data with 16 cell voltages, `ProductProtocol.parse_notification`
-- on a Venus device returns what `MarstekProtocol.parse_notification` returns, and leaves in the
-- product's data the values that the other leaves in `MarstekData`.
pub notification_replaced :
    (frame : Bytes) (timestamp : ℕ) (d : MarstekData) (updates : Updates)
    → HasCells d
    → values (
        ProductRuntime.parse_notification venus_runtime frame timestamp
          (record { fields = venus_data d; field_updates = updates }))
      ≡ legacy_values (Marstek.parse_notification frame timestamp d)
unfolding ProductRuntime.parse_notification Marstek.parse_notification
notification_replaced frame timestamp d updates cells = same (check_frame frame)
  where
    same :
        (c : Checked)
        → values (
            ProductRuntime.parse_checked venus_runtime c timestamp
              (record { fields = venus_data d; field_updates = updates }))
          ≡ legacy_values (Marstek.parse_checked c timestamp d)
    same (refused r) = refl
    same (accepted command payload) =
        noted-values venus_runtime.profile.aliases command payload timestamp updates
          (parse_payload venus_runtime command payload (venus_data d))
        ∙ payload_replaced command payload timestamp d cells
        ∙ sym (outcome-values (dispatch command payload timestamp d))

-- The notifications of a connection in the order of their arrival, each with its clock reading.
unfoldable pub receive_legacy : List (Bytes × ℕ) → MarstekData → MarstekData
receive_legacy [] d = d
receive_legacy ((frame, timestamp) ∷ rest) d =
    receive_legacy rest (Marstek.parse_notification frame timestamp d).1

stream_same :
    (frames : List (Bytes × ℕ)) (p : ProductData) (d : MarstekData)
    → p.fields ≡ venus_data d
    → HasCells d
    → (receive venus_runtime frames p).fields ≡ venus_data (receive_legacy frames d)
unfolding receive receive_legacy
stream_same [] p d e cells = e
stream_same ((frame, timestamp) ∷ rest) p d e cells =
    stream_same rest (ProductRuntime.parse_notification venus_runtime frame timestamp p).1
      (Marstek.parse_notification frame timestamp d).1
      (ap
          (λ fs.
            (ProductRuntime.parse_notification venus_runtime frame timestamp
              (record { fields = fs; field_updates = p.field_updates })).1.fields)
          e
        ∙ ap (λ r. r.1) (notification_replaced frame timestamp d p.field_updates cells))
      (parse_notification-HasCells frame timestamp d cells)

-- From the data that `create_data` makes, any sequence of received byte strings leaves in a Venus
-- product's data the values that it leaves in a new `MarstekData`.
pub stream_replaced :
    (frames : List (Bytes × ℕ))
    → (receive venus_runtime frames (create_data venus_runtime)).fields
      ≡ venus_data (receive_legacy frames new_data)
unfolding venus_runtime venus_profile
stream_replaced frames = stream_same frames (create_data venus_runtime) new_data refl refl
