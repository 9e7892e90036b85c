-- ===== src/Tests.antt =====
-- Uses of the theorems at concrete inputs: frames of a Venus device, a telemetry instance, a
-- polling state and a device with a short script.
use ha_marstek_ble.Prelude.{ℕ, ◌≡◌, ◌+◌, refl, inl, fits, none, [], ◌∷◌, length, pos, arith}
use ha_marstek_ble.Struct.{Bytes}
use ha_marstek_ble.Result.{value_error, ok, err}
use ha_marstek_ble.Converter.{Value, null, int, identity}
use ha_marstek_ble.Frame.{Refusal, IsBytes, accepted, refused, build_command, check_frame, xor_from}
use ha_marstek_ble.Frame.Build.{
  check_frame-build_command, build_command-check_frame, build_command_total, build_command_error,
}
use ha_marstek_ble.Frame.Corruption.{check_frame_detects}
use ha_marstek_ble.Schema.{FieldSource, validate_payload}
use ha_marstek_ble.Schema.Tree.{Fields, end, field, leaf, parse_into}
use ha_marstek_ble.Schema.OnePass.{decode, parse_into-eq-decode}
use ha_marstek_ble.Schema.Total.{Converts, IsReady, parse_into_total}
use ha_marstek_ble.Schema.Stable.{shape, parse_into_again, shape-parse_into}
use ha_marstek_ble.Marstek.{new_data}
use ha_marstek_ble.Marstek.Numeric.{u8}
use ha_marstek_ble.Marstek.Notification as Marstek
use ha_marstek_ble.ProductRuntime as ProductRuntime
use ha_marstek_ble.ProductRuntime.{PollCommand, ProductData, create_data, receive}
use ha_marstek_ble.Venus.{venus_data, ct_polling_rate}
use ha_marstek_ble.Venus.Runtime.{venus_runtime}
use ha_marstek_ble.Venus.Notification.{
  values, legacy_values, receive_legacy, notification_replaced, stream_replaced,
}

-- A response to command 0x22 with the value 2, and one with the system data.
abbrev rate_frame : Bytes
rate_frame = 0x73 ∷ 6 ∷ 0x23 ∷ 0x22 ∷ 2 ∷ 118 ∷ []

abbrev system_frame : Bytes
system_frame = 0x73 ∷ 16 ∷ 0x23 ∷ 0x0D ∷ 1 ∷ 2 ∷ 0 ∷ 3 ∷ 0 ∷ 4 ∷ 0 ∷ 5 ∷ 0 ∷ 6 ∷ 0 ∷ 74 ∷ []

stream_replaced_example :
    (receive venus_runtime
      ((system_frame, 1) ∷ (rate_frame, 2) ∷ [])
      (create_data venus_runtime)).fields
    ≡ venus_data (receive_legacy ((system_frame, 1) ∷ (rate_frame, 2) ∷ []) new_data)
stream_replaced_example = stream_replaced ((system_frame, 1) ∷ (rate_frame, 2) ∷ [])

notification_replaced_example :
    values (
      ProductRuntime.parse_notification venus_runtime rate_frame 7
        (record { fields = venus_data new_data; field_updates = [] }))
    ≡ legacy_values (Marstek.parse_notification rate_frame 7 new_data)
notification_replaced_example = notification_replaced rate_frame 7 new_data [] refl

rate_built : build_command 0x22 (2 ∷ []) ≡ ok rate_frame
unfolding build_command xor_from
rate_built = refl

rate_accepted : check_frame rate_frame ≡ accepted 0x22 (2 ∷ [])
unfolding check_frame xor_from
rate_accepted = refl

check_frame-build_command_example : check_frame rate_frame ≡ accepted 0x22 (2 ∷ [])
check_frame-build_command_example = check_frame-build_command 0x22 (2 ∷ []) rate_frame rate_built

rate_IsBytes : IsBytes rate_frame
rate_IsBytes =
    (omega arith, (omega arith, (omega arith, (omega arith, (omega arith, (omega arith, tt))))))

build_command-check_frame_example : build_command 0x22 (2 ∷ []) ≡ ok rate_frame
build_command-check_frame_example =
    build_command-check_frame rate_frame 0x22 (2 ∷ []) rate_IsBytes rate_accepted

build_command_total_example :
    (frame : Bytes) × (build_command 0x22 (2 ∷ []) ≡ ok frame)
    × (length frame ≡ length {A = ℕ} (2 ∷ []) + 5)
    × (check_frame frame ≡ accepted 0x22 (2 ∷ []))
build_command_total_example = build_command_total 0x22 (2 ∷ []) (omega arith) (omega arith)

build_command_error_example : build_command 0x122 (2 ∷ []) ≡ err value_error
build_command_error_example = build_command_error 0x122 (2 ∷ []) (inl (omega arith))

check_frame_detects_example :
    (r : Refusal) × (check_frame (0x73 ∷ 6 ∷ 0x23 ∷ 0x22 ∷ 3 ∷ 118 ∷ []) ≡ refused r)
check_frame_detects_example =
    check_frame_detects (0x73 ∷ 6 ∷ 0x23 ∷ 0x22 ∷ []) 2 3 (118 ∷ []) rate_accepted
      (λ e. absurd (omega (arith, e)))

-- An instance with one field, which command 0x22 supplies.
abbrev rate_source : FieldSource
rate_source = record {
  offset = 0;
  format = u8;
  converter = identity;
  minimum_length = none;
  maximum_length = none;
}

abbrev rate_fields : Value → Fields
rate_fields v = field (leaf "ct_polling_rate" ((ct_polling_rate, rate_source) ∷ []) v) end

parse_into-eq-decode_example :
    parse_into (2 ∷ []) ct_polling_rate (rate_fields null)
    ≡ decode (2 ∷ []) ct_polling_rate (rate_fields null)
parse_into-eq-decode_example = parse_into-eq-decode (2 ∷ []) ct_polling_rate (rate_fields null)

rate_parsed :
    parse_into (2 ∷ []) ct_polling_rate (rate_fields null) ≡ ok (rate_fields (int (pos 2)))
unfolding decode fits
rate_parsed = parse_into-eq-decode (2 ∷ []) ct_polling_rate (rate_fields null)

parse_into_again_example :
    parse_into (2 ∷ []) ct_polling_rate (rate_fields (int (pos 2))) ≡ ok (rate_fields (int (pos 2)))
parse_into_again_example =
    parse_into_again (2 ∷ []) ct_polling_rate (rate_fields null) (rate_fields (int (pos 2)))
      rate_parsed

shape-parse_into_example : shape (rate_fields (int (pos 2))) ≡ shape (rate_fields null)
shape-parse_into_example =
    shape-parse_into (2 ∷ []) ct_polling_rate (rate_fields null) (rate_fields (int (pos 2)))
      rate_parsed

rate_Converts : Converts rate_source
rate_Converts [] h = absurd (omega arith)
rate_Converts (v ∷ []) h = (int v, refl)
rate_Converts (v ∷ w ∷ vs) h = absurd (omega arith)

rate_IsReady : IsReady (rate_fields null)
unfolding IsReady
rate_IsReady = ((rate_Converts, tt), tt)

parse_into_total_example :
    (fs : Fields) × (parse_into (2 ∷ []) ct_polling_rate (rate_fields null) ≡ ok fs)
unfolding validate_payload fits
parse_into_total_example =
    parse_into_total (2 ∷ []) ct_polling_rate (rate_fields null) rate_IsReady refl
