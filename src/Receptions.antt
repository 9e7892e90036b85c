-- ===== src/Receptions.antt =====
-- Uses of the theorems on both products at concrete notifications.
use ha_marstek_ble.Prelude.{
  ◌+◌, ◌≡◌, ◌↔◌, refl, true, false, some, List, [], ◌∷◌, ◌++◌, fits, if◌then◌else◌,
}
use ha_marstek_ble.Struct.{Bytes, codes}
use ha_marstek_ble.Frame.{check_frame, xor_from, accepted}
use ha_marstek_ble.ProductRuntime.{
  create_data, receive, parse_notification, parse_payload, packet_of, path_key, matches_name,
}
use ha_marstek_ble.ProductRuntime.Accepts.{IsExpected}
use ha_marstek_ble.Venus.Runtime.{venus_runtime}
use ha_marstek_ble.Venus.Accepts.{venus_accepted_iff_IsExpected}
use ha_marstek_ble.Jupiter.Runtime.{jupiter_runtime, jupiter_profile, path_in}
use ha_marstek_ble.Jupiter.Accepts.{jupiter_accepted_iff_IsExpected}
use ha_marstek_ble.Jupiter.Atomic.{jupiter_rejected_unchanged}
use ha_marstek_ble.ProductRuntime.Metadata.{
  get_field_metadata, metadata_of, names_path, get_field_metadata-parse_notification,
}
use ha_marstek_ble.Schema.Tree.{Fields, DataPath}
use ha_marstek_ble.Marstek.{hex_or_none}
use ha_marstek_ble.Result.{ok}
use ha_marstek_ble.Schema.{validate_payload}
use ha_marstek_ble.Jupiter.{device_information}
use ha_marstek_ble.Device.{Device, new_device}
use ha_marstek_ble.ProductCoordinator.{Notice}
use ha_marstek_ble.ProductCoordinator.Notices.{
  coordinator_before, coordinator_after, last_entry, last_parsed, expected_handled,
  unexpected_handled,
}
use ha_marstek_ble.Products.{runtime_for_id, runtime_for_name, registry_finds}

-- A response to command 0x22 with the value 2: a Venus product's polling rate, which is one byte
-- for a Jupiter product as well.
abbrev rate_frame : Bytes
rate_frame = 0x73 ∷ 6 ∷ 0x23 ∷ 0x22 ∷ 2 ∷ 118 ∷ []

-- A response to command 0x04 with the text "type=B,id=7".
abbrev device_frame : Bytes
device_frame = 0x73 ∷ 16 ∷ 0x23 ∷ 0x04 ∷ codes "type=B,id=7" ++ 0x08 ∷ []

-- The same with another check byte.
abbrev broken_frame : Bytes
broken_frame = 0x73 ∷ 16 ∷ 0x23 ∷ 0x04 ∷ codes "type=B,id=7" ++ 0x09 ∷ []

venus_accepted_iff_IsExpected_example :
    ((parse_notification venus_runtime rate_frame 3 (
        receive venus_runtime
          ((device_frame, 1) ∷ (broken_frame, 2) ∷ [])
          (create_data venus_runtime))).0
      ≡ true)
    ↔ IsExpected venus_runtime rate_frame
venus_accepted_iff_IsExpected_example =
    venus_accepted_iff_IsExpected ((device_frame, 1) ∷ (broken_frame, 2) ∷ []) rate_frame 3

jupiter_accepted_iff_IsExpected_example :
    ((parse_notification jupiter_runtime device_frame 3 (
        receive jupiter_runtime
          ((rate_frame, 1) ∷ (broken_frame, 2) ∷ [])
          (create_data jupiter_runtime))).0
      ≡ true)
    ↔ IsExpected jupiter_runtime device_frame
jupiter_accepted_iff_IsExpected_example =
    jupiter_accepted_iff_IsExpected ((rate_frame, 1) ∷ (broken_frame, 2) ∷ []) device_frame 3

broken_refused :
    (parse_notification jupiter_runtime broken_frame 3 (create_data jupiter_runtime)).0 ≡ false
unfolding parse_notification check_frame xor_from
broken_refused = refl

jupiter_rejected_unchanged_example :
    (parse_notification jupiter_runtime broken_frame 3 (create_data jupiter_runtime)).1
    ≡ create_data jupiter_runtime
jupiter_rejected_unchanged_example =
    jupiter_rejected_unchanged broken_frame 3 (create_data jupiter_runtime) broken_refused

-- A device frame is one that a Jupiter product accepts.
device_accepted :
    (parse_notification jupiter_runtime device_frame 3 (create_data jupiter_runtime)).0 ≡ true
unfolding parse_notification parse_payload jupiter_runtime check_frame xor_from fits
device_accepted = refl

name_matches : matches_name jupiter_runtime (some "MST_JPLS_0a1b") ≡ true
unfolding matches_name jupiter_runtime jupiter_profile
name_matches = refl

registry_finds_example :
    (runtime_for_id jupiter_runtime.profile.product_id ≡ some jupiter_runtime)
    × (runtime_for_name (some "MST_JPLS_0a1b") ≡ some jupiter_runtime)
registry_finds_example = registry_finds 1 jupiter_runtime (some "MST_JPLS_0a1b") refl name_matches

abbrev device_text : Bytes
device_text = codes "type=B,id=7"

abbrev device_paths : List DataPath
device_paths = path_in "identity" "device_type" ∷ path_in "identity" "device_id" ∷ []

abbrev device_fields : Fields
device_fields =
    (parse_payload jupiter_runtime 0x04 device_text (create_data jupiter_runtime).fields).1

device_checked : check_frame device_frame ≡ accepted 0x04 device_text
unfolding check_frame xor_from
device_checked = refl

device_parsed :
    parse_payload jupiter_runtime 0x04 device_text (create_data jupiter_runtime).fields
    ≡ (ok (some device_paths), device_fields)
unfolding parse_payload jupiter_runtime fits
device_parsed = refl

get_field_metadata-parse_notification_example :
    get_field_metadata
      (λ t. "then")
      1500
      "identity.device_type"
      (parse_notification jupiter_runtime device_frame 1000 (create_data jupiter_runtime)).1
    ≡ (if names_path jupiter_runtime.profile.aliases "identity.device_type" device_paths
        then metadata_of
            (λ t. "then")
            1500
            (some
              (record { command = 0x04; timestamp = 1000; payload_hex = hex_or_none device_text }))
        else get_field_metadata
            (λ t. "then")
            1500
            "identity.device_type"
            (create_data jupiter_runtime))
get_field_metadata-parse_notification_example =
    get_field_metadata-parse_notification (λ t. "then") 1500 "identity.device_type" jupiter_runtime
      device_frame 1000 (create_data jupiter_runtime) 0x04 device_text device_paths device_fields
      device_checked device_parsed

-- The key is one of a path that the frame updates.
device_type_named :
    names_path jupiter_runtime.profile.aliases "identity.device_type" device_paths ≡ true
unfolding jupiter_runtime jupiter_profile path_key
device_type_named = refl

abbrev history : List Notice
history = (1000, 1001, 2, rate_frame) ∷ (2000, 2001, 2, broken_frame) ∷ []

abbrev device : Device
device = new_device "Jupiter" true

device_frame-IsExpected : IsExpected jupiter_runtime device_frame
unfolding check_frame xor_from packet_of validate_payload fits jupiter_runtime jupiter_profile
device_frame-IsExpected = (device_information, refl, refl)

broken_frame_unexpected : ¬ IsExpected jupiter_runtime broken_frame
unfolding check_frame xor_from
broken_frame_unexpected e = e

expected_handled_example :
    ((coordinator_after 1 jupiter_runtime device history 3000 3001 2 device_frame).listener_updates
      ≡ (coordinator_before 1 jupiter_runtime device history 3000 3001 2
          device_frame).listener_updates
        + 1)
    × (last_parsed (
          last_entry
            (coordinator_after 1 jupiter_runtime device history 3000 3001 2
              device_frame).device.notification_history)
        ≡ some true)
expected_handled_example =
    expected_handled 1 jupiter_runtime device history 3000 3001 2 device_frame refl
      device_frame-IsExpected

unexpected_handled_example :
    ((coordinator_after 1 jupiter_runtime device history 3000 3001 2 broken_frame).product_data
      ≡ (coordinator_before 1 jupiter_runtime device history 3000 3001 2 broken_frame).product_data)
    × ((coordinator_after 1 jupiter_runtime device history 3000 3001 2
          broken_frame).listener_updates
        ≡ (coordinator_before 1 jupiter_runtime device history 3000 3001 2
            broken_frame).listener_updates)
    × (last_parsed (
          last_entry
            (coordinator_after 1 jupiter_runtime device history 3000 3001 2
              broken_frame).device.notification_history)
        ≡ some false)
unexpected_handled_example =
    unexpected_handled 1 jupiter_runtime device history 3000 3001 2 broken_frame refl
      broken_frame_unexpected
