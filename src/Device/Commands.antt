-- ===== src/Device/Commands.antt =====
-- The connection and the commands of `MarstekBLEDevice` in
-- custom_components/marstek_ble/marstek_device.py.
use Prim.Native.String.{◌++◌ as str_append}
use ha_marstek_ble.Prelude.{
  ℕ, suc, String, Bool, true, false, not, ◌&&◌, Option, none, some, List, [], ◌∷◌, if◌then◌else◌,
}
use ha_marstek_ble.Struct.{Bytes}
use ha_marstek_ble.Result.{Result, ok, err}
use ha_marstek_ble.Frame.{build_command}
use ha_marstek_ble.Device.{Device, record_command_result, record_notification}

-- What happens to a device from outside: a notification, the end of a link, and the callback that
-- reports it.
pub data Event : Type 0 where
  notified : ℕ → ℕ → Bytes → Bool → Event
  lost disconnected : Event

-- `_on_disconnect`
abbrev pub on_disconnect : Device → Device
on_disconnect d = record d {
  expected_disconnect = false;
  client = none;
  notifications_started = false;
}

abbrev pub drop_link : Option Bool → Option Bool
drop_link none = none
drop_link (some connected) = some false

unfoldable pub happen : Event → Device → Device
unfolding record_notification
happen (notified timestamp sender frame parsed) d =
    record_notification timestamp sender frame parsed d
happen lost d = record d { client = drop_link d.client }
happen disconnected d = on_disconnect d

unfoldable pub happen_all : List Event → Device → Device
unfolding happen
happen_all [] d = d
happen_all (e ∷ events) d = happen_all events (happen e d)

-- The answers of the Bluetooth library to one attempt, exceptions by their text, what arrives while
-- the attempt waits for its response, and the clock.
pub record Attempt : Type 0 where
  pub has_ble_device : Bool
  pub establish_connection : Option String
  pub start_notify : Option String
  pub connected_after_failure : Bool
  pub write_gatt_char : Option String
  pub arrivals : List Event
  pub wall_time : ℕ

abbrev pub is_connected : Option Bool → Bool
is_connected none = false
is_connected (some connected) = connected

-- The `except` of `_ensure_connected`: a partial connection is closed.
abbrev pub abandon : Bool → Device → Device
abandon connected d =
    let closed : Device = record d { client = none; notifications_started = false } in
    if connected then record closed { expected_disconnect = false } else closed

abbrev pub notify : Option String → Bool → Device → Option String × Device
notify none connected d = (none, record d { notifications_started = true })
notify (some e) connected d = (some e, abandon connected d)

abbrev pub establish : Option String → Option String → Bool → Device → Option String × Device
establish (some e) start connected d = (some e, abandon (is_connected d.client) d)
establish none start connected d =
    let linked : Device = record d { client = some true } in
    if d.has_notification_callback && not d.notifications_started
    then notify start connected linked
    else (none, linked)

-- `_ensure_connected`, with the text of the exception that it raises.
unfoldable pub ensure_connected : Attempt → Device → Option String × Device
ensure_connected a d =
    if is_connected d.client
    then (none, d)
    else if not a.has_ble_device
    then (
      some (str_append d.name ": No connectable BLE device available to establish connection"),
      d,
    )
    else establish a.establish_connection a.start_notify a.connected_after_failure d

pub data Tried : Type 0 where
  received no_response : Tried
  raised : String → Tried

-- The `except` of `send_command`: the next attempt connects again.
abbrev pub reconnect : Option Bool → Device → Device
reconnect none d = d
reconnect (some connected) d = record d {
  expected_disconnect = false;
  client = none;
  notifications_started = false;
}

abbrev pub fail_attempt : String → Device → Tried × Device
fail_attempt e d =
    (raised e, reconnect d.client (record d { pending_command = none; response_event = none }))

abbrev pub is_set : Option Bool → Bool
is_set none = false
is_set (some set) = set

abbrev pub wait : Attempt → Device → Tried × Device
wait a d =
    let d' = happen_all a.arrivals d in
    (
      if is_set d'.response_event then received else no_response,
      record d' { pending_command = none; response_event = none },
    )

abbrev pub write : Option String → Attempt → Device → Tried × Device
write (some e) a d = fail_attempt e d
write none a d = wait a (record d { last_command_time = some a.wall_time; disconnect_timer = true })

abbrev pub transmit : ℕ → Attempt → Option String × Device → Tried × Device
transmit cmd a (some e, d) = fail_attempt e d
transmit cmd a (none, d) =
    write a.write_gatt_char a
      (record d { pending_command = some cmd; response_event = some false; response_data = none })

-- One round of the loop of `send_command`.
unfoldable pub attempt_command : ℕ → Attempt → Device → Tried × Device
unfolding ensure_connected happen_all
attempt_command cmd a d = transmit cmd a (ensure_connected a d)

-- The rest of the loop after this attempt, by its outcome.
abbrev pub proceed :
    (Option String → Device → Bool × Device)
    → (Device → Device)
    → Option String
    → Tried × Device
    → Bool × Device
proceed again succeed last_error (received, d) = (true, succeed d)
proceed again succeed last_error (no_response, d) = again (some "no_response") d
proceed again succeed last_error (raised e, d) = again (some e) d

-- The loop, `made` attempts being behind it; `now` is the clock when the result is recorded.
unfoldable pub attempts : ℕ → ℕ → Bytes → List Attempt → ℕ → Option String → Device → Bool × Device
unfolding attempt_command record_command_result
attempts now cmd frame [] made last_error d =
    (false, record_command_result now cmd frame made false last_error d)
attempts now cmd frame (a ∷ script) made last_error d =
    proceed (attempts now cmd frame script (suc made))
      (record_command_result now cmd frame (suc made) true none) last_error
      (attempt_command cmd a d)

abbrev pub sent : Result Bytes → (Bytes → Bool × Device) → Device → Result Bool × Device
sent (err e) send d = (err e, d)
sent (ok frame) send d = let (b, d') = send frame in (ok b, d')

-- `send_command`; the script has one entry for each of the `retry` attempts.
unfoldable pub send_command : ℕ → ℕ → Bytes → List Attempt → Device → Result Bool × Device
unfolding build_command attempts
send_command now cmd payload script d =
    sent (build_command cmd payload) (λ frame. attempts now cmd frame script 0 none d) d

-- `_execute_disconnect`, when the inactivity timer fires.
unfoldable pub execute_disconnect : Device → Device
execute_disconnect d =
    record (if is_connected d.client then record d { expected_disconnect = true } else d) {
      disconnect_timer = false;
    }

-- `disconnect`
unfoldable pub disconnect : Device → Device
disconnect d =
    if is_connected d.client
    then (record d {
      disconnect_timer = false;
      notifications_started = false;
      expected_disconnect = true;
      client = none;
    })
    else record d { disconnect_timer = false; client = none }
