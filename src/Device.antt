-- ===== src/Device.antt =====
-- `MarstekBLEDevice` of custom_components/marstek_ble/marstek_device.py: the connection, the
-- commands with their retries, and the statistics. What the Bluetooth library answers, and what
-- arrives while a command waits, is the script of an attempt; a clock reading is in milliseconds.
pub mod Commands
pub mod Kept
pub mod Counts
pub mod Tally
pub mod Reach
pub mod Response
use text.Mathlib.Text.{◌==◌ as str_eq}
use ha_marstek_ble.Prelude.{
  ℕ, zero, suc, ◌+◌, ◌-◌, String, Bool, true, false, not, ◌&&◌, Option, none, some, List, [], ◌∷◌,
  ◌++◌, length, drop, get_elem?, ltb, ◌==◌, if◌then◌else◌,
}
use ha_marstek_ble.Struct.{Bytes, slice}
use ha_marstek_ble.Result.{Error, Result, ok, err}
use ha_marstek_ble.Frame.{build_command}
use ha_marstek_ble.Marstek.{hex}

-- An entry of `_command_history`; `response` is "received", "no_response" or "error".
pub record CommandEntry : Type 0 where
  pub timestamp : ℕ
  pub command : ℕ
  pub payload_hex : List ℕ
  pub frame_hex : List ℕ
  pub attempts : ℕ
  pub success : Bool
  pub error : Option String
  pub response : String

-- An entry of `_notification_history`.
pub record NotificationEntry : Type 0 where
  pub timestamp : ℕ
  pub sender : ℕ
  pub command : Option ℕ
  pub frame_hex : List ℕ
  pub payload_hex : List ℕ
  pub parsed : Bool

-- A value of `_command_stats`.
pub record Stats : Type 0 where
  pub sent : ℕ
  pub success : ℕ
  pub failure : ℕ
  pub last_success : Option ℕ
  pub last_failure : Option ℕ
  pub last_error : Option String
  pub last_notification : Option ℕ
  pub last_notification_hex : Option (List ℕ)

abbrev pub new_stats : Stats
new_stats = record {
  sent = 0;
  success = 0;
  failure = 0;
  last_success = none;
  last_failure = none;
  last_error = none;
  last_notification = none;
  last_notification_hex = none;
}

-- `client` holds the client's `is_connected`, `disconnect_timer` whether a timer is set and
-- `response_event` whether the event is set.
pub record Device : Type 0 where
  pub name : String
  pub has_notification_callback : Bool
  pub client : Option Bool
  pub notifications_started : Bool
  pub expected_disconnect : Bool
  pub disconnect_timer : Bool
  pub command_history : List CommandEntry
  pub notification_history : List NotificationEntry
  pub command_stats : List (ℕ × Stats)
  pub total_commands_sent : ℕ
  pub total_commands_success : ℕ
  pub total_commands_failure : ℕ
  pub last_command_time : Option ℕ
  pub last_command_error : Option String
  pub pending_command : Option ℕ
  pub response_event : Option Bool
  pub response_data : Option Bytes

-- `__init__`
abbrev pub new_device : String → Bool → Device
new_device name has_notification_callback = record {
  name = name;
  has_notification_callback = has_notification_callback;
  client = none;
  notifications_started = false;
  expected_disconnect = false;
  disconnect_timer = false;
  command_history = [];
  notification_history = [];
  command_stats = [];
  total_commands_sent = 0;
  total_commands_success = 0;
  total_commands_failure = 0;
  last_command_time = none;
  last_command_error = none;
  pending_command = none;
  response_event = none;
  response_data = none;
}

-- `append` of a `deque` with `maxlen=25`.
unfoldable pub append {ℓ} : {A : Type ℓ} → List A → A → List A
append history entry = drop (length history + 1 - 25) (history ++ entry ∷ [])

-- `_command_stats[command]` is changed; a missing entry is new.
unfoldable pub change_stats : ℕ → (Stats → Stats) → List (ℕ × Stats) → List (ℕ × Stats)
change_stats command f [] = (command, f new_stats) ∷ []
change_stats command f ((key, stats) ∷ rest) =
    if key == command then (key, f stats) ∷ rest else (key, stats) ∷ change_stats command f rest

abbrev pub succeeded : ℕ → Stats → Stats
succeeded timestamp s = record s {
  sent = suc s.sent;
  success = suc s.success;
  last_success = some timestamp;
}

abbrev pub failed : ℕ → Option String → Stats → Stats
failed timestamp error s = record s {
  sent = suc s.sent;
  failure = suc s.failure;
  last_failure = some timestamp;
  last_error = error;
}

-- `data[4:-1] if len(data) > 5 else b""`
abbrev payload_of : Bytes → Bytes
payload_of frame = if ltb 5 (length frame) then slice frame 4 (length frame - 1) else []

abbrev response_of : Bool → Option String → String
response_of true error = "received"
response_of false none = "error"
response_of false (some e) = if str_eq e "no_response" then "no_response" else "error"

-- `_record_command_result`
unfoldable pub record_command_result : ℕ → ℕ → Bytes → ℕ → Bool → Option String → Device → Device
unfolding append change_stats
record_command_result timestamp cmd frame attempts success error d =
    let entry : CommandEntry = record {
      timestamp = timestamp;
      command = cmd;
      payload_hex = hex (payload_of frame);
      frame_hex = hex frame;
      attempts = attempts;
      success = success;
      error = error;
      response = response_of success error;
    } in
    if success
    then (record d {
      command_history = append d.command_history entry;
      command_stats = change_stats cmd (succeeded timestamp) d.command_stats;
      total_commands_sent = suc d.total_commands_sent;
      total_commands_success = suc d.total_commands_success;
      last_command_error = none;
    })
    else (record d {
      command_history = append d.command_history entry;
      command_stats = change_stats cmd (failed timestamp error) d.command_stats;
      total_commands_sent = suc d.total_commands_sent;
      total_commands_failure = suc d.total_commands_failure;
      last_command_error = error;
    })

abbrev noticed : ℕ → Bytes → Stats → Stats
noticed timestamp frame s = record s {
  last_notification = some timestamp;
  last_notification_hex = some (hex frame);
}

-- Whether a command waits for this one.
abbrev pub is_awaited : ℕ → Option ℕ → Option Bool → Bool
is_awaited command (some pending) (some set) = pending == command
is_awaited command _ _ = false

abbrev signalled : ℕ → Bytes → Device → Device
signalled command frame d =
    if is_awaited command d.pending_command d.response_event
    then record d { response_event = some true; response_data = some frame }
    else d

abbrev pub noted : Option ℕ → ℕ → Bytes → Device → Device
noted none timestamp frame d = d
noted (some command) timestamp frame d =
    signalled command frame
      (record d { command_stats = change_stats command (noticed timestamp frame) d.command_stats })

-- `record_notification`
unfoldable pub record_notification : ℕ → ℕ → Bytes → Bool → Device → Device
unfolding append change_stats
record_notification timestamp sender frame parsed d =
    let command = get_elem? frame 3 in
    noted command timestamp frame (record d {
      notification_history = append d.notification_history (record {
        timestamp = timestamp;
        sender = sender;
        command = command;
        frame_hex = hex frame;
        payload_hex = hex (payload_of frame);
        parsed = parsed;
      });
    })
