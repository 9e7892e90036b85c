-- ===== src/Runs.antt =====
-- Uses of the theorems on products, devices and polling at concrete inputs.
use ha_marstek_ble.Prelude.{
  List, ℕ, zero, suc, ◌≡◌, ◌⊎◌, ◌%◌, ◌≤◌, ◌<◌, ◌+◌, min, refl, Bool, true, false, none, some, [],
  ◌∷◌, ◌++◌, length, pos, negsuc, arith,
}
use ha_marstek_ble.Struct.{Bytes}
use ha_marstek_ble.Result.{struct_error, err}
use ha_marstek_ble.Converter.{null}
use ha_marstek_ble.Frame.{xor_from}
use ha_marstek_ble.Schema.Tree.{end, field, plain}
use ha_marstek_ble.Schema.Tree.{parse_into}
use ha_marstek_ble.Marstek.{new_data}
use ha_marstek_ble.Marstek.Cells.{HasCells}
use ha_marstek_ble.Marstek.KeptTexts.{parse_notification-HasCells}
use ha_marstek_ble.Marstek.Numeric.{parse_bms_data, parse_runtime_info}
use ha_marstek_ble.Marstek.Notification as Marstek
use ha_marstek_ble.ProductRuntime as ProductRuntime
use ha_marstek_ble.ProductRuntime.{
  PayloadParser, PollCommand, ProductData, ProductRuntime, parser_of, packet_of, parse_payload,
  last_alias,
}
use ha_marstek_ble.ProductRuntime.Safety.{rejected_unchanged}
use ha_marstek_ble.Venus.{venus_data, bms_data, runtime_information}
use ha_marstek_ble.Venus.Runtime.{venus_runtime}
use ha_marstek_ble.Venus.Atomic.{venus_rejected_unchanged}
use ha_marstek_ble.Venus.Compat.{after, shown}
use ha_marstek_ble.Venus.Telemetry.{parse_bms_data_replaced, parse_runtime_info_replaced}
use ha_marstek_ble.Polling.{
  Coordinator, Backoff, new_coordinator, set_poll_intervals, handle_backoff, is_paused,
  poll_commands, run_poll,
}
use ha_marstek_ble.Polling.Schedule.{
  IsScheduled, new_coordinator-IsScheduled, set_poll_intervals-IsScheduled,
}
use ha_marstek_ble.Polling.Pause.{
  failures, failures_level, failure_pauses, failed_poll_pauses, success_resumes, IsDue, cycle_sends,
  logged,
}
use ha_marstek_ble.Polling.Cycles.{IsRunning, times, run_polls, one_medium_poll}
use ha_marstek_ble.Device.{Device, new_device}
use ha_marstek_ble.Device.Commands.{Attempt, notified, send_command}
use ha_marstek_ble.Device.Tally.{IsSent, send_command-IsSent}
use ha_marstek_ble.Device.Response.{is_answered, send_command-is_answered}
use ha_marstek_ble.Device.Reach.{new, step, sends, IsConsistent, IsIdle, Reachable-IsConsistent}

abbrev rate_frame : Bytes
rate_frame = 0x73 ∷ 6 ∷ 0x23 ∷ 0x22 ∷ 2 ∷ 118 ∷ []

parse_notification-HasCells_example : HasCells (Marstek.parse_notification rate_frame 3 new_data).1
parse_notification-HasCells_example = parse_notification-HasCells rate_frame 3 new_data refl

-- A payload of zero bytes.
abbrev zeros : ℕ → Bytes
zeros zero = []
zeros (suc n) = 0 ∷ zeros n

parse_runtime_info_replaced_example :
    after (venus_data new_data) (parse_into (zeros 100) runtime_information (venus_data new_data))
    ≡ shown (parse_runtime_info (zeros 100) 3 new_data)
parse_runtime_info_replaced_example = parse_runtime_info_replaced (zeros 100) 3 new_data

parse_bms_data_replaced_example :
    after (venus_data new_data) (parse_into (zeros 80) bms_data (venus_data new_data))
    ≡ shown (parse_bms_data (zeros 80) 3 new_data)
parse_bms_data_replaced_example = parse_bms_data_replaced (zeros 80) 3 new_data refl

-- A runtime with one payload parser, which always raises.
abbrev failing : PayloadParser
failing payload fs = (err struct_error, fs)

abbrev small_runtime : ProductRuntime
small_runtime = record {
  profile = record {
    product_id = "small";
    new_fields = field (plain "value" null) end;
    aliases = λ path. [];
    packets = [];
    supported_commands = 0x22 ∷ [];
    discovery_prefixes = [];
  };
  fast_poll = [];
  medium_poll = [];
  payload_parsers = (0x22, failing) ∷ [];
}

abbrev small_data : ProductData
small_data = record { fields = field (plain "value" null) end; field_updates = [] }

rejected_unchanged_example :
    (ProductRuntime.parse_notification small_runtime rate_frame 3 small_data).1 ≡ small_data
unfolding ProductRuntime.parse_notification parse_payload xor_from
rejected_unchanged_example =
    rejected_unchanged small_runtime rate_frame 3 small_data ((λ payload fs. refl), tt) refl

-- A frame with a wrong checksum.
abbrev broken_frame : Bytes
broken_frame = 0x73 ∷ 6 ∷ 0x23 ∷ 0x22 ∷ 2 ∷ 119 ∷ []

abbrev fresh_data : ProductData
fresh_data = record { fields = venus_data new_data; field_updates = [] }

venus_rejected_unchanged_example :
    (ProductRuntime.parse_notification venus_runtime broken_frame 3 fresh_data).1 ≡ fresh_data
unfolding ProductRuntime.parse_notification xor_from
venus_rejected_unchanged_example = venus_rejected_unchanged broken_frame 3 fresh_data refl

set_poll_intervals-IsScheduled_example :
    IsScheduled (set_poll_intervals (pos 100) (some (negsuc 4)) (new_coordinator (pos 1) (pos 60)))
set_poll_intervals-IsScheduled_example =
    set_poll_intervals-IsScheduled (pos 100) (some (negsuc 4)) (new_coordinator (pos 1) (pos 60))
      (new_coordinator-IsScheduled (pos 1) (pos 60))

new_coordinator-IsScheduled_example : IsScheduled (new_coordinator (pos 7) (pos 60))
new_coordinator-IsScheduled_example = new_coordinator-IsScheduled (pos 7) (pos 60)

abbrev quiet : Backoff
quiet = record { level = 0; until = none }

failures_level_example :
    (failures (10 ∷ 20 ∷ 30 ∷ []) quiet).level ≡ min (0 + length {A = ℕ} (10 ∷ 20 ∷ 30 ∷ [])) 4
failures_level_example = failures_level (10 ∷ 20 ∷ 30 ∷ []) quiet (omega arith)

failure_pauses_example :
    (1500 < 1000 + 5000 → is_paused (handle_backoff true 1000 quiet).until 1500 ≡ true)
    × (1000 + 60_000 ≤ 1500 → is_paused (handle_backoff true 1000 quiet).until 1500 ≡ false)
failure_pauses_example = failure_pauses 1000 1500 quiet (omega arith)

-- Commands that all fail, and commands that all succeed; the state counts them.
abbrev failing_send : PollCommand → ℕ → Bool × ℕ
failing_send c n = (false, suc n)

abbrev working_send : PollCommand → ℕ → Bool × ℕ
working_send c n = (true, suc n)

abbrev read_runtime : PollCommand
read_runtime = record { command = 0x03; payload = []; delay = 100 }

abbrev idle_coordinator : Coordinator
idle_coordinator = record {
  poll_interval = 1;
  medium_poll_interval = 60;
  medium_poll_cycle = 60;
  fast_poll_count = 3;
  medium_poll_count = 1;
  initial_poll_done = true;
  timer = some 1;
  last_poll_started_at = none;
  last_poll_completed_at = none;
}

failed_poll_pauses_example :
    run_poll failing_send
      (read_runtime ∷ [])
      []
      3000
      3100
      (run_poll failing_send (read_runtime ∷ []) [] 1000 1100 (idle_coordinator, quiet, 0))
    ≡ run_poll failing_send (read_runtime ∷ []) [] 1000 1100 (idle_coordinator, quiet, 0)
unfolding is_paused poll_commands
failed_poll_pauses_example =
    failed_poll_pauses failing_send (read_runtime ∷ []) [] 1000 1100 3000 3100 idle_coordinator
      quiet 0 (omega arith) refl refl (omega arith)

success_resumes_example :
    is_paused
      (run_poll working_send (read_runtime ∷ []) [] 1000 1100 (idle_coordinator, quiet, 0)).1.until
      2000
    ≡ false
unfolding is_paused poll_commands
success_resumes_example =
    success_resumes working_send (read_runtime ∷ []) [] 1000 1100 2000 idle_coordinator quiet 0 refl
      refl

-- The medium schedule of the tests.
abbrev read_network : PollCommand
read_network = record { command = 0x24; payload = []; delay = 300 }

-- The next cycle is the 60th.
abbrev due_coordinator : Coordinator
due_coordinator = record idle_coordinator { fast_poll_count = 59 }

cycle_sends_example :
    let (c', b', (s', log')) =
      run_poll
        (logged failing_send)
        (read_runtime ∷ [])
        (read_network ∷ [])
        1000
        1100
        (due_coordinator, quiet, (0, [])) in
    (c'.fast_poll_count ≡ suc 59)
    × (c'.initial_poll_done ≡ true)
    × (IsDue due_coordinator
          × (log' ≡ [] ++ ((read_runtime ∷ []) ++ (read_network ∷ [])))
          × (c'.medium_poll_count ≡ suc 1)
        ⊎ (¬ IsDue due_coordinator)
          × (log' ≡ [] ++ (read_runtime ∷ []))
          × (c'.medium_poll_count ≡ 1))
unfolding is_paused
cycle_sends_example =
    cycle_sends failing_send (read_runtime ∷ []) (read_network ∷ []) 1000 1100 due_coordinator quiet
      0 [] refl

abbrev tuned : Coordinator
tuned = record idle_coordinator { medium_poll_cycle = 3 }

abbrev three_cycles : List (ℕ × ℕ)
three_cycles = (1000, 1100) ∷ (2000, 2100) ∷ (9000, 9100) ∷ []

three-IsRunning :
    IsRunning
      (logged working_send)
      (read_runtime ∷ [])
      (read_network ∷ [])
      three_cycles
      (tuned, quiet, (0, []))
unfolding IsRunning run_poll is_paused poll_commands
three-IsRunning = (refl, (refl, (refl, tt)))

one_medium_poll_example :
    let (c', b', (s', log')) =
      run_polls
        (logged working_send)
        (read_runtime ∷ [])
        (read_network ∷ [])
        three_cycles
        (tuned, quiet, (0, [])) in
    (i j : ℕ) × (i + suc j ≡ 3)
    × (tuned.fast_poll_count % 3 + suc i ≡ 3)
    × (log'
        ≡ []
          ++ (times i (read_runtime ∷ [])
              ++ (((read_runtime ∷ []) ++ (read_network ∷ [])) ++ times j (read_runtime ∷ []))))
one_medium_poll_example =
    one_medium_poll working_send (read_runtime ∷ []) (read_network ∷ []) three_cycles tuned quiet 0
      [] three-IsRunning refl (omega arith) refl

-- An attempt that is answered.
abbrev answered : Attempt
answered = record {
  has_ble_device = true;
  establish_connection = none;
  start_notify = none;
  connected_after_failure = true;
  write_gatt_char = none;
  arrivals = notified 5 1 rate_frame true ∷ [];
  wall_time = 4;
}

-- A command before it, answered as well.
abbrev used_device : Device
used_device = (send_command 5 0x24 [] (answered ∷ []) (new_device "MST_ACCP_1" true)).1

send_command-IsSent_example :
    IsSent 0x22 [] 0x24 used_device (send_command 6 0x22 [] (answered ∷ []) used_device)
send_command-IsSent_example = send_command-IsSent 6 0x22 [] (answered ∷ []) 0x24 used_device

Reachable-IsConsistent_example :
    IsConsistent (send_command 6 0x22 [] (answered ∷ []) (new_device "MST_ACCP_1" true)).1
    × IsIdle (send_command 6 0x22 [] (answered ∷ []) (new_device "MST_ACCP_1" true)).1
Reachable-IsConsistent_example =
    Reachable-IsConsistent (send_command 6 0x22 [] (answered ∷ []) (new_device "MST_ACCP_1" true)).1
      (step (new "MST_ACCP_1" true)
        (sends 6 0x22 [] (answered ∷ []) (new_device "MST_ACCP_1" true)))

send_command-is_answered_example : is_answered 0x22 (answered ∷ []) ≡ true
unfolding send_command
send_command-is_answered_example =
    send_command-is_answered 6 0x22 [] (answered ∷ []) (new_device "MST_ACCP_1" true) refl
