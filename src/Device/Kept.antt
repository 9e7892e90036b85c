-- ===== src/Device/Kept.antt =====
-- What `send_command` and the events of custom_components/marstek_ble/marstek_device.py keep of the
-- histories and the statistics, until the result of a command is recorded.
use ha_marstek_ble.Prelude.{
  ℕ, suc, String, Bool, true, false, inl, inr, Option, none, some, List, [], ◌∷◌, ◌&&◌, not,
  Bool-cases, get_elem?, ◌≡◌, refl,
}
use ha_marstek_ble.Struct.{Bytes}
use ha_marstek_ble.Result.{Result, ok, err}
use ha_marstek_ble.Device.{
  CommandEntry, NotificationEntry, Stats, Device, append, change_stats, noticed, noted, signalled,
  is_awaited, record_command_result, record_notification,
}
use ha_marstek_ble.Device.Commands.{
  Event, notified, lost, disconnected, Attempt, happen, happen_all, ensure_connected,
  attempt_command, attempts, proceed, sent, transmit, write, reconnect, establish, notify, abandon,
  Tried, received, no_response, raised, is_connected,
}

-- What holds after a success, or after a failure.
abbrev pub Outcome : (Device → Type 0) → (Device → Type 0) → Bool × Device → Type 0
Outcome T F (true, d) = T d
Outcome T F (false, d) = F d

-- What `send_command` leaves: after an exception of `build_command` the device as it was.
abbrev pub Sent : (Device → Type 0) → (Device → Type 0) → Device → Result Bool × Device → Type 0
Sent T F d (ok b, d') = Outcome T F (b, d')
Sent T F d (err e, d') = d' ≡ d

pub sent-Sent :
    (T F : Device → Type 0) (d : Device) (send : Bytes → Bool × Device) (r : Result Bytes)
    → ((frame : Bytes) → r ≡ ok frame → Outcome T F (send frame))
    → Sent T F d (sent r send d)
sent-Sent T F d send (err e) h = refl
sent-Sent T F d send (ok frame) h = h frame refl

-- A property of the two histories, the three totals and the commands' statistics, which a
-- notification's entry and its note among the statistics keep.
module _ (Q : List CommandEntry → List NotificationEntry → ℕ → ℕ → ℕ → List (ℕ × Stats) → Type 0)
    (entered : (h : List CommandEntry) (n : List NotificationEntry) (s t f : ℕ)
        (stats : List (ℕ × Stats)) (entry : NotificationEntry)
      → Q h n s t f stats
      → Q h (append n entry) s t f stats)
    (remarked : (h : List CommandEntry) (n : List NotificationEntry) (s t f : ℕ)
        (stats : List (ℕ × Stats)) (command timestamp : ℕ) (frame : Bytes)
      → Q h n s t f stats
      → Q h n s t f (change_stats command (noticed timestamp frame) stats)) where
  abbrev pub Holds : Device → Type 0
  Holds d =
      Q d.command_history d.notification_history d.total_commands_sent d.total_commands_success
        d.total_commands_failure d.command_stats

  signalled-Holds :
      (command : ℕ) (frame : Bytes) (d : Device) → Holds d → Holds (signalled command frame d)
  signalled-Holds command frame d h =
      elim (Bool-cases (is_awaited command d.pending_command d.response_event)) [
        | inl e ↦ rw e h
        | inr e ↦ rw e h
      ]

  noted-Holds :
      (command : Option ℕ) (timestamp : ℕ) (frame : Bytes) (d : Device)
      → Holds d
      → Holds (noted command timestamp frame d)
  noted-Holds none timestamp frame d h = h
  noted-Holds (some command) timestamp frame d h =
      signalled-Holds command frame
        (record d {
          command_stats = change_stats command (noticed timestamp frame) d.command_stats;
        })
        (remarked d.command_history d.notification_history d.total_commands_sent
          d.total_commands_success d.total_commands_failure d.command_stats command timestamp frame
          h)

  pub happen-Holds : (e : Event) (d : Device) → Holds d → Holds (happen e d)
  unfolding happen record_notification
  happen-Holds (notified timestamp sender frame parsed) d h =
      noted-Holds (get_elem? frame 3) timestamp frame _ (
        entered d.command_history d.notification_history d.total_commands_sent
          d.total_commands_success d.total_commands_failure d.command_stats _ h)
  happen-Holds lost d h = h
  happen-Holds disconnected d h = h

  happen_all-Holds : (es : List Event) (d : Device) → Holds d → Holds (happen_all es d)
  unfolding happen_all
  happen_all-Holds [] d h = h
  happen_all-Holds (e ∷ es) d h = happen_all-Holds es (happen e d) (happen-Holds e d h)

  abandon-Holds : (b : Bool) (d : Device) → Holds d → Holds (abandon b d)
  abandon-Holds true d h = h
  abandon-Holds false d h = h

  notify-Holds :
      (start : Option String) (b : Bool) (d : Device) → Holds d → Holds (notify start b d).1
  notify-Holds none b d h = h
  notify-Holds (some e) b d h = abandon-Holds b d h

  establish-Holds :
      (link start : Option String) (b : Bool) (d : Device)
      → Holds d
      → Holds (establish link start b d).1
  establish-Holds (some e) start b d h = abandon-Holds (is_connected d.client) d h
  establish-Holds none start b d h =
      elim (Bool-cases (d.has_notification_callback && not d.notifications_started)) [
        | inl e ↦ rw e (notify-Holds start b (record d { client = some true }) h)
        | inr e ↦ rw e h
      ]

  ensure_connected-Holds : (a : Attempt) (d : Device) → Holds d → Holds (ensure_connected a d).1
  unfolding ensure_connected
  ensure_connected-Holds a d h = elim (Bool-cases (is_connected d.client)) [
    | inl e ↦ rw e h
    | inr e ↦ elim (Bool-cases (not a.has_ble_device)) [
      | inl g ↦ rw (e, g) h
      | inr g ↦
          rw (e, g)
            (establish-Holds a.establish_connection a.start_notify a.connected_after_failure d h)
    ]
  ]

  reconnect-Holds : (c : Option Bool) (d : Device) → Holds d → Holds (reconnect c d)
  reconnect-Holds none d h = h
  reconnect-Holds (some c) d h = h

  write-Holds : (w : Option String) (a : Attempt) (d : Device) → Holds d → Holds (write w a d).1
  write-Holds none a d h =
      happen_all-Holds a.arrivals
        (record d { last_command_time = some a.wall_time; disconnect_timer = true }) h
  write-Holds (some e) a d h =
      reconnect-Holds d.client (record d { pending_command = none; response_event = none }) h

  transmit-Holds :
      (cmd : ℕ) (a : Attempt) (r : Option String × Device) → Holds r.1 → Holds (transmit cmd a r).1
  transmit-Holds cmd a (some e, d) h =
      reconnect-Holds d.client (record d { pending_command = none; response_event = none }) h
  transmit-Holds cmd a (none, d) h = write-Holds a.write_gatt_char a _ h

  attempt_command-Holds :
      (cmd : ℕ) (a : Attempt) (d : Device) → Holds d → Holds (attempt_command cmd a d).1
  unfolding attempt_command
  attempt_command-Holds cmd a d h =
      transmit-Holds cmd a (ensure_connected a d) (ensure_connected-Holds a d h)

  -- `T` holds after a recorded success and `F` after a recorded failure.
  module _ (now cmd : ℕ) (frame : Bytes) (T F : Device → Type 0)
      (succeeds : (made : ℕ) (d : Device)
        → Holds d
        → T (record_command_result now cmd frame made true none d))
      (fails : (made : ℕ) (error : Option String) (d : Device)
        → Holds d
        → F (record_command_result now cmd frame made false error d)) where
    proceed-Outcome :
        (again : Option String → Device → Bool × Device) (made : ℕ) (error : Option String)
        → ((e : Option String) (d : Device) → Holds d → Outcome T F (again e d))
        → (r : Tried × Device) → Holds r.1
        → Outcome T F (proceed again (record_command_result now cmd frame made true none) error r)
    proceed-Outcome again made error later (received, d) h = succeeds made d h
    proceed-Outcome again made error later (no_response, d) h = later (some "no_response") d h
    proceed-Outcome again made error later (raised e, d) h = later (some e) d h

    pub attempts-Outcome :
        (script : List Attempt) (made : ℕ) (error : Option String) (d : Device)
        → Holds d
        → Outcome T F (attempts now cmd frame script made error d)
    unfolding attempts
    attempts-Outcome [] made error d h = fails made error d h
    attempts-Outcome (a ∷ script) made error d h =
        proceed-Outcome (attempts now cmd frame script (suc made)) (suc made) error
          (λ e d' k. attempts-Outcome script (suc made) e d' k) (attempt_command cmd a d)
          (attempt_command-Holds cmd a d h)
