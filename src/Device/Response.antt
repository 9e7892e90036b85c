-- ===== src/Device/Response.antt =====
-- Commands of `MarstekBLEDevice` in custom_components/marstek_ble/marstek_device.py and the
-- responses to them.
use ha_marstek_ble.Prelude.{
  ℕ, suc, ◌≡◌, refl, String, Bool, true, false, ◌||◌, inl, inr, Option, none, some, List, [], ◌∷◌,
  ◌==◌, get_elem?, Bool-cases,
}
use ha_marstek_ble.Struct.{Bytes}
use ha_marstek_ble.Result.{Result, ok, err}
use ha_marstek_ble.Frame.{build_command}
use ha_marstek_ble.Device.{Device, noted, record_notification, record_command_result}
use ha_marstek_ble.Device.Commands.{
  Event, notified, lost, disconnected, Attempt, happen, happen_all, ensure_connected,
  attempt_command, attempts, send_command, sent, proceed, transmit, write, wait, Tried, received,
  no_response, raised,
}

-- Whether a frame carries a command.
abbrev pub carries : ℕ → Option ℕ → Bool
carries cmd none = false
carries cmd (some command) = cmd == command

abbrev pub is_answer : ℕ → Event → Bool
is_answer cmd (notified timestamp sender frame parsed) = carries cmd (get_elem? frame 3)
is_answer cmd lost = false
is_answer cmd disconnected = false

abbrev pub has_answer : ℕ → List Event → Bool
has_answer cmd [] = false
has_answer cmd (e ∷ events) = is_answer cmd e || has_answer cmd events

-- Whether a notification with the command arrives while one of the attempts waits.
abbrev pub is_answered : ℕ → List Attempt → Bool
is_answered cmd [] = false
is_answered cmd (a ∷ script) = has_answer cmd a.arrivals || is_answered cmd script

or-false : (a b : Bool) → (a || b) ≡ false → (a ≡ false) × (b ≡ false)
or-false true b h = absurd cc
or-false false b h = (refl, h)

module _ (cmd : ℕ) where
  abbrev Waits : Device → Type 0
  Waits d = (d.pending_command ≡ some cmd) × (d.response_event ≡ some false)

  noted-Waits :
      (command : Option ℕ) (timestamp : ℕ) (frame : Bytes) (d : Device)
      → carries cmd command ≡ false
      → Waits d
      → Waits (noted command timestamp frame d)
  noted-Waits none timestamp frame d f h = h
  noted-Waits (some command) timestamp frame d f (p, e) = rw (p, e, f) (refl, refl)

  happen-Waits : (e : Event) (d : Device) → is_answer cmd e ≡ false → Waits d → Waits (happen e d)
  unfolding happen record_notification
  happen-Waits (notified timestamp sender frame parsed) d f h =
      noted-Waits (get_elem? frame 3) timestamp frame _ f h
  happen-Waits lost d f h = h
  happen-Waits disconnected d f h = h

  happen_all-Waits :
      (events : List Event) (d : Device)
      → has_answer cmd events ≡ false
      → Waits d
      → Waits (happen_all events d)
  unfolding happen_all
  happen_all-Waits [] d f h = h
  happen_all-Waits (e ∷ events) d f h =
      let (now, later) = or-false (is_answer cmd e) (has_answer cmd events) f in
      happen_all-Waits events (happen e d) later (happen-Waits e d now h)

  abbrev Unanswered : Tried → Type 0
  Unanswered received = ⊥
  Unanswered no_response = Unit
  Unanswered (raised e) = Unit

  wait-Unanswered :
      (a : Attempt) (d : Device)
      → has_answer cmd a.arrivals ≡ false
      → Waits d
      → Unanswered (wait a d).0
  wait-Unanswered a d f h = rw (happen_all-Waits a.arrivals d f h).1 tt

  write-Unanswered :
      (w : Option String) (a : Attempt) (d : Device)
      → has_answer cmd a.arrivals ≡ false
      → Waits d
      → Unanswered (write w a d).0
  write-Unanswered none a d f h = wait-Unanswered a _ f h
  write-Unanswered (some e) a d f h = tt

  transmit-Unanswered :
      (a : Attempt) (r : Option String × Device)
      → has_answer cmd a.arrivals ≡ false
      → Unanswered (transmit cmd a r).0
  transmit-Unanswered a (some e, d) f = tt
  transmit-Unanswered a (none, d) f = write-Unanswered a.write_gatt_char a _ f (refl, refl)

  proceed-Unanswered :
      (again : Option String → Device → Bool × Device) (succeed : Device → Device)
      (error : Option String)
      → ((e : Option String) (d : Device) → (again e d).0 ≡ false)
      → (r : Tried × Device) → Unanswered r.0
      → (proceed again succeed error r).0 ≡ false
  proceed-Unanswered again succeed error later (received, d) u = absurd u
  proceed-Unanswered again succeed error later (no_response, d) u = later (some "no_response") d
  proceed-Unanswered again succeed error later (raised e, d) u = later (some e) d

  attempts-Unanswered :
      (now : ℕ) (frame : Bytes) (script : List Attempt) (made : ℕ) (error : Option String)
      (d : Device)
      → is_answered cmd script ≡ false
      → (attempts now cmd frame script made error d).0 ≡ false
  unfolding attempts attempt_command
  attempts-Unanswered now frame [] made error d f = refl
  attempts-Unanswered now frame (a ∷ script) made error d f =
      let (first, rest) = or-false (has_answer cmd a.arrivals) (is_answered cmd script) f in
      proceed-Unanswered (attempts now cmd frame script (suc made))
        (record_command_result now cmd frame (suc made) true none) error
        (λ e d'. attempts-Unanswered now frame script (suc made) e d' rest)
        (attempt_command cmd a d) (transmit-Unanswered a (ensure_connected a d) first)

  sent-Unanswered :
      (r : Result Bytes) (send : Bytes → Bool × Device) (d : Device)
      → ((frame : Bytes) → (send frame).0 ≡ false)
      → (sent r send d).0 ≡ ok true
      → ⊥
  sent-Unanswered (err e) send d silent h = absurd cc
  sent-Unanswered (ok frame) send d silent h = absurd (no (silent frame) h)
    where
      no : {b : Bool} → b ≡ false → ok b ≡ ok true → ⊥
      no e k = absurd cc

-- When `send_command` returns true, a notification whose command byte is that of the command
-- arrived while one of its attempts waited.
pub send_command-is_answered :
    (now cmd : ℕ) (payload : Bytes) (script : List Attempt) (d : Device)
    → (send_command now cmd payload script d).0 ≡ ok true
    → is_answered cmd script ≡ true
unfolding send_command
send_command-is_answered now cmd payload script d h = elim (Bool-cases (is_answered cmd script)) [
  | inl t ↦ t
  | inr f ↦ absurd (
      sent-Unanswered cmd (build_command cmd payload)
        (λ frame. attempts now cmd frame script 0 none d) d
        (λ frame. attempts-Unanswered cmd now frame script 0 none d f) h)
]
