-- ===== src/Device/Reach.antt =====
-- The states that a `MarstekBLEDevice` of custom_components/marstek_ble/marstek_device.py reaches
-- by commands, notifications, disconnects and lost links, in any order. A lock makes commands
-- follow one another, so that a command is one step.
use native.Mathlib.Nat.{suc-add, add-suc}
use ha_marstek_ble.Prelude.{
  ℕ, suc, ◌+◌, ◌≡◌, refl, sym, subst, String, Bool, true, false, inl, inr, Option, none, some, List,
  [], ◌∷◌, Bool-cases, get_elem?, arith,
}
use ha_marstek_ble.Struct.{Bytes}
use ha_marstek_ble.Result.{Result, ok, err}
use ha_marstek_ble.Frame.{build_command}
use ha_marstek_ble.Device.{
  Device, new_device, noted, signalled, change_stats, noticed, record_command_result,
  record_notification,
}
use ha_marstek_ble.Device.Commands.{
  Event, notified, lost, disconnected, Attempt, happen, attempt_command, attempts, send_command,
  sent, proceed, execute_disconnect, disconnect, ensure_connected, transmit, write, reconnect,
  is_connected, Tried, received, no_response, raised,
}
use ha_marstek_ble.Device.Counts.{Counts, Sent, happen-Counts, send_command-Sent}

pub data Step : Device → Device → Type 0 where
  sends :
      (now cmd : ℕ) (payload : Bytes) (script : List Attempt) (d : Device)
      → Step d (send_command now cmd payload script d).1
  happens : (e : Event) (d : Device) → Step d (happen e d)
  times_out : (d : Device) → Step d (execute_disconnect d)
  disconnects : (d : Device) → Step d (disconnect d)

pub data Reachable : Device → Type 0 where
  new : (name : String) (callback : Bool) → Reachable (new_device name callback)
  step : {d d' : Device} → Reachable d → Step d d' → Reachable d'

-- Commands are counted as successes or failures, the totals are the sums of the commands' own
-- counts, and no history exceeds 25 entries.
unfoldable pub IsConsistent : Device → Type 0
IsConsistent d = (success : ℕ) × (failure : ℕ) × Counts (success + failure) success failure d

-- No command waits for a response.
abbrev pub IsIdle : Device → Type 0
IsIdle d = (d.pending_command ≡ none) × (d.response_event ≡ none)

new_device-IsConsistent :
    (name : String) (callback : Bool) → IsConsistent (new_device name callback)
unfolding IsConsistent Counts
new_device-IsConsistent name callback =
    (0, 0, (omega arith, omega arith, omega arith, refl, refl, omega arith, refl, refl))

Sent-IsConsistent :
    (r : Result Bool × Device) (success failure : ℕ) (d : Device)
    → Counts (success + failure) success failure d
    → Sent (success + failure) success failure d r
    → IsConsistent r.1
unfolding IsConsistent
Sent-IsConsistent (ok true, d') t f d h k =
    (suc t, f, subst (λ n. Counts n (suc t) f d') (sym (suc-add t f)) k)
Sent-IsConsistent (ok false, d') t f d h k =
    (t, suc f, subst (λ n. Counts n t (suc f) d') (sym (add-suc t f)) k)
Sent-IsConsistent (err e, d') t f d h k = (t, f, rw k h)

Step-IsConsistent : {d d' : Device} → Step d d' → IsConsistent d → IsConsistent d'
unfolding IsConsistent Counts execute_disconnect disconnect
Step-IsConsistent (sends now cmd payload script d) (t, f, h) =
    Sent-IsConsistent (send_command now cmd payload script d) t f d h
      (send_command-Sent now cmd payload script d (t + f) t f h)
Step-IsConsistent (happens e d) (t, f, h) = (t, f, happen-Counts (t + f) t f e d h)
Step-IsConsistent (times_out d) (t, f, h) = elim (Bool-cases (is_connected d.client)) [
  | inl e ↦ (t, f, rw e h)
  | inr e ↦ (t, f, rw e h)
]
Step-IsConsistent (disconnects d) (t, f, h) = elim (Bool-cases (is_connected d.client)) [
  | inl e ↦ (t, f, rw e h)
  | inr e ↦ (t, f, rw e h)
]

signalled-IsIdle :
    (command : ℕ) (frame : Bytes) (d : Device) → IsIdle d → IsIdle (signalled command frame d)
signalled-IsIdle command frame d (p, e) = rw (p, e) (refl, refl)

noted-IsIdle :
    (command : Option ℕ) (timestamp : ℕ) (frame : Bytes) (d : Device)
    → IsIdle d
    → IsIdle (noted command timestamp frame d)
noted-IsIdle none timestamp frame d h = h
noted-IsIdle (some command) timestamp frame d h =
    signalled-IsIdle command frame
      (record d { command_stats = change_stats command (noticed timestamp frame) d.command_stats })
      h

happen-IsIdle : (e : Event) (d : Device) → IsIdle d → IsIdle (happen e d)
unfolding happen record_notification
happen-IsIdle (notified timestamp sender frame parsed) d h =
    noted-IsIdle (get_elem? frame 3) timestamp frame _ h
happen-IsIdle lost d h = h
happen-IsIdle disconnected d h = h

reconnect-IsIdle : (c : Option Bool) (d : Device) → IsIdle d → IsIdle (reconnect c d)
reconnect-IsIdle none d h = h
reconnect-IsIdle (some c) d h = h

write-IsIdle : (w : Option String) (a : Attempt) (d : Device) → IsIdle (write w a d).1
write-IsIdle none a d = (refl, refl)
write-IsIdle (some e) a d =
    reconnect-IsIdle d.client (record d { pending_command = none; response_event = none })
      (refl, refl)

-- However an attempt ends, no command waits after it.
transmit-IsIdle : (cmd : ℕ) (a : Attempt) (r : Option String × Device) → IsIdle (transmit cmd a r).1
transmit-IsIdle cmd a (some e, d) =
    reconnect-IsIdle d.client (record d { pending_command = none; response_event = none })
      (refl, refl)
transmit-IsIdle cmd a (none, d) = write-IsIdle a.write_gatt_char a _

record_command_result-IsIdle :
    (timestamp cmd : ℕ) (frame : Bytes) (attempts : ℕ) (success : Bool) (error : Option String)
    (d : Device)
    → IsIdle d
    → IsIdle (record_command_result timestamp cmd frame attempts success error d)
unfolding record_command_result
record_command_result-IsIdle timestamp cmd frame attempts true error d h = h
record_command_result-IsIdle timestamp cmd frame attempts false error d h = h

proceed-IsIdle :
    (again : Option String → Device → Bool × Device) (succeed : Device → Device)
    (error : Option String)
    → ((e : Option String) (d : Device) → IsIdle d → IsIdle (again e d).1)
    → ((d : Device) → IsIdle d → IsIdle (succeed d))
    → (r : Tried × Device) → IsIdle r.1
    → IsIdle (proceed again succeed error r).1
proceed-IsIdle again succeed error later done (received, d) h = done d h
proceed-IsIdle again succeed error later done (no_response, d) h = later (some "no_response") d h
proceed-IsIdle again succeed error later done (raised e, d) h = later (some e) d h

attempts-IsIdle :
    (now cmd : ℕ) (frame : Bytes) (script : List Attempt) (made : ℕ) (error : Option String)
    (d : Device)
    → IsIdle d
    → IsIdle (attempts now cmd frame script made error d).1
unfolding attempts attempt_command
attempts-IsIdle now cmd frame [] made error d h =
    record_command_result-IsIdle now cmd frame made false error d h
attempts-IsIdle now cmd frame (a ∷ script) made error d h =
    proceed-IsIdle (attempts now cmd frame script (suc made))
      (record_command_result now cmd frame (suc made) true none) error
      (λ e d' k. attempts-IsIdle now cmd frame script (suc made) e d' k)
      (λ d' k. record_command_result-IsIdle now cmd frame (suc made) true none d' k)
      (attempt_command cmd a d) (transmit-IsIdle cmd a (ensure_connected a d))

sent-IsIdle :
    (r : Result Bytes) (send : Bytes → Bool × Device) (d : Device)
    → IsIdle d
    → ((frame : Bytes) → IsIdle (send frame).1)
    → IsIdle (sent r send d).1
sent-IsIdle (err e) send d h k = h
sent-IsIdle (ok frame) send d h k = k frame

Step-IsIdle : {d d' : Device} → Step d d' → IsIdle d → IsIdle d'
unfolding send_command execute_disconnect disconnect
Step-IsIdle (sends now cmd payload script d) h =
    sent-IsIdle (build_command cmd payload) (λ frame. attempts now cmd frame script 0 none d) d h
      (λ frame. attempts-IsIdle now cmd frame script 0 none d h)
Step-IsIdle (happens e d) h = happen-IsIdle e d h
Step-IsIdle (times_out d) h = elim (Bool-cases (is_connected d.client)) [
  | inl e ↦ rw e h
  | inr e ↦ rw e h
]
Step-IsIdle (disconnects d) h = elim (Bool-cases (is_connected d.client)) [
  | inl e ↦ rw e h
  | inr e ↦ rw e h
]

-- In every state that a device reaches by commands, notifications, disconnects and lost links, in
-- any order: every command that was sent is counted as one success or one failure, in the totals
-- and in the counts per command, which agree; no history exceeds 25 entries; and between commands
-- none waits for a response.
pub Reachable-IsConsistent : (d : Device) → Reachable d → IsConsistent d × IsIdle d
Reachable-IsConsistent _ (new name callback) = (new_device-IsConsistent name callback, (refl, refl))
Reachable-IsConsistent _ (step {d} {d'} r s) =
    let (consistent, idle) = Reachable-IsConsistent d r in
    (Step-IsConsistent s consistent, Step-IsIdle s idle)
