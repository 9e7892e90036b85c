-- ===== src/Device/Counts.antt =====
-- The statistics and the histories of `MarstekBLEDevice` in
-- custom_components/marstek_ble/marstek_device.py.
use ha_marstek_ble.Prelude.{
  ℕ, suc, ◌+◌, ◌-◌, ◌≤◌, ◌≡◌, refl, ap, String, Bool, true, false, inl, inr, Option, none, List, [],
  ◌∷◌, ◌++◌, length, length-append, length-drop, ◌==◌, Bool-cases, arith,
}
use ha_marstek_ble.Struct.{Bytes}
use ha_marstek_ble.Result.{Result}
use ha_marstek_ble.Frame.{build_command}
use ha_marstek_ble.Device.Kept.{happen-Holds, sent-Sent, attempts-Outcome}
use ha_marstek_ble.Device.Kept
use ha_marstek_ble.Device.{
  CommandEntry, NotificationEntry, Stats, Device, append, change_stats, new_stats, succeeded,
  failed, noticed, record_command_result,
}
use ha_marstek_ble.Device.Commands.{Event, Attempt, happen, attempts, send_command, sent}

-- The sum of a count over all commands.
unfoldable pub sum_of : (Stats → ℕ) → List (ℕ × Stats) → ℕ
sum_of count [] = 0
sum_of count ((command, stats) ∷ rest) = count stats + sum_of count rest

-- No history exceeds 25 entries, the totals are `sent`, `success` and `failure`, and they are the
-- sums of the commands' counts.
unfoldable pub Counts : ℕ → ℕ → ℕ → Device → Type 0
unfolding sum_of
Counts sent success failure d =
    (length d.command_history ≤ 25)
    × (length d.notification_history ≤ 25)
    × (d.total_commands_sent ≡ sent)
    × (d.total_commands_success ≡ success)
    × (d.total_commands_failure ≡ failure)
    × (sum_of (λ s. s.sent) d.command_stats ≡ sent)
    × (sum_of (λ s. s.success) d.command_stats ≡ success)
    × (sum_of (λ s. s.failure) d.command_stats ≡ failure)

length-append_25 : {A : Type 0} (history : List A) (entry : A) → length (append history entry) ≤ 25
unfolding append
length-append_25 history entry = omega (
  arith,
  length-drop (length history + 1 - 25) (history ++ entry ∷ []),
  length-append history (entry ∷ []),
)

sum_of-change_stats :
    (count : Stats → ℕ) (n command : ℕ) (f : Stats → Stats) (stats : List (ℕ × Stats))
    → ((s : Stats) → count (f s) ≡ n + count s)
    → count new_stats ≡ 0
    → sum_of count (change_stats command f stats) ≡ n + sum_of count stats
unfolding sum_of change_stats
sum_of-change_stats count n command f [] step start = omega (arith, step new_stats)
sum_of-change_stats count n command f ((key, s) ∷ rest) step start =
    elim (Bool-cases (key == command)) [
      | inl t ↦ rw t (omega (arith, step s))
      | inr g ↦ rw g (omega (arith, sum_of-change_stats count n command f rest step start))
    ]

sum_kept :
    (count : Stats → ℕ) (command : ℕ) (f : Stats → Stats) (stats : List (ℕ × Stats)) (total : ℕ)
    → ((s : Stats) → count (f s) ≡ count s)
    → count new_stats ≡ 0
    → sum_of count stats ≡ total
    → sum_of count (change_stats command f stats) ≡ total
sum_kept count command f stats total step start e =
    omega (arith, sum_of-change_stats count 0 command f stats (λ s. omega (arith, step s)) start)

sum_raised :
    (count : Stats → ℕ) (command : ℕ) (f : Stats → Stats) (stats : List (ℕ × Stats)) (total : ℕ)
    → ((s : Stats) → count (f s) ≡ suc (count s))
    → count new_stats ≡ 0
    → sum_of count stats ≡ total
    → sum_of count (change_stats command f stats) ≡ suc total
sum_raised count command f stats total step start e =
    omega (arith, sum_of-change_stats count 1 command f stats (λ s. omega (arith, step s)) start)

pub record_success-Counts :
    (timestamp cmd : ℕ) (frame : Bytes) (attempts : ℕ) (error : Option String) (d : Device)
    (s t f : ℕ)
    → Counts s t f d
    → Counts (suc s) (suc t) f (record_command_result timestamp cmd frame attempts true error d)
unfolding record_command_result Counts
record_success-Counts timestamp cmd frame attempts error d s t f (h, k, x, y, z, a, b, c) = (
  length-append_25 d.command_history _,
  k,
  ap suc x,
  ap suc y,
  z,
  sum_raised (λ s. s.sent) cmd (succeeded timestamp) d.command_stats _ (λ s. refl) refl a,
  sum_raised (λ s. s.success) cmd (succeeded timestamp) d.command_stats _ (λ s. refl) refl b,
  sum_kept (λ s. s.failure) cmd (succeeded timestamp) d.command_stats _ (λ s. refl) refl c,
)

pub record_failure-Counts :
    (timestamp cmd : ℕ) (frame : Bytes) (attempts : ℕ) (error : Option String) (d : Device)
    (s t f : ℕ)
    → Counts s t f d
    → Counts (suc s) t (suc f) (record_command_result timestamp cmd frame attempts false error d)
unfolding record_command_result Counts
record_failure-Counts timestamp cmd frame attempts error d s t f (h, k, x, y, z, a, b, c) = (
  length-append_25 d.command_history _,
  k,
  ap suc x,
  y,
  ap suc z,
  sum_raised (λ s. s.sent) cmd (failed timestamp error) d.command_stats _ (λ s. refl) refl a,
  sum_kept (λ s. s.success) cmd (failed timestamp error) d.command_stats _ (λ s. refl) refl b,
  sum_raised (λ s. s.failure) cmd (failed timestamp error) d.command_stats _ (λ s. refl) refl c,
)

module _ (s t f : ℕ) where
  -- What `Counts` says, of the histories, the totals and the commands' statistics.
  abbrev AreCounts :
      List CommandEntry → List NotificationEntry → ℕ → ℕ → ℕ → List (ℕ × Stats) → Type 0
  AreCounts h n sent success failure stats =
      (length h ≤ 25)
      × (length n ≤ 25)
      × (sent ≡ s)
      × (success ≡ t)
      × (failure ≡ f)
      × (sum_of (λ c. c.sent) stats ≡ s)
      × (sum_of (λ c. c.success) stats ≡ t)
      × (sum_of (λ c. c.failure) stats ≡ f)

  entered-AreCounts :
      (h : List CommandEntry) (n : List NotificationEntry) (sent success failure : ℕ)
      (stats : List (ℕ × Stats)) (entry : NotificationEntry)
      → AreCounts h n sent success failure stats
      → AreCounts h (append n entry) sent success failure stats
  entered-AreCounts h n sent success failure stats entry (k, m, x, y, z, a, b, c) =
      (k, length-append_25 n entry, x, y, z, a, b, c)

  remarked-AreCounts :
      (h : List CommandEntry) (n : List NotificationEntry) (sent success failure : ℕ)
      (stats : List (ℕ × Stats)) (command timestamp : ℕ) (frame : Bytes)
      → AreCounts h n sent success failure stats
      → AreCounts h n sent success failure (change_stats command (noticed timestamp frame) stats)
  remarked-AreCounts h n sent success failure stats command timestamp frame
        (k, m, x, y, z, a, b, c) =
      (
        k,
        m,
        x,
        y,
        z,
        sum_kept (λ c. c.sent) command (noticed timestamp frame) stats _ (λ c. refl) refl a,
        sum_kept (λ c. c.success) command (noticed timestamp frame) stats _ (λ c. refl) refl b,
        sum_kept (λ c. c.failure) command (noticed timestamp frame) stats _ (λ c. refl) refl c,
      )

  pub happen-Counts : (e : Event) (d : Device) → Counts s t f d → Counts s t f (happen e d)
  unfolding Counts
  happen-Counts e d h = happen-Holds AreCounts entered-AreCounts remarked-AreCounts e d h

-- What `send_command` leaves: one more success or one more failure.
abbrev pub Sent : ℕ → ℕ → ℕ → Device → Result Bool × Device → Type 0
Sent s t f = Kept.Sent (Counts (suc s) (suc t) f) (Counts (suc s) t (suc f))

-- Whatever the Bluetooth library answers to the attempts and whatever arrives meanwhile, on a device
-- whose histories have at most 25 entries and whose totals are the sums of its commands' counts,
-- `send_command` keeps it so, and the totals and the sums count one command more: as a success
-- when it returns true and as a failure when it returns false.
pub send_command-Sent :
    (now cmd : ℕ) (payload : Bytes) (script : List Attempt) (d : Device) (s t f : ℕ)
    → Counts s t f d
    → Sent s t f d (send_command now cmd payload script d)
unfolding send_command Counts
send_command-Sent now cmd payload script d s t f h =
    sent-Sent (Counts (suc s) (suc t) f) (Counts (suc s) t (suc f)) d
      (λ frame. attempts now cmd frame script 0 none d) (build_command cmd payload)
      λ frame e.
        attempts-Outcome (AreCounts s t f) (entered-AreCounts s t f) (remarked-AreCounts s t f) now
          cmd frame (Counts (suc s) (suc t) f) (Counts (suc s) t (suc f))
          (λ made d' k. record_success-Counts now cmd frame made none d' s t f k)
          (λ made error d' k. record_failure-Counts now cmd frame made error d' s t f k) script 0
          none d h
