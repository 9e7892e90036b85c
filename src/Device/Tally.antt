-- ===== src/Device/Tally.antt =====
-- The statistics of each command, and the entry of a command in the history, after `send_command`
-- of custom_components/marstek_ble/marstek_device.py.
use ha_marstek_ble.Prelude.{
  ℕ, zero, suc, ◌+◌, ◌-◌, ◌≤◌, min, Bool, true, false, not, ◌&&◌, inl, inr, Option, none, List, [],
  ◌∷◌, ◌++◌, drop, length, ◌≡◌, refl, subst, ap, ◌∙◌, ◌==◌, Bool-cases, if◌then◌else◌, arith,
  String,
}
use ha_marstek_ble.Struct.{Bytes}
use ha_marstek_ble.Result.{Result, ok, err}
use ha_marstek_ble.Frame.{build_command}
use ha_marstek_ble.Marstek.{hex}
use ha_marstek_ble.Device.Kept.{Outcome, attempts-Outcome}
use ha_marstek_ble.Device.{
  CommandEntry, NotificationEntry, Stats, Device, append, change_stats, new_stats, noticed,
  succeeded, failed, record_command_result,
}
use ha_marstek_ble.Device.Commands.{Attempt, attempts, sent, send_command}

-- The statistics of a command; those of one never sent are new.
unfoldable pub stats_of : ℕ → List (ℕ × Stats) → Stats
stats_of key [] = new_stats
stats_of key ((command, stats) ∷ rest) =
    let later = stats_of key rest in if command == key then stats else later

-- A change of a command's statistics is one of its own, and of no other command's.
stats_of-change_stats :
    (key command : ℕ) (f : Stats → Stats) (stats : List (ℕ × Stats))
    → stats_of key (change_stats command f stats)
      ≡ (if command == key then f (stats_of key stats) else stats_of key stats)
unfolding stats_of change_stats
stats_of-change_stats key command f [] = refl
stats_of-change_stats key command f ((other, s) ∷ rest) = elim (Bool-cases (other == command)) [
  | inl t ↦ elim (Bool-cases (command == key)) [
    | inl k ↦ rw (t, k, both t k) refl
    | inr k ↦ rw (t, k, first t k) refl
  ]
  | inr n ↦ elim (Bool-cases (other == key)) [
    | inl k ↦ rw (n, k, second n k) refl
    | inr k ↦ rw (n, k) (stats_of-change_stats key command f rest)
  ]
]
  where
    both : (other == command) ≡ true → (command == key) ≡ true → (other == key) ≡ true
    both t k = ground arith

    first : (other == command) ≡ true → (command == key) ≡ false → (other == key) ≡ false
    first t k = ground arith

    second : (other == command) ≡ false → (other == key) ≡ true → (command == key) ≡ false
    second n k = ground arith

-- A count of a command's statistics after a change of `command`'s.
count-change_stats :
    (count : Stats → ℕ) (key command : ℕ) (f : Stats → Stats) (stats : List (ℕ × Stats))
    → count (stats_of key (change_stats command f stats))
      ≡ (if command == key then count (f (stats_of key stats)) else count (stats_of key stats))
count-change_stats count key command f stats = elim (Bool-cases (command == key)) [
  | inl t ↦ ap count (stats_of-change_stats key command f stats) ∙ rw t refl
  | inr n ↦ ap count (stats_of-change_stats key command f stats) ∙ rw n refl
]

count_kept :
    (count : Stats → ℕ) (key command : ℕ) (f : Stats → Stats) (stats : List (ℕ × Stats))
    → ((s : Stats) → count (f s) ≡ count s)
    → count (stats_of key (change_stats command f stats)) ≡ count (stats_of key stats)
count_kept count key command f stats same = elim (Bool-cases (command == key)) [
  | inl t ↦ count-change_stats count key command f stats ∙ rw t (same (stats_of key stats))
  | inr n ↦ count-change_stats count key command f stats ∙ rw n refl
]

-- Of a history, its newest 24 entries at most, and behind them the new one.
abbrev pub IsEntered : List CommandEntry → CommandEntry → List CommandEntry → Type 0
IsEntered history entry history' =
    (oldest newest : List CommandEntry) × (history ≡ oldest ++ newest)
    × (length newest ≡ min (length history) 24)
    × (history' ≡ newest ++ entry ∷ [])

drop-split :
    {A : Type 0} (k : ℕ) (history : List A) (entry : A)
    → k ≤ length history
    → (oldest newest : List A) × (history ≡ oldest ++ newest)
      × (length newest + k ≡ length history)
      × (drop k (history ++ entry ∷ []) ≡ newest ++ entry ∷ [])
drop-split zero history entry m = ([], history, refl, omega arith, refl)
drop-split (suc k) [] entry m = absurd (omega arith)
drop-split (suc k) (x ∷ history) entry m =
    let (oldest, newest, e, l, d) = drop-split k history entry (omega arith) in
    (x ∷ oldest, newest, ap (λ h. x ∷ h) e, omega (arith, l), d)

append-IsEntered :
    (history : List CommandEntry) (entry : CommandEntry)
    → IsEntered history entry (append history entry)
unfolding append
append-IsEntered history entry =
    let k = length history + 1 - 25 in
    let (oldest, newest, e, l, d) = drop-split k history entry (omega arith) in
    (oldest, newest, e, omega (arith, l), d)

and_true : (b : Bool) → (b && true) ≡ b
and_true true = refl
and_true false = refl

-- One more when the test holds.
abbrev pub raised_if : Bool → ℕ → ℕ
raised_if true n = suc n
raised_if false n = n

-- The result of the command `cmd` with this frame is recorded: its entry is in the history, the
-- totals count it, and so do its own statistics, and those of no other command.
abbrev pub IsRecorded : ℕ → Bytes → ℕ → Device → Bool → Device → Type 0
IsRecorded cmd frame key d success d' =
    let before = stats_of key d.command_stats in
    let after = stats_of key d'.command_stats in
    ((entry : CommandEntry) × (entry.command ≡ cmd)
      × (entry.frame_hex ≡ hex frame)
      × (entry.success ≡ success)
      × IsEntered d.command_history entry d'.command_history)
    × (d'.total_commands_sent ≡ suc d.total_commands_sent)
    × (d'.total_commands_success ≡ raised_if success d.total_commands_success)
    × (d'.total_commands_failure ≡ raised_if (not success) d.total_commands_failure)
    × (after.sent ≡ raised_if (cmd == key) before.sent)
    × (after.success ≡ raised_if (cmd == key && success) before.success)
    × (after.failure ≡ raised_if (cmd == key && not success) before.failure)

module _ (key : ℕ) (d : Device) where
  -- The commands' history, the totals and the counts of the command `key` are those of `d`.
  abbrev IsTally :
      List CommandEntry → List NotificationEntry → ℕ → ℕ → ℕ → List (ℕ × Stats) → Type 0
  IsTally h n s t f stats =
      (h ≡ d.command_history)
      × (s ≡ d.total_commands_sent)
      × (t ≡ d.total_commands_success)
      × (f ≡ d.total_commands_failure)
      × ((stats_of key stats).sent ≡ (stats_of key d.command_stats).sent)
      × ((stats_of key stats).success ≡ (stats_of key d.command_stats).success)
      × ((stats_of key stats).failure ≡ (stats_of key d.command_stats).failure)

  remarked-IsTally :
      (h : List CommandEntry) (n : List NotificationEntry) (s t f : ℕ) (stats : List (ℕ × Stats))
      (command timestamp : ℕ) (frame : Bytes)
      → IsTally h n s t f stats
      → IsTally h n s t f (change_stats command (noticed timestamp frame) stats)
  remarked-IsTally h n s t f stats command timestamp frame (e, x, y, z, a, b, c) =
      let note = noticed timestamp frame in
      (
        e,
        x,
        y,
        z,
        count_kept (λ c. c.sent) key command note stats (λ c. refl) ∙ a,
        count_kept (λ c. c.success) key command note stats (λ c. refl) ∙ b,
        count_kept (λ c. c.failure) key command note stats (λ c. refl) ∙ c,
      )

  raised_own :
      (count : Stats → ℕ) (cmd : ℕ) (f : Stats → Stats) (stats : List (ℕ × Stats)) (b : Bool)
      → ((s : Stats) → count (f s) ≡ raised_if b (count s))
      → count (stats_of key stats) ≡ count (stats_of key d.command_stats)
      → count (stats_of key (change_stats cmd f stats))
        ≡ raised_if (cmd == key && b) (count (stats_of key d.command_stats))
  raised_own count cmd f stats b step same =
      count-change_stats count key cmd f stats ∙ chosen (cmd == key)
    where
      chosen :
          (own : Bool)
          → (if own then count (f (stats_of key stats)) else count (stats_of key stats))
            ≡ raised_if (own && b) (count (stats_of key d.command_stats))
      chosen true = step (stats_of key stats) ∙ ap (raised_if b) same
      chosen false = same

  recorded-IsEntered :
      (h : List CommandEntry) (entry : CommandEntry)
      → h ≡ d.command_history
      → IsEntered d.command_history entry (append h entry)
  recorded-IsEntered h entry e =
      subst (λ k. IsEntered k entry (append h entry)) e (append-IsEntered h entry)

  module _ (now cmd : ℕ) (frame : Bytes) (made : ℕ) (d' : Device)
      (tally : IsTally d'.command_history d'.notification_history d'.total_commands_sent
        d'.total_commands_success d'.total_commands_failure d'.command_stats) where
    success-IsRecorded :
        IsRecorded cmd frame key d true (record_command_result now cmd frame made true none d')
    unfolding record_command_result
    success-IsRecorded =
        let (e, x, y, z, a, b, c) = tally in
        let f = succeeded now in
        (
          (_, refl, refl, refl, recorded-IsEntered d'.command_history _ e),
          ap suc x,
          ap suc y,
          z,
          raised_own (λ c. c.sent) cmd f d'.command_stats true (λ c. refl) a
              ∙ ap (λ o. raised_if o (stats_of key d.command_stats).sent) (and_true (cmd == key)),
          raised_own (λ c. c.success) cmd f d'.command_stats true (λ c. refl) b,
          raised_own (λ c. c.failure) cmd f d'.command_stats false (λ c. refl) c,
        )

    failure-IsRecorded :
        (error : Option String)
        → IsRecorded cmd frame key d false (record_command_result now cmd frame made false error d')
    unfolding record_command_result
    failure-IsRecorded error =
        let (e, x, y, z, a, b, c) = tally in
        let f = failed now error in
        (
          (_, refl, refl, refl, recorded-IsEntered d'.command_history _ e),
          ap suc x,
          y,
          ap suc z,
          raised_own (λ c. c.sent) cmd f d'.command_stats true (λ c. refl) a
              ∙ ap (λ o. raised_if o (stats_of key d.command_stats).sent) (and_true (cmd == key)),
          raised_own (λ c. c.success) cmd f d'.command_stats false (λ c. refl) b,
          raised_own (λ c. c.failure) cmd f d'.command_stats true (λ c. refl) c,
        )

-- What `send_command` leaves: the result recorded with the frame that `build_command` returned, or,
-- after its exception, the device as it was.
abbrev pub IsSent : ℕ → Bytes → ℕ → Device → Result Bool × Device → Type 0
IsSent cmd payload key d (ok success, d') =
    (frame : Bytes) × (build_command cmd payload ≡ ok frame) × IsRecorded cmd frame key d success d'
IsSent cmd payload key d (err e, d') = (build_command cmd payload ≡ err e) × (d' ≡ d)

-- Whatever the Bluetooth library answers to the attempts and whatever arrives meanwhile,
-- `send_command` with a command and payload that `build_command` accepts enters one entry in the
-- history, behind the newest 24 or fewer of those before it, with the command, its frame and
-- whether it succeeded; it counts one command sent and one success or one failure, as it returns,
-- in the totals and in the command's own statistics, and leaves the counts of every other command
-- `key` as they are. With a command or payload that raises it changes nothing.
pub send_command-IsSent :
    (now cmd : ℕ) (payload : Bytes) (script : List Attempt) (key : ℕ) (d : Device)
    → IsSent cmd payload key d (send_command now cmd payload script d)
unfolding send_command
send_command-IsSent now cmd payload script key d = by_frame (build_command cmd payload) refl
  where
    by_result :
        (frame : Bytes)
        → build_command cmd payload ≡ ok frame
        → (r : Bool × Device)
        → Outcome (IsRecorded cmd frame key d true) (IsRecorded cmd frame key d false) r
        → IsSent cmd payload key d (ok r.0, r.1)
    by_result frame e (true, d') h = (frame, e, h)
    by_result frame e (false, d') h = (frame, e, h)

    by_frame :
        (r : Result Bytes)
        → build_command cmd payload ≡ r
        → IsSent cmd payload key d (sent r (λ frame. attempts now cmd frame script 0 none d) d)
    by_frame (err e) b = (b, refl)
    by_frame (ok frame) b = by_result frame b (attempts now cmd frame script 0 none d) (
        attempts-Outcome (IsTally key d) (λ h n s t f stats entry k. k) (remarked-IsTally key d) now
          cmd frame (IsRecorded cmd frame key d true) (IsRecorded cmd frame key d false)
          (λ made d' k. success-IsRecorded key d now cmd frame made d' k)
          (λ made error d' k. failure-IsRecorded key d now cmd frame made d' k error) script 0 none
          d (refl, refl, refl, refl, refl, refl, refl))
