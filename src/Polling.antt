-- ===== src/Polling.antt =====
-- The polling of custom_components/marstek_ble/coordinator.py, with the constants of const.py:
-- `MarstekDataUpdateCoordinator`'s intervals, schedule, poll cycles and global backoff, and the
-- schedules that product_coordinator.py takes from a product. Times are in seconds for intervals
-- and in milliseconds for clock readings and delays.
pub mod Schedule
pub mod Pause
pub mod Cycles
use ha_marstek_ble.Prelude.{
  ℕ, zero, suc, ◌+◌, ◌-◌, ◌*◌, ◌/◌, ◌%◌, max, Bool, true, false, not, ◌&&◌, ◌||◌, Option, none,
  some, List, [], ◌∷◌, ◌++◌, map, all, length, get_or, ltb, leb, ◌==◌, if◌then◌else◌, ℤ, pos,
  pos_part, ltb_ℤ,
}
use ha_marstek_ble.Struct.{Bytes}
use ha_marstek_ble.ProductRuntime.{PollCommand}

-- The requested intervals may be negative; the kept ones are not.
unfoldable pub sanitize_fast_poll_interval : ℤ → ℕ
sanitize_fast_poll_interval poll_interval =
    if ltb_ℤ poll_interval (pos 1)
    then 1
    else if ltb_ℤ (pos 60) poll_interval
    then 60
    else pos_part poll_interval

abbrev at_most : ℤ → ℕ
at_most interval = if ltb_ℤ (pos 300) interval then 300 else pos_part interval

-- `_sanitize_medium_poll_interval`, for the fast interval in force.
unfoldable pub sanitize_medium_poll_interval : ℤ → ℕ → ℕ
sanitize_medium_poll_interval medium_poll_interval fast_interval =
    let clamped =
      at_most (if ltb_ℤ medium_poll_interval (pos 5) then pos 5 else medium_poll_interval) in
    if ltb clamped fast_interval then fast_interval else clamped

-- `math.ceil(a / b)` of intervals; `b` is at least 1.
abbrev ceil_div : ℕ → ℕ → ℕ
ceil_div a b = (a + (b - 1)) / b

-- The polling state of a coordinator. `timer` is the interval of the time based poll.
pub record Coordinator : Type 0 where
  pub poll_interval : ℕ
  pub medium_poll_interval : ℕ
  pub medium_poll_cycle : ℕ
  pub fast_poll_count : ℕ
  pub medium_poll_count : ℕ
  pub initial_poll_done : Bool
  pub timer : Option ℕ
  pub last_poll_started_at : Option ℕ
  pub last_poll_completed_at : Option ℕ

-- `_update_poll_schedule`: the old timer is cancelled and a new one is started.
unfoldable pub update_poll_schedule : Coordinator → Coordinator
update_poll_schedule c = record c {
  medium_poll_cycle = max 1 (ceil_div c.medium_poll_interval c.poll_interval);
  timer = some c.poll_interval;
}

-- `__init__`, up to the schedule.
abbrev pub unscheduled : ℕ → ℕ → Coordinator
unscheduled poll_interval medium_poll_interval = record {
  poll_interval = poll_interval;
  medium_poll_interval = medium_poll_interval;
  medium_poll_cycle = 1;
  fast_poll_count = 0;
  medium_poll_count = 0;
  initial_poll_done = false;
  timer = none;
  last_poll_started_at = none;
  last_poll_completed_at = none;
}

-- `__init__`
unfoldable pub new_coordinator : ℤ → ℤ → Coordinator
unfolding sanitize_fast_poll_interval sanitize_medium_poll_interval update_poll_schedule
new_coordinator poll_interval medium_poll_interval =
    let fast = sanitize_fast_poll_interval poll_interval in
    update_poll_schedule
      (unscheduled fast (sanitize_medium_poll_interval medium_poll_interval fast))

abbrev pub requested : Option ℤ → ℕ → ℤ
requested none current = pos current
requested (some interval) current = interval

-- The assignments of `set_poll_intervals`.
abbrev pub with_intervals : ℕ → ℕ → Coordinator → Coordinator
with_intervals fast medium c = record c {
  poll_interval = fast;
  medium_poll_interval = medium;
  fast_poll_count = 0;
  medium_poll_count = 0;
}

-- `set_poll_intervals`
unfoldable pub set_poll_intervals : ℤ → Option ℤ → Coordinator → Coordinator
unfolding sanitize_fast_poll_interval sanitize_medium_poll_interval update_poll_schedule
set_poll_intervals poll_interval medium_poll_interval c =
    let fast = sanitize_fast_poll_interval poll_interval in
    let medium =
      sanitize_medium_poll_interval (requested medium_poll_interval c.medium_poll_interval) fast in
    if fast == c.poll_interval && medium == c.medium_poll_interval
    then c
    else update_poll_schedule (with_intervals fast medium c)

-- `_GLOBAL_BACKOFF_LEVEL` and `_GLOBAL_BACKOFF_UNTIL`, which all coordinators share.
pub record Backoff : Type 0 where
  pub level : ℕ
  pub until : Option ℕ

abbrev pub backoff_intervals : List ℕ
backoff_intervals = 1 ∷ 5 ∷ 15 ∷ 30 ∷ 60 ∷ []

abbrev pub raised : ℕ → ℕ
raised level = if ltb level (length backoff_intervals - 1) then level + 1 else level

abbrev is_some : Option ℕ → Bool
is_some none = false
is_some (some n) = not (n == 0)

-- `_handle_backoff`, with the clock at `now`.
unfoldable pub handle_backoff : Bool → ℕ → Backoff → Backoff
handle_backoff had_failure now b =
    if had_failure
    then (record {
      level = raised b.level;
      until = some (now + 1000 * get_or backoff_intervals 0 (raised b.level));
    })
    else if ltb 0 b.level || is_some b.until
    then record { level = 0; until = none }
    else b

-- The test at the start of `_async_run_poll`.
unfoldable pub is_paused : Option ℕ → ℕ → Bool
is_paused none now = false
is_paused (some until) now = not (until == 0) && ltb now until

-- `send` sends a command and tells whether it succeeded; `_safe_send_and_sleep` goes on after a
-- failure and keeps the outcome in `_current_poll_commands`.
unfoldable pub poll_commands :
    {S : Type 0} → (PollCommand → S → Bool × S) → List PollCommand → S → List Bool × S
poll_commands send [] s = ([], s)
poll_commands send (c ∷ commands) s =
    let (success, s') = send c s in
    let (outcomes, s'') = poll_commands send commands s' in (success ∷ outcomes, s'')

-- Whether this cycle, the `count`-th, has a medium poll.
abbrev pub medium_due : Coordinator → Bool
medium_due c = not c.initial_poll_done || (suc c.fast_poll_count % c.medium_poll_cycle) == 0

abbrev pub cycle_commands : Coordinator → List PollCommand → List PollCommand → List PollCommand
cycle_commands c fast medium = fast ++ (if medium_due c then medium else [])

-- `_async_run_poll` with the schedules `fast` and `medium`, begun at `start` and ended at `stop`.
unfoldable pub run_poll :
    {S : Type 0}
    → (PollCommand → S → Bool × S)
    → List PollCommand
    → List PollCommand
    → ℕ
    → ℕ
    → Coordinator × Backoff × S
    → Coordinator × Backoff × S
unfolding is_paused poll_commands handle_backoff
run_poll send fast medium start stop (c, b, s) =
    let (outcomes, s') = poll_commands send (cycle_commands c fast medium) s in
    if is_paused b.until start then (c, b, s) else (
      record c {
        fast_poll_count = suc c.fast_poll_count;
        medium_poll_count = if medium_due c then suc c.medium_poll_count else c.medium_poll_count;
        initial_poll_done = true;
        last_poll_started_at = some start;
        last_poll_completed_at = some stop;
      },
      handle_backoff (not (all (λ o. o) outcomes)) stop b,
      s',
    )

-- `_poll_fast` and `_poll_medium` of coordinator.py, the schedules of a device without a product.
abbrev poll : ℕ → Bytes → ℕ → PollCommand
poll command payload delay = record { command = command; payload = payload; delay = delay }

unfoldable pub legacy_fast_poll : List PollCommand
legacy_fast_poll = poll 0x03 [] 100 ∷ poll 0x14 [] 100 ∷ []

unfoldable pub legacy_medium_poll : List PollCommand
legacy_medium_poll =
    poll 0x0D [] 300
    ∷ poll 0x08 [] 300
    ∷ poll 0x1A [] 300
    ∷ poll 0x22 [] 300
    ∷ poll 0x21 (0x0B ∷ []) 300
    ∷ poll 0x24 [] 300
    ∷ poll 0x04 [] 300
    ∷ poll 0x13 [] 300
    ∷ poll 0x28 [] 300
    ∷ poll 0x1C [] 300
    ∷ []
