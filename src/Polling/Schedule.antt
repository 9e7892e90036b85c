-- ===== src/Polling/Schedule.antt =====
-- The intervals and the schedule of custom_components/marstek_ble/coordinator.py and their bounds.
use ha_marstek_ble.Prelude.{
  ℕ, zero, suc, ◌+◌, ◌-◌, ◌*◌, ◌/◌, ◌%◌, ◌≤◌, ◌<◌, max, ◌≡◌, refl, Bool, true, false, Option, some,
  if◌then◌else◌, ℤ, pos, negsuc, arith,
}
use native.Mathlib.Nat.{div-add-mod, mod-lt}
use ha_marstek_ble.Polling.{
  Coordinator, sanitize_fast_poll_interval, sanitize_medium_poll_interval, update_poll_schedule,
  unscheduled, requested, with_intervals, new_coordinator, set_poll_intervals,
}

pub sanitize_fast-bounds :
    (z : ℤ) → (1 ≤ sanitize_fast_poll_interval z) × (sanitize_fast_poll_interval z ≤ 60)
unfolding sanitize_fast_poll_interval
sanitize_fast-bounds (pos n) = ground arith
sanitize_fast-bounds (negsuc n) = ground arith

sanitize_medium-bounds :
    (z : ℤ) (fast : ℕ)
    → fast ≤ 60
    → (5 ≤ sanitize_medium_poll_interval z fast)
      × (sanitize_medium_poll_interval z fast ≤ 300)
      × (fast ≤ sanitize_medium_poll_interval z fast)
unfolding sanitize_medium_poll_interval
sanitize_medium-bounds (pos n) fast h = ground arith
sanitize_medium-bounds (negsuc n) fast h = ground arith

-- The intervals are in range, the medium one no shorter than the fast one; the timer runs at the
-- fast one, and the cycle is the least number of fast polls that take the medium interval.
unfoldable pub IsScheduled : Coordinator → Type 0
IsScheduled c =
    (1 ≤ c.poll_interval)
    × (c.poll_interval ≤ 60)
    × (5 ≤ c.medium_poll_interval)
    × (c.medium_poll_interval ≤ 300)
    × (c.poll_interval ≤ c.medium_poll_interval)
    × (c.medium_poll_interval ≤ c.poll_interval * c.medium_poll_cycle)
    × (c.poll_interval * c.medium_poll_cycle < c.medium_poll_interval + c.poll_interval)
    × (c.timer ≡ some c.poll_interval)

max-suc : (q : ℕ) → max 1 (suc q) ≡ suc q
max-suc q = omega arith

ceil_bounds :
    (m f : ℕ)
    → 1 ≤ f
    → f ≤ m
    → (m ≤ f * max 1 ((m + (f - 1)) / f)) × (f * max 1 ((m + (f - 1)) / f) < m + f)
ceil_bounds m f one le =
    at ((m + (f - 1)) / f) ((m + (f - 1)) % f) (div-add-mod (m + (f - 1)) f)
      (mod-lt (m + (f - 1)) one)
  where
    at : (q r : ℕ) → f * q + r ≡ m + (f - 1) → r < f → (m ≤ f * max 1 q) × (f * max 1 q < m + f)
    at zero r e h = absurd (omega arith)
    at (suc q) r e h = rw (max-suc q) (omega arith, omega arith)

update_poll_schedule-IsScheduled :
    (c : Coordinator)
    → (1 ≤ c.poll_interval) × (c.poll_interval ≤ 60)
    → (5 ≤ c.medium_poll_interval)
      × (c.medium_poll_interval ≤ 300)
      × (c.poll_interval ≤ c.medium_poll_interval)
    → IsScheduled (update_poll_schedule c)
unfolding IsScheduled update_poll_schedule
update_poll_schedule-IsScheduled c (one, sixty) (five, most, le) =
    let (covers, least) = ceil_bounds c.medium_poll_interval c.poll_interval one le in
    (one, sixty, five, most, le, covers, least, refl)

-- Whatever intervals are requested, a new coordinator's are in range and its schedule is theirs.
pub new_coordinator-IsScheduled :
    (poll_interval medium_poll_interval : ℤ)
    → IsScheduled (new_coordinator poll_interval medium_poll_interval)
unfolding new_coordinator
new_coordinator-IsScheduled poll_interval medium_poll_interval =
    let fast = sanitize_fast_poll_interval poll_interval in
    update_poll_schedule-IsScheduled
      (unscheduled fast (sanitize_medium_poll_interval medium_poll_interval fast))
      (sanitize_fast-bounds poll_interval)
      (sanitize_medium-bounds medium_poll_interval (sanitize_fast_poll_interval poll_interval)
        (sanitize_fast-bounds poll_interval).1)

if_IsScheduled :
    (b : Bool) (x y : Coordinator)
    → IsScheduled x
    → IsScheduled y
    → IsScheduled (if b then x else y)
if_IsScheduled true x y h k = h
if_IsScheduled false x y h k = k

-- `set_poll_intervals` keeps the schedule in range, whatever is requested.
pub set_poll_intervals-IsScheduled :
    (poll_interval : ℤ) (medium_poll_interval : Option ℤ) (c : Coordinator)
    → IsScheduled c
    → IsScheduled (set_poll_intervals poll_interval medium_poll_interval c)
unfolding set_poll_intervals
set_poll_intervals-IsScheduled poll_interval medium_poll_interval c h =
    let fast = sanitize_fast_poll_interval poll_interval in
    let request = requested medium_poll_interval c.medium_poll_interval in
    if_IsScheduled _ c _ h (
      update_poll_schedule-IsScheduled
        (with_intervals fast (sanitize_medium_poll_interval request fast) c)
        (sanitize_fast-bounds poll_interval)
        (sanitize_medium-bounds request (sanitize_fast_poll_interval poll_interval)
          (sanitize_fast-bounds poll_interval).1))
