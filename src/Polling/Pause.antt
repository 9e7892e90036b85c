-- ===== src/Polling/Pause.antt =====
-- The poll cycles and the global backoff of custom_components/marstek_ble/coordinator.py.
use native.Mathlib.Nat.{dvd_iff_mod-eq-zero}
use Prim.Native.Nat.{◌∣◌}
use ha_marstek_ble.Prelude.{
  ◌%◌, ◌==◌, ==_iff, Bool-cases, ◌⊎◌, inl, inr, sym, ℕ, zero, suc, ◌+◌, ◌≤◌, ◌<◌, min, ◌≡◌, refl,
  ap, ◌∙◌, Bool, true, false, Option, none, some, List, [], ◌∷◌, ◌++◌, all, length, get_or, arith,
}
use ha_marstek_ble.ProductRuntime.{PollCommand}
use ha_marstek_ble.Polling.{
  Coordinator, Backoff, backoff_intervals, raised, handle_backoff, is_paused, poll_commands,
  medium_due, cycle_commands, run_poll,
}

-- The backoff after failed polls that ended at these times, the first one first.
unfoldable pub failures : List ℕ → Backoff → Backoff
unfolding handle_backoff
failures [] b = b
failures (now ∷ later) b = failures later (handle_backoff true now b)

raised-min : (level n : ℕ) → level ≤ 4 → min (raised level + n) 4 ≡ min (level + suc n) 4
raised-min level n h = ground arith

-- From a level of at most 4, a run of failed polls raises the level by one each, up to the last of
-- the five intervals.
pub failures_level :
    (times : List ℕ) (b : Backoff)
    → b.level ≤ 4
    → (failures times b).level ≡ min (b.level + length times) 4
unfolding failures
failures_level [] b h = omega arith
failures_level (now ∷ later) b h =
    failures_level later (handle_backoff true now b) (ground arith)
    ∙ raised-min b.level (length later) h

interval-bounds :
    (level : ℕ)
    → level ≤ 4
    → (5 ≤ get_or backoff_intervals 0 (raised level))
      × (get_or backoff_intervals 0 (raised level) ≤ 60)
interval-bounds zero h = (omega arith, omega arith)
interval-bounds (suc zero) h = (omega arith, omega arith)
interval-bounds (suc (suc zero)) h = (omega arith, omega arith)
interval-bounds (suc (suc (suc zero))) h = (omega arith, omega arith)
interval-bounds (suc (suc (suc (suc zero)))) h = (omega arith, omega arith)
interval-bounds (suc (suc (suc (suc (suc level))))) h = absurd (omega arith)

-- After a failed poll that ended at `now`, on a level of at most 4, polling is paused for at least 5
-- and at most 60 seconds.
pub failure_pauses :
    (now t : ℕ) (b : Backoff)
    → b.level ≤ 4
    → (t < now + 5000 → is_paused (handle_backoff true now b).until t ≡ true)
      × (now + 60_000 ≤ t → is_paused (handle_backoff true now b).until t ≡ false)
unfolding handle_backoff is_paused
failure_pauses now t b h =
    let (five, sixty) = interval-bounds b.level h in (λ lt. ground arith, λ le. ground arith)

-- A paused poll changes nothing.
paused_poll :
    {S : Type 0} (send : PollCommand → S → Bool × S) (fast medium : List PollCommand)
    (start stop : ℕ) (c : Coordinator) (b : Backoff) (s : S)
    → is_paused b.until start ≡ true
    → run_poll send fast medium start stop (c, b, s) ≡ (c, b, s)
unfolding run_poll
paused_poll send fast medium start stop c b s h = rw h

-- On a backoff level of at most 4, a poll cycle that is not paused, has a command that fails and
-- ends at `stop` is followed by a pause: a cycle that starts before 5 seconds have passed leaves the
-- coordinator, the backoff and the state that commands change as they are.
pub failed_poll_pauses :
    {S : Type 0} (send : PollCommand → S → Bool × S) (fast medium : List PollCommand)
    (start stop start' stop' : ℕ) (c : Coordinator) (b : Backoff) (s : S)
    → b.level ≤ 4
    → is_paused b.until start ≡ false
    → all (λ o. o) (poll_commands send (cycle_commands c fast medium) s).0 ≡ false
    → start' < stop + 5000
    → run_poll send fast medium start' stop' (run_poll send fast medium start stop (c, b, s))
      ≡ run_poll send fast medium start stop (c, b, s)
unfolding run_poll
failed_poll_pauses send fast medium start stop start' stop' c b s level running failed soon =
    rw (running, failed)
      (paused_poll send fast medium start' stop' _ (handle_backoff true stop b) _
        ((failure_pauses stop start' b level).0 soon))

-- `send`, with a record of the commands that were sent.
abbrev pub logged :
    {S : Type 0}
    → (PollCommand → S → Bool × S)
    → PollCommand
    → S × List PollCommand
    → Bool × (S × List PollCommand)
logged send c (s, log) = let (success, s') = send c s in (success, (s', log ++ c ∷ []))

append_assoc :
    {A : Type 0} (xs : List A) (y : A) (ys : List A) → (xs ++ y ∷ []) ++ ys ≡ xs ++ y ∷ ys
append_assoc [] y ys = refl
append_assoc (x ∷ xs) y ys = ap (λ l. x ∷ l) (append_assoc xs y ys)

pub append_nil : {A : Type 0} (xs : List A) → xs ≡ xs ++ []
append_nil [] = refl
append_nil (x ∷ xs) = ap (λ l. x ∷ l) (append_nil xs)

pub commands_logged :
    {S : Type 0} (send : PollCommand → S → Bool × S) (commands : List PollCommand) (s : S)
    (log : List PollCommand)
    → (poll_commands (logged send) commands (s, log)).1.1 ≡ log ++ commands
unfolding poll_commands
commands_logged send [] s log = append_nil log
commands_logged send (c ∷ commands) s log =
    commands_logged send commands (send c s).1 (log ++ c ∷ []) ∙ append_assoc log c commands

-- A medium poll belongs to the first cycle of all, and to each whose number is a multiple of the
-- medium cycle.
abbrev pub IsDue : Coordinator → Type 0
IsDue c = (c.initial_poll_done ≡ false) ⊎ (c.medium_poll_cycle ∣ suc c.fast_poll_count)

IsDue-cases :
    (c : Coordinator) → IsDue c × (medium_due c ≡ true) ⊎ (¬ IsDue c) × (medium_due c ≡ false)
IsDue-cases c = elim (Bool-cases c.initial_poll_done) [
  | inr first ↦ inl (inl first, rw first refl)
  | inl done ↦ elim (Bool-cases (suc c.fast_poll_count % c.medium_poll_cycle == 0)) [
    | inl t ↦
        inl
          (inr ((dvd_iff_mod-eq-zero c.medium_poll_cycle).1 ((==_iff _ 0).0 t)), rw (done, t) refl)
    | inr f ↦ inr (not_due done f, rw (done, f) refl)
  ]
]
  where
    not_due :
        c.initial_poll_done ≡ true
        → (suc c.fast_poll_count % c.medium_poll_cycle == 0) ≡ false
        → ¬ IsDue c
    not_due done f (inl first) = cc
    not_due done f (inr divides) =
        let e = (==_iff _ 0).1 ((dvd_iff_mod-eq-zero c.medium_poll_cycle).0 divides) in cc

-- A cycle that is not paused sends, whichever commands fail, each command of the fast schedule once
-- and in order; after them those of the medium schedule, once and in order, when it is the first
-- cycle or the count of fast polls, this one included, is a multiple of the medium cycle, and no
-- other command when it is neither. It counts one fast poll, and a medium poll when it sent one.
pub cycle_sends :
    {S : Type 0} (send : PollCommand → S → Bool × S) (fast medium : List PollCommand)
    (start stop : ℕ) (c : Coordinator) (b : Backoff) (s : S) (log : List PollCommand)
    → is_paused b.until start ≡ false
    → let (c', b', (s', log')) = run_poll (logged send) fast medium start stop (c, b, (s, log)) in
      (c'.fast_poll_count ≡ suc c.fast_poll_count)
      × (c'.initial_poll_done ≡ true)
      × (IsDue c
            × (log' ≡ log ++ (fast ++ medium))
            × (c'.medium_poll_count ≡ suc c.medium_poll_count)
          ⊎ (¬ IsDue c) × (log' ≡ log ++ fast) × (c'.medium_poll_count ≡ c.medium_poll_count))
unfolding run_poll
cycle_sends send fast medium start stop c b s log h = elim (IsDue-cases c) [
  | inl (due, e) ↦
      rw (h, e) (refl, refl, inl (due, commands_logged send (fast ++ medium) s log, refl))
  | inr (not_due, e) ↦
      rw (h, e, sym (append_nil fast))
        (refl, refl, inr (not_due, commands_logged send fast s log, refl))
]

cleared :
    (level now t : ℕ) (until : Option ℕ)
    → is_paused (handle_backoff false now (record { level = level; until = until })).until t ≡ false
unfolding handle_backoff is_paused
cleared level now t none = ground arith
cleared level now t (some u) = ground arith

-- A cycle that is not paused and whose commands all succeed leaves no backoff: the next
-- cycle is not paused, whenever it starts.
pub success_resumes :
    {S : Type 0} (send : PollCommand → S → Bool × S) (fast medium : List PollCommand)
    (start stop later : ℕ) (c : Coordinator) (b : Backoff) (s : S)
    → is_paused b.until start ≡ false
    → all (λ o. o) (poll_commands send (cycle_commands c fast medium) s).0 ≡ true
    → is_paused (run_poll send fast medium start stop (c, b, s)).1.until later ≡ false
unfolding run_poll
success_resumes send fast medium start stop later c b s running success =
    rw (running, success) (cleared b.level stop later b.until)
