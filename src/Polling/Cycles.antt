-- ===== src/Polling/Cycles.antt =====
-- Runs of poll cycles of custom_components/marstek_ble/coordinator.py.
use native.Mathlib.Nat.{mod-add-mod, mod_self, mod-eq_of_lt, mod-lt}
use ha_marstek_ble.Prelude.{
  ℕ, zero, suc, ◌+◌, ◌*◌, ◌%◌, ◌<◌, ◌≤◌, Bool, true, false, inl, inr, List, [], ◌∷◌, ◌++◌, ◌≡◌, ◌⊎◌,
  refl, sym, ap, ◌∙◌, ◌==◌, ==_iff, arith, Bool-cases, length,
}
use ha_marstek_ble.ProductRuntime.{PollCommand}
use ha_marstek_ble.Polling.{Coordinator, Backoff, run_poll, is_paused, cycle_commands}
use ha_marstek_ble.Polling.Pause.{logged, commands_logged, append_nil}

suc_nonzero : (n : ℕ) → (suc n == 0) ≡ false
suc_nonzero n = ground arith

-- The same commands `n` times.
abbrev pub times : ℕ → List PollCommand → List PollCommand
times zero commands = []
times (suc n) commands = commands ++ times n commands

++_assoc : {A : Type 0} (xs ys zs : List A) → (xs ++ ys) ++ zs ≡ xs ++ (ys ++ zs)
++_assoc [] ys zs = refl
++_assoc (x ∷ xs) ys zs = ap (λ l. x ∷ l) (++_assoc xs ys zs)

module _ {S : Type 0} (send : PollCommand → S → Bool × S) (fast medium : List PollCommand) where
  -- Cycles one after the other, each with the times of its start and its end.
  unfoldable pub run_polls : List (ℕ × ℕ) → Coordinator × Backoff × S → Coordinator × Backoff × S
  unfolding run_poll
  run_polls [] state = state
  run_polls ((start, stop) ∷ cycles) state =
      run_polls cycles (run_poll send fast medium start stop state)

  -- No cycle starts in a pause.
  unfoldable pub IsRunning : List (ℕ × ℕ) → Coordinator × Backoff × S → Type 0
  unfolding run_poll
  IsRunning [] state = Unit
  IsRunning ((start, stop) ∷ cycles) state =
      (is_paused state.1.until start ≡ false)
      × IsRunning cycles (run_poll send fast medium start stop state)

-- The remainder of the number of fast polls counts on to the cycle.
next_remainder :
    (f k r : ℕ)
    → 0 < k
    → f % k ≡ r
    → (suc f % k ≡ 0) × (suc r ≡ k) ⊎ (suc f % k ≡ suc r) × (suc r < k)
next_remainder f k r h e = elim (Bool-cases (suc r == k)) [
  | inl t ↦ inl (stepped ∙ rw ((==_iff (suc r) k).0 t) (mod_self k), (==_iff (suc r) k).0 t)
  | inr n ↦ inr (stepped ∙ mod-eq_of_lt (below n), below n)
]
  where
    not_equal : suc r ≤ k → (suc r == k) ≡ false → suc r < k
    not_equal m n = ground arith

    stepped : suc f % k ≡ suc r % k
    stepped =
        ap (λ (n : ℕ). n % k) (omega arith)
        ∙ sym (mod-add-mod f k 1)
        ∙ ap (λ (n : ℕ). n % k) (omega (arith, e))

    below : (suc r == k) ≡ false → suc r < k
    below n = not_equal (omega (arith, mod-lt f h, e)) n

module _ {S : Type 0} (send : PollCommand → S → Bool × S) (fast medium : List PollCommand) where
  -- A cycle that is not paused.
  polled :
      (start stop : ℕ) (c : Coordinator) (b : Backoff) (s : S) (log : List PollCommand)
      → is_paused b.until start ≡ false
      → let (c', b', (s', log')) = run_poll (logged send) fast medium start stop (c, b, (s, log)) in
        (c'.initial_poll_done ≡ true)
        × (c'.medium_poll_cycle ≡ c.medium_poll_cycle)
        × (c'.fast_poll_count ≡ suc c.fast_poll_count)
        × (log' ≡ log ++ cycle_commands c fast medium)
  unfolding run_poll
  polled start stop c b s log running =
      rw running (refl, refl, refl, commands_logged send (cycle_commands c fast medium) s log)

  -- What the cycle sends, by the remainder of its number.
  sent_due :
      (c : Coordinator)
      → suc c.fast_poll_count % c.medium_poll_cycle ≡ 0
      → cycle_commands c fast medium ≡ fast ++ medium
  sent_due c e = elim (Bool-cases c.initial_poll_done) [
    | inl t ↦ rw (t, e) refl
    | inr f ↦ rw f refl
  ]

  sent_fast :
      (c : Coordinator) (r : ℕ)
      → c.initial_poll_done ≡ true
      → suc c.fast_poll_count % c.medium_poll_cycle ≡ suc r
      → cycle_commands c fast medium ≡ fast
  sent_fast c r done e = rw (done, e, suc_nonzero r) (sym (append_nil fast))

  -- What a run adds to the record of the commands: before the end of the medium cycle the fast
  -- schedule only, and across it one medium schedule.
  abbrev Counted : ℕ → ℕ → ℕ → List PollCommand → List PollCommand → Type 0
  Counted r n k log log' =
      (r + n < k → log' ≡ log ++ times n fast)
      × (k ≤ r + n
          → (i j : ℕ) × (i + suc j ≡ n)
            × (r + suc i ≡ k)
            × (log' ≡ log ++ (times i fast ++ ((fast ++ medium) ++ times j fast))))

  counted :
      (cycles : List (ℕ × ℕ)) (c : Coordinator) (b : Backoff) (s : S) (log : List PollCommand)
      (k r : ℕ)
      → IsRunning (logged send) fast medium cycles (c, b, (s, log))
      → c.initial_poll_done ≡ true
      → c.medium_poll_cycle ≡ k
      → 0 < k
      → c.fast_poll_count % k ≡ r
      → r + length cycles < 2 * k
      → Counted r
          (length cycles)
          k
          log
          (run_polls (logged send) fast medium cycles (c, b, (s, log))).2.1
  unfolding run_polls IsRunning
  counted [] c b s log k r run done cycle positive e short =
      (λ h. append_nil log, λ h. absurd (omega (arith, mod-lt c.fast_poll_count positive, e)))
  counted ((start, stop) ∷ cycles) c b s log k r (now, run) done cycle positive e short =
      let (c', b', (s', log')) = run_poll (logged send) fast medium start stop (c, b, (s, log)) in
      let (done', cycle', fast', sent') = polled start stop c b s log now in
      elim (next_remainder c.fast_poll_count k r positive e) [
        | inl (zero_now, full) ↦
            let (few, many) =
              counted cycles c' b' s' log' k 0 run done' (cycle' ∙ cycle) positive
                (rw fast' zero_now) (omega arith) in
            let this : log' ≡ log ++ (fast ++ medium) =
              sent' ∙ ap (λ l. log ++ l) (sent_due c (rw cycle zero_now)) in
            (
              λ h. absurd (omega arith),
              λ h. (
                0,
                length cycles,
                omega arith,
                omega arith,
                few (omega arith)
                    ∙ ap (λ l. l ++ times (length cycles) fast) this
                    ∙ ++_assoc log (fast ++ medium) (times (length cycles) fast),
              ),
            )
        | inr (more_now, less) ↦
            let (few, many) =
              counted cycles c' b' s' log' k (suc r) run done' (cycle' ∙ cycle) positive
                (rw fast' more_now) (omega arith) in
            let this : log' ≡ log ++ fast =
              sent' ∙ ap (λ l. log ++ l) (sent_fast c r done (rw cycle more_now)) in
            (
              λ h.
                  few (omega arith)
                  ∙ ap (λ l. l ++ times (length cycles) fast) this
                  ∙ ++_assoc log fast (times (length cycles) fast),
              λ h.
                  let (i, j, total, place, rest) = many (omega arith) in
                  (
                    suc i,
                    j,
                    omega arith,
                    omega arith,
                    rest
                        ∙ ap (λ l. l ++ (times i fast ++ ((fast ++ medium) ++ times j fast))) this
                        ∙ ++_assoc log fast (times i fast ++ ((fast ++ medium) ++ times j fast))
                        ∙ ap (λ l. log ++ l)
                            (sym (++_assoc fast (times i fast) ((fast ++ medium) ++ times j fast))),
                  ),
            )
      ]

  -- Once the first cycle is done, as many cycles in a row as the medium cycle counts, none of which
  -- starts in a pause, send the fast schedule once each and the medium schedule exactly once among
  -- them, whichever commands fail: in the cycle that brings the count of fast polls to a multiple of
  -- the medium cycle, after that cycle's fast schedule, with `i` cycles before it and `j` after it.
  pub one_medium_poll :
      (cycles : List (ℕ × ℕ)) (c : Coordinator) (b : Backoff) (s : S) (log : List PollCommand)
      → IsRunning (logged send) fast medium cycles (c, b, (s, log))
      → c.initial_poll_done ≡ true
      → 0 < c.medium_poll_cycle
      → length cycles ≡ c.medium_poll_cycle
      → let (c', b', (s', log')) = run_polls (logged send) fast medium cycles (c, b, (s, log)) in
        (i j : ℕ) × (i + suc j ≡ c.medium_poll_cycle)
        × (c.fast_poll_count % c.medium_poll_cycle + suc i ≡ c.medium_poll_cycle)
        × (log' ≡ log ++ (times i fast ++ ((fast ++ medium) ++ times j fast)))
  one_medium_poll cycles c b s log run done positive full =
      let (i, j, total, place, sent) =
        (counted cycles c b s log c.medium_poll_cycle (c.fast_poll_count % c.medium_poll_cycle) run
            done refl positive refl (omega (arith, full, mod-lt c.fast_poll_count positive))).1
          (omega (arith, full)) in
      (i, j, total ∙ full, place, sent)
