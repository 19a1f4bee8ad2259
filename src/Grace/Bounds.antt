-- ===== src/Grace/Bounds.antt =====
-- How long a restart is delayed, whatever the doubles of the formula come to.
use autossh_1_4g.Base.{ℕ, suc, ◌+◌, ◌≤◌, ◌≡◌, refl, false, arith, ltb, leb, if◌then◌else◌}
use autossh_1_4g.Base.Int.{ℤ, pos, negsuc, ◌≤ℤ◌}
use autossh_1_4g.Posix.{Os}
use autossh_1_4g.Process.{State, pure, modify, ◌>>◌}
use autossh_1_4g.Process.Trace.{slept}
use autossh_1_4g.Process.Triple.{Ends, Ends-continue, Ends-if, Ends-weaken}
use autossh_1_4g.Signals.{sleep}
use autossh_1_4g.Signals.Delivery.{sleep-keeps}
use autossh_1_4g.Grace.{
  Doubles, port_fwd_fail_delay, n_fast_tries, min_time, cap, sleep_interval, backoff, sleep_backoff,
  delay_after_port_failure, grace_time,
}

-- At most n seconds were slept since b, and the number of tries is k.
abbrev Delayed : State → ℕ → ℕ → State → Type 0
Delayed b n k s =
    (slept s.trace ≤ slept b.trace + n) × (s.tries ≡ k) × (s.port_fwd_failed ≡ b.port_fwd_failed)

abbrev Unarmed : State → ℕ → ℕ → State → Type 0
Unarmed b n k s = Delayed b n k s × (s.dolongjmp ≡ false)

cap-le : (poll : ℕ) (n : ℤ) → cap poll n ≤ℤ pos poll
cap-le poll (pos n) = ground arith
cap-le poll (negsuc n) = ground arith

backoff-le : (fl : Doubles) (poll tries : ℕ) → backoff fl poll tries ≤ℤ pos poll
unfolding backoff
backoff-le fl poll tries = cap-le poll _

module _ (b : State) where
  sleep-Unarmed :
      (n m k : ℕ) (os : Os) (s : State)
      → Unarmed b m k s
      → Ends (λ _. Unarmed b (m + n) k) (Delayed b (m + n) k) (sleep n os s)
  sleep-Unarmed n m k os s h =
      sleep-keeps (Delayed b (m + n) k) (λ t r e h'. h') (λ t h'. h') n os s (ground arith)

  sleep_interval-Unarmed :
      (i : ℤ) (n k : ℕ) (os : Os) (s : State)
      → i ≤ℤ pos n
      → Unarmed b 0 k s
      → Ends (λ _. Unarmed b n k) (Delayed b n k) (sleep_interval i os s)
  unfolding sleep_interval
  sleep_interval-Unarmed (pos i) n k os s le h =
      Ends-if (λ _. Unarmed b n k) (Delayed b n k) (ltb 0 i) (sleep i) (pure tt) os s
        (λ _.
          Ends-weaken (λ _ t h'. ground arith) (λ t h'. ground arith) (sleep i os s)
            (sleep-Unarmed i 0 k os s h))
        (λ _. ground arith)
  sleep_interval-Unarmed (negsuc i) n k os s le h = ground arith

  abbrev Settled : ℕ → ℕ → State → Type 0
  Settled n k s = (slept s.trace ≤ slept b.trace + n) × (s.tries ≡ k) × (s.port_fwd_failed ≡ false)

  abbrev Late : ℕ → ℕ → State → Type 0
  Late n k s = (slept s.trace ≤ slept b.trace + n) × (s.tries ≡ k)

  delay-Settled :
      (n k : ℕ) (os : Os) (s : State)
      → Unarmed b n k s
      → Ends (λ _. Settled (n + 5) k) (Late (n + 5) k) (delay_after_port_failure os s)
  unfolding delay_after_port_failure
  delay-Settled n k os s h =
      Ends-if (λ _. Settled (n + 5) k) (Late (n + 5) k) s.port_fwd_failed
        (sleep port_fwd_fail_delay >> modify (λ t. record t { port_fwd_failed = false })) (pure tt)
        os s
        (λ _.
          Ends-continue (λ _. Unarmed b (n + 5) k) (λ _. Settled (n + 5) k) (Late (n + 5) k) os
            (sleep port_fwd_fail_delay os s)
            (λ _. modify (λ t. record t { port_fwd_failed = false }))
            (Ends-weaken (λ _ t h'. h') (λ t h'. (h'.0, h'.1)) (sleep port_fwd_fail_delay os s)
              (sleep-Unarmed port_fwd_fail_delay n k os s h))
            (λ _ t h'. (h'.0.0, h'.0.1, refl)))
        (λ off. ground arith)

-- The tries after grace_time at the time now: none if the last session was long enough.
abbrev pub next_tries : State → ℕ → ℕ → ℕ
next_tries s last_start now = if leb (last_start + min_time s.poll_time) now then 0 else s.tries + 1

module _ (fl : Doubles) (last_start : ℕ) (os : Os) (s : State) (unarmed : s.dolongjmp ≡ false) where
  counted : State
  counted = record s { calls = suc s.calls; tries = next_tries s last_start (os.time s.calls) }

  sleep_backoff-Unarmed :
      (k : ℕ) (t : State)
      → Unarmed s 0 k t
      → t.settings ≡ s.settings
      → Ends (λ _. Unarmed s s.poll_time k) (Delayed s s.poll_time k) (sleep_backoff fl os t)
  unfolding sleep_backoff
  sleep_backoff-Unarmed k t h same =
      Ends-if (λ _. Unarmed s s.poll_time k) (Delayed s s.poll_time k) (ltb n_fast_tries t.tries)
        (sleep_interval (backoff fl t.poll_time t.tries)) (pure tt) os t
        (λ _.
          sleep_interval-Unarmed s (backoff fl t.poll_time t.tries) s.poll_time k os t
            (rw (← same) (backoff-le fl t.poll_time t.tries)) h)
        (λ _. ground arith)

  -- Whatever the doubles come to, grace_time without an armed jump comes to an end, sleeps at most
  -- poll_time + 5 seconds, counts a fast try or resets the count, and clears port_fwd_failed.
  pub grace_time_bounds :
      Ends
        (λ _ t.
          (slept t.trace ≤ slept s.trace + (s.poll_time + 5))
          × (t.tries ≡ next_tries s last_start (os.time s.calls))
          × (t.port_fwd_failed ≡ false))
        (λ t. slept t.trace ≤ slept s.trace + (s.poll_time + 5))
        (grace_time fl last_start os s)
  unfolding grace_time counted
  grace_time_bounds =
      let k = next_tries s last_start (os.time s.calls) in
      Ends-continue (λ _. Unarmed s s.poll_time k)
        (λ _ t.
          (slept t.trace ≤ slept s.trace + (s.poll_time + 5))
          × (t.tries ≡ k)
          × (t.port_fwd_failed ≡ false))
        (λ t. slept t.trace ≤ slept s.trace + (s.poll_time + 5)) os (sleep_backoff fl os counted)
        (λ _. delay_after_port_failure)
        (Ends-weaken (λ _ t h. h) (λ t h. omega arith) (sleep_backoff fl os counted)
          (sleep_backoff-Unarmed k counted (ground arith) refl))
        (λ _ t h.
          Ends-weaken (λ _ u h'. (omega arith, h'.1, h'.2)) (λ u h'. omega arith)
            (delay_after_port_failure os t) (delay-Settled s s.poll_time k os t h))
