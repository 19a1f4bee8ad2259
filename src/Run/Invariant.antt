-- ===== src/Run/Invariant.antt =====
-- What holds between the calls of ssh_run, and that the parts before a child keep it.
use autossh_1_4g.Base.{ℕ, suc, ◌+◌, ◌≤◌, ◌≡◌, true, false, ◌⊎◌, arith, leb, ltb, if◌then◌else◌}
use autossh_1_4g.Base.Int.{ℤ, pos, negsuc, ◌≤ℤ◌}
use autossh_1_4g.Posix.{Os}
use autossh_1_4g.Settings.{Settings}
use autossh_1_4g.Process.{State, pure, modify, ◌>>◌}
use autossh_1_4g.Process.Trace.{KillsLive, forks}
use autossh_1_4g.Process.Triple.{Ends, Ends-continue, Ends-if}
use autossh_1_4g.Signals.{sleep}
use autossh_1_4g.Signals.Delivery.{sleep-keeps}
use autossh_1_4g.Lifetime.{exceeded_lifetime}
use autossh_1_4g.Grace.{
  Doubles, port_fwd_fail_delay, n_fast_tries, min_time, sleep_interval, backoff, sleep_backoff,
  delay_after_port_failure, grace_time,
}
use autossh_1_4g.Run.{may_start, begin_start}

-- max_start is negative (no limit), or bounds the number of starts.
abbrev pub WithinLimit : Settings → ℕ → Type 0
WithinLimit c n = (c.max_start ≤ℤ negsuc 0) ⊎ (pos n ≤ℤ c.max_start)

module _ (c : Settings) where
  -- The starts are counted, and at least `spare` of them have not forked a child.
  abbrev pub Counts : ℕ → State → Type 0
  Counts spare s =
      (s.settings ≡ c)
      × (forks s.trace + spare ≤ s.start_count)
      × WithinLimit c s.start_count
      × KillsLive s.trace

  abbrev pub Calm : ℕ → State → Type 0
  Calm spare s = Counts spare s × (s.dolongjmp ≡ false)

  pub begin_start-Calm :
      (os : Os) (s : State)
      → Calm 0 s
      → may_start s ≡ true
      → Ends (λ _. Calm 1) (Counts 0) (begin_start os s)
  unfolding begin_start
  begin_start-Calm os s h m = ground arith

  pub exceeded-Calm :
      (os : Os) (s : State)
      → Calm 0 s
      → may_start s ≡ true
      → Ends (λ _ t. Calm 0 t × (may_start t ≡ true)) (Counts 0) (exceeded_lifetime os s)
  unfolding exceeded_lifetime
  exceeded-Calm os s h may = ground arith

  pub sleep-Calm :
      (n : ℕ) (os : Os) (s : State) → Calm 1 s → Ends (λ _. Calm 1) (Counts 1) (sleep n os s)
  sleep-Calm n os s h = sleep-keeps (Counts 1) (λ t r e k. k) (λ t k. k) n os s h

  sleep_interval-Calm :
      (i : ℤ) (os : Os) (s : State)
      → Calm 1 s
      → Ends (λ _. Calm 1) (Counts 1) (sleep_interval i os s)
  unfolding sleep_interval
  sleep_interval-Calm (pos n) os s h =
      Ends-if (λ _. Calm 1) (Counts 1) (ltb 0 n) (sleep n) (pure tt) os s (λ _. sleep-Calm n os s h)
        (λ _. h)
  sleep_interval-Calm (negsuc n) os s h = h

  delay-Calm :
      (os : Os) (s : State)
      → Calm 1 s
      → Ends (λ _. Calm 1) (Counts 1) (delay_after_port_failure os s)
  unfolding delay_after_port_failure
  delay-Calm os s h =
      Ends-if (λ _. Calm 1) (Counts 1) s.port_fwd_failed
        (sleep port_fwd_fail_delay >> modify (λ t. record t { port_fwd_failed = false })) (pure tt)
        os s
        (λ _.
          Ends-continue (λ _. Calm 1) (λ _. Calm 1) (Counts 1) os (sleep port_fwd_fail_delay os s)
            (λ _. modify (λ t. record t { port_fwd_failed = false }))
            (sleep-Calm port_fwd_fail_delay os s h) (λ _ t k. k))
        (λ _. h)

  sleep_backoff-Calm :
      (fl : Doubles) (os : Os) (s : State)
      → Calm 1 s
      → Ends (λ _. Calm 1) (Counts 1) (sleep_backoff fl os s)
  unfolding sleep_backoff
  sleep_backoff-Calm fl os s h =
      Ends-if (λ _. Calm 1) (Counts 1) (ltb n_fast_tries s.tries)
        (sleep_interval (backoff fl s.poll_time s.tries)) (pure tt) os s
        (λ _. sleep_interval-Calm (backoff fl s.poll_time s.tries) os s h) (λ _. h)

  pub grace_time-Calm :
      (fl : Doubles) (last : ℕ) (os : Os) (s : State)
      → Calm 1 s
      → Ends (λ _. Calm 1) (Counts 1) (grace_time fl last os s)
  unfolding grace_time
  grace_time-Calm fl last os s h =
      Ends-continue (λ _. Calm 1) (λ _. Calm 1) (Counts 1) os
        (sleep_backoff fl os (record s {
          calls = suc s.calls;
          tries = if leb (last + min_time s.poll_time) (os.time s.calls) then 0 else s.tries + 1;
        }))
        (λ _. delay_after_port_failure) (sleep_backoff-Calm fl os _ h) (λ _ t k. delay-Calm os t k)
