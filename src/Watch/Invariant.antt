-- ===== src/Watch/Invariant.antt =====
-- What holds between the calls of ssh_watch, relative to the state b in which it began.
use autossh_1_4g.Base.{◌≡◌, ◌≢◌, false, none, some, ◌⊎◌, arith}
use autossh_1_4g.Posix.{Os}
use autossh_1_4g.Process.{State, pure, ◌>>=◌}
use autossh_1_4g.Process.Trace.{live_child, KillsLive, forks}
use autossh_1_4g.Process.Triple.{Ends, Ends-continue, Ends-weaken}
use autossh_1_4g.Signals.{sleep}
use autossh_1_4g.Signals.Delivery.{sleep-keeps}
use autossh_1_4g.Kill.{ssh_kill}
use autossh_1_4g.Kill.Safety.{Linked, ssh_kill-Gone}
use autossh_1_4g.Drain.{check_ssh_stderr}
use autossh_1_4g.Drain.Keeps.{check_ssh_stderr-keeps}
use autossh_1_4g.Wait.{Policy, p_continue, p_restart}
use autossh_1_4g.Watch.{Verdict, port_fwd_fail_delay, kill_and, kill_and_wait}

module _ (b : State) where
  abbrev pub Keep : State → Type 0
  Keep s =
      (s.settings ≡ b.settings)
      × (s.start_count ≡ b.start_count)
      × (s.handlers ≡ b.handlers)
      × (forks s.trace ≡ forks b.trace)
      × KillsLive s.trace

  -- The child may be running; a jump may be armed.
  abbrev pub Ready : State → Type 0
  Ready s = Keep s × Linked s

  -- The child may be running; no jump is armed.
  abbrev pub Within : State → Type 0
  Within s = Keep s × Linked s × (s.dolongjmp ≡ false)

  -- The child was reaped, or killed, or given up.
  abbrev pub Left : State → Type 0
  Left s = Keep s × ((s.cchild ≡ 0) ⊎ (live_child s.trace ≡ 0)) × (s.dolongjmp ≡ false)

  abbrev pub Round : Verdict → State → Type 0
  Round none s = Within s
  Round (some p) s = Left s × (p ≢ p_continue)

  pub ssh_kill-Left : (os : Os) (s : State) → Within s → Ends (λ _. Left) Keep (ssh_kill os s)
  ssh_kill-Left os s h =
      Ends-weaken (λ _ t g. ground arith) (λ t f. ground arith) (ssh_kill os s)
        (ssh_kill-Gone os s (ground arith))

  pub kill_and-Round :
      (p : Policy) (os : Os) (s : State)
      → p ≢ p_continue
      → Within s
      → Ends Round Keep (kill_and p os s)
  unfolding kill_and
  kill_and-Round p os s ne h =
      Ends-continue (λ _. Left) Round Keep os (ssh_kill os s) (λ _. pure (some p))
        (ssh_kill-Left os s h) (λ _ t h'. (h', ne))

  pub kill_and_wait-Round : (os : Os) (s : State) → Within s → Ends Round Keep (kill_and_wait os s)
  unfolding kill_and_wait
  kill_and_wait-Round os s h =
      Ends-continue (λ _. Left) Round Keep os (ssh_kill os s)
        (λ _ os t. (sleep port_fwd_fail_delay >>= λ _. pure (some p_restart)) os t)
        (ssh_kill-Left os s h)
        (λ _ t h'.
          Ends-continue (λ _. Left) Round Keep os (sleep port_fwd_fail_delay os t)
            (λ _. pure (some p_restart)) (sleep-Left os t h') (λ _ u h''. (h'', λ e. cc)))
    where
      sleep-Left :
          (os : Os) (t : State) → Left t → Ends (λ _. Left) Keep (sleep port_fwd_fail_delay os t)
      sleep-Left os t k =
          Ends-weaken (λ _ u k'. ground arith) (λ u k'. k'.0) (sleep port_fwd_fail_delay os t)
            (sleep-keeps (λ u. Keep u × ((u.cchild ≡ 0) ⊎ (live_child u.trace ≡ 0)))
              (λ u r e k'. k') (λ u k'. k') port_fwd_fail_delay os t (ground arith))

  pub check_ssh_stderr-Within :
      (os : Os) (s : State) → Within s → Ends (λ _. Within) Keep (check_ssh_stderr os s)
  check_ssh_stderr-Within os s h =
      Ends-weaken (λ _ t k. k) (λ t k. k.0) (check_ssh_stderr os s)
        (check_ssh_stderr-keeps Within (λ s n k. k) (λ s n t c k. k) (λ s k. k) os s h)

  pub check_ssh_stderr-Left :
      (os : Os) (s : State) → Left s → Ends (λ _. Left) Keep (check_ssh_stderr os s)
  check_ssh_stderr-Left os s h =
      Ends-weaken (λ _ t k. k) (λ t k. k.0) (check_ssh_stderr os s)
        (check_ssh_stderr-keeps Left (λ s n k. k) (λ s n t c k. k) (λ s k. k) os s h)
