-- ===== src/Watch/Catch.antt =====
-- The catch branch of a round: what each signal leads to.
use autossh_1_4g.Base.{zero, suc, ◌≡◌, Bool, Option, none, some, arith, ltb, if◌then◌else◌}
use autossh_1_4g.Base.Int.{ℤ, negsuc}
use autossh_1_4g.Base.Bytes.{Bytes}
use autossh_1_4g.Posix.{Os, Signal}
use autossh_1_4g.Posix.Signal.{sigint, sigterm, sigquit, sigabrt, sigalrm}
use autossh_1_4g.Process.{State, M, ask, ◌>>=◌}
use autossh_1_4g.Process.Triple.{Sat, NoJump, Ends, Ends-Sat, Sat-continue, Sat-if}
use autossh_1_4g.Lifetime.{exceeded_lifetime}
use autossh_1_4g.Conn.{conn_test}
use autossh_1_4g.Drain.{check_ssh_stderr}
use autossh_1_4g.Wait.{p_continue, p_restart, p_exitok, p_exiterr, Policy}
use autossh_1_4g.Watch.{
  Verdict, again, kill_and, kill_and_wait, test_port, check_stderr_and_port, is_stuck, watchdogs,
  on_alarm, on_signal, catch_branch,
}
use autossh_1_4g.Conn.Verdict.{conn_test-Within}
use autossh_1_4g.Watch.Invariant.{
  Keep, Within, Round, kill_and-Round, kill_and_wait-Round, check_ssh_stderr-Within,
}

module _ (b : State) where
  abbrev Goes : M Verdict → Os → State → Type 0
  Goes m os s = Sat (Round b) NoJump (Keep b) (m os s)

  kill-Goes :
      (p : Policy) (os : Os) (s : State)
      → (p ≡ p_continue → ⊥)
      → Within b s
      → Goes (kill_and p) os s
  kill-Goes p os s ne h = Ends-Sat (Round b) NoJump (Keep b) _ (kill_and-Round b p os s ne h)

  test_open :
      (sock : ℤ) (port : Bytes) (os : Os) (s : State)
      → Within b s
      → Goes (conn_test sock port >>= λ up. if up then again else kill_and p_restart) os s
  test_open sock port os s h =
      Sat-continue (λ _. Within b) (Round b) NoJump (Keep b) os (conn_test sock port os s)
        (λ up. if up then again else kill_and p_restart)
        (Ends-Sat (λ _. Within b) NoJump (Keep b) (conn_test sock port os s)
          (conn_test-Within b sock port os s h))
        (λ up t k.
          Sat-if (Round b) NoJump (Keep b) up again (kill_and p_restart) os t (λ _. k)
            (λ _. kill-Goes p_restart os t (λ e. cc) k))

  test_port-Round :
      (sock : ℤ) (port : Option Bytes) (os : Os) (s : State)
      → Within b s
      → Goes (test_port sock port) os s
  unfolding test_port
  test_port-Round (negsuc zero) (some port) os s h = h
  test_port-Round sock none os s h = h
  test_port-Round sock (some port) os s h = test_open sock port os s h

  check_stderr_and_port-Round :
      (sock : ℤ) (os : Os) (s : State) → Within b s → Goes (check_stderr_and_port sock) os s
  unfolding check_stderr_and_port
  check_stderr_and_port-Round sock os s h =
      Sat-continue (λ _. Within b) (Round b) NoJump (Keep b) os (check_ssh_stderr os s)
        (λ fatal os t. (if fatal then kill_and_wait else test_port sock t.writep) os t)
        (Ends-Sat (λ _. Within b) NoJump (Keep b) _ (check_ssh_stderr-Within b os s h))
        (λ fatal t k.
          Sat-if (Round b) NoJump (Keep b) fatal kill_and_wait (test_port sock t.writep) os t
            (λ _. Ends-Sat (Round b) NoJump (Keep b) _ (kill_and_wait-Round b os t k))
            (λ _. test_port-Round sock t.writep os t k))

  watchdogs-Round : (sock : ℤ) (os : Os) (s : State) → Within b s → Goes (watchdogs sock) os s
  unfolding watchdogs
  watchdogs-Round sock os s h =
      Sat-if (Round b) NoJump (Keep b) (ltb 0 s.max_session)
        (do
          now ← ask (λ os n. os.time n)
          if is_stuck s now then kill_and p_restart else check_stderr_and_port sock)
        (check_stderr_and_port sock) os s
        (λ _.
          Sat-if (Round b) NoJump (Keep b) (is_stuck s (os.time s.calls)) (kill_and p_restart)
            (check_stderr_and_port sock) os (record s { calls = suc s.calls })
            (λ _. kill-Goes p_restart os _ (λ e. cc) h)
            (λ _. check_stderr_and_port-Round sock os _ h))
        (λ _. check_stderr_and_port-Round sock os s h)

  exceeded-Within :
      (os : Os) (s : State) → Within b s → Ends (λ _. Within b) (Keep b) (exceeded_lifetime os s)
  unfolding exceeded_lifetime
  exceeded-Within os s h = ground arith

  on_alarm-Round : (sock : ℤ) (os : Os) (s : State) → Within b s → Goes (on_alarm sock) os s
  unfolding on_alarm
  on_alarm-Round sock os s h =
      Sat-continue (λ _. Within b) (Round b) NoJump (Keep b) os (exceeded_lifetime os s)
        (λ over. if over then kill_and p_exitok else watchdogs sock)
        (Ends-Sat (λ _. Within b) NoJump (Keep b) _ (exceeded-Within os s h))
        (λ over t k.
          Sat-if (Round b) NoJump (Keep b) over (kill_and p_exitok) (watchdogs sock) os t
            (λ _. kill-Goes p_exitok os t (λ e. cc) k) (λ _. watchdogs-Round sock os t k))

  on_signal-Round :
      (sock : ℤ) (g : Signal) (os : Os) (s : State) → Within b s → Goes (on_signal sock g) os s
  unfolding on_signal
  on_signal-Round sock sigint os s h = kill-Goes p_exiterr os s (λ e. cc) h
  on_signal-Round sock sigterm os s h = kill-Goes p_exiterr os s (λ e. cc) h
  on_signal-Round sock sigquit os s h = kill-Goes p_exiterr os s (λ e. cc) h
  on_signal-Round sock sigabrt os s h = kill-Goes p_exiterr os s (λ e. cc) h
  on_signal-Round sock sigalrm os s h = on_alarm-Round sock os s h
  on_signal-Round sock _ os s h = h

  pub catch_branch-Round :
      (saved : Bool) (sock : ℤ) (g : Signal) (os : Os) (s : State)
      → Within b s
      → Goes (catch_branch saved sock g) os s
  unfolding catch_branch
  catch_branch-Round saved sock g os s h = on_signal-Round sock g os (record s { masked = saved }) h
