-- ===== src/Watch/Try.antt =====
-- The try branch of a round: reap or arm, then wait.
use autossh_1_4g.Base.{
  ℕ, suc, Bool, true, false, inl, inr, arith, List, Option-cases, not, ◌&&◌, if◌then◌else◌,
}
use autossh_1_4g.Posix.{Os, Signal, Status, WaitReply, reaped, not_yet, failed, Revents}
use autossh_1_4g.Process.{State, done, pure, ◌>>=◌, ◌>>◌}
use autossh_1_4g.Process.Triple.{
  Sat, Ends, Ends-continue, Sat-continue, Sat-weaken, Ends-Sat, Sat-if, Ends-if,
}
use autossh_1_4g.Signals.{deliver}
use autossh_1_4g.Signals.Armed.{deliver-lands}
use autossh_1_4g.Kill.{note_reap}
use autossh_1_4g.Lifetime.{clear_alarm_timer}
use autossh_1_4g.Drain.{check_ssh_stderr}
use autossh_1_4g.Wait.{
  Policy, p_continue, p_restart, p_exitok, p_exiterr, judge_exit, judge_status, judge, ssh_wait,
}
use autossh_1_4g.Watch.{
  disarm, again, arm, wait_unmasked, suspend, hang_up, after_poll, poll_stderr, wait_for_event,
  watch_child, after_wait, try_branch, kill_and,
}
use autossh_1_4g.Watch.Invariant.{
  Keep, Ready, Within, Left, Round, kill_and-Round, kill_and_wait-Round, check_ssh_stderr-Within,
  check_ssh_stderr-Left,
}

module _ (b : State) where
  abbrev pub Judged : Policy → State → Type 0
  Judged p_continue s = Within b s
  Judged p s = Left b s

  judge_exit-Judged :
      (n : ℕ) (os : Os) (s : State) → Left b s → Ends Judged (Keep b) (judge_exit n os s)
  unfolding judge_exit
  judge_exit-Judged n os s h = ground arith

  abbrev after_call : WaitReply → State → State
  after_call r s = record s { calls = suc s.calls; trace = note_reap r s.cchild s.trace }

  judge-Judged :
      (r : WaitReply) (os : Os) (s : State)
      → Within b s
      → Ends Judged (Keep b) (judge r os (after_call r s))
  unfolding judge
  judge-Judged (reaped (Status.exited n)) os s h =
      Ends-continue (λ _. Left b) Judged (Keep b) os
        (check_ssh_stderr os (after_call (reaped (Status.exited n)) s))
        (λ _. judge_status (Status.exited n)) (check_ssh_stderr-Left b os _ (ground arith))
        (λ _ t h'. judge_exit-Judged n os t h')
  judge-Judged (reaped (Status.signaled n)) os s h =
      Ends-continue (λ _. Left b) Judged (Keep b) os
        (check_ssh_stderr os (after_call (reaped (Status.signaled n)) s))
        (λ _. judge_status (Status.signaled n)) (check_ssh_stderr-Left b os _ (ground arith))
        (λ _ t h'. h')
  judge-Judged (reaped Status.stopped) os s h =
      Ends-continue (λ _. Within b) Judged (Keep b) os
        (check_ssh_stderr os (after_call (reaped Status.stopped) s))
        (λ _. judge_status Status.stopped) (check_ssh_stderr-Within b os _ h) (λ _ t h'. h')
  judge-Judged not_yet os s h = h
  judge-Judged (failed e) os s h = h

  pub ssh_wait-Judged : (os : Os) (s : State) → Within b s → Ends Judged (Keep b) (ssh_wait os s)
  unfolding ssh_wait
  ssh_wait-Judged os s h = judge-Judged (os.waitpid s.calls) os s h

  -- Arming the alarm and the jump.
  arm-Ready : (os : Os) (s : State) → Within b s → Ends (λ _ t. Ready b t) (Keep b) (arm os s)
  unfolding arm clear_alarm_timer
  arm-Ready os s h = ground arith

  deliver-Ready :
      (gs : List Signal) (os : Os) (s : State)
      → Ready b s
      → Sat (λ _. Ready b) (Within b) (Keep b) (deliver gs os s)
  deliver-Ready gs os s h =
      Sat-weaken (λ _ t k. k) (λ t k. (k.0.0, k.0.1, k.1)) (λ t k. k.0) (deliver gs os s)
        (deliver-lands (Ready b) (λ t r e d k. k) (λ t k. k) gs os s h)

  -- The only call that may jump, and it disarms the jump.
  wait_unmasked-Ready :
      (saved : Bool) (os : Os) (s : State)
      → Ready b s
      → Sat (λ _. Ready b) (Within b) (Keep b) (wait_unmasked saved os s)
  unfolding wait_unmasked
  wait_unmasked-Ready saved os s h =
      Sat-continue (λ _. Ready b) (λ _. Ready b) (Within b) (Keep b) os
        (deliver (os.arrivals s.calls) os (record s { calls = suc s.calls; masked = saved }))
        (λ _ os' t. done (os.ppoll s.calls) (record t { masked = true }))
        (deliver-Ready (os.arrivals s.calls) os _ h) (λ _ t k. k)

  hang_up-Within : (os : Os) (s : State) → Within b s → Ends (λ _. Within b) (Keep b) (hang_up os s)
  unfolding hang_up
  hang_up-Within os s h = ground arith

  after_poll-Round :
      (rev : Revents) (fatal : Bool) (os : Os) (s : State)
      → Within b s
      → Ends (Round b) (Keep b) (after_poll rev fatal os s)
  unfolding after_poll
  after_poll-Round rev true os s h = kill_and_wait-Round b os s h
  after_poll-Round rev false os s h =
      Ends-if (Round b) (Keep b) (rev.hangup && not rev.pollin) (hang_up >> again) again os s
        (λ lost.
          Ends-continue (λ _. Within b) (Round b) (Keep b) os (hang_up os s) (λ _. again)
            (hang_up-Within os s h) (λ _ t k. k))
        (λ fine. h)

  may_read :
      (c : Bool) (os : Os) (s : State)
      → Within b s
      → Ends (λ _. Within b) (Keep b) ((if c then check_ssh_stderr else pure false) os s)
  may_read c os s h =
      Ends-if (λ _. Within b) (Keep b) c check_ssh_stderr (pure false) os s
        (λ e. check_ssh_stderr-Within b os s h) (λ e. h)

  read_pipe :
      (rev : Revents) (os : Os) (s : State)
      → Within b s
      → Ends
          (Round b)
          (Keep b)
          (((if rev.pollin then check_ssh_stderr else pure false) >>= after_poll rev) os s)
  read_pipe rev os s h =
      Ends-continue (λ _. Within b) (Round b) (Keep b) os
        ((if rev.pollin then check_ssh_stderr else pure false) os s) (after_poll rev)
        (may_read rev.pollin os s h) (λ fatal t k. after_poll-Round rev fatal os t k)

  poll_stderr-Round :
      (saved : Bool) (os : Os) (s : State)
      → Ready b s
      → Sat (Round b) (Within b) (Keep b) (poll_stderr saved os s)
  unfolding poll_stderr
  poll_stderr-Round saved os s h =
      Sat-continue (λ _. Ready b) (Round b) (Within b) (Keep b) os (wait_unmasked saved os s)
        (λ rev.
          disarm >> ((if rev.pollin then check_ssh_stderr else pure false) >>= after_poll rev))
        (wait_unmasked-Ready saved os s h)
        (λ rev t k.
          Ends-Sat (Round b) (Within b) (Keep b) _
            (read_pipe rev os (record t { dolongjmp = false }) (ground arith)))

  suspend-Round :
      (saved : Bool) (os : Os) (s : State)
      → Ready b s
      → Sat (Round b) (Within b) (Keep b) (suspend saved os s)
  unfolding suspend
  suspend-Round saved os s h =
      Sat-continue (λ _. Ready b) (Round b) (Within b) (Keep b) os (wait_unmasked saved os s)
        (λ _. disarm >> again) (wait_unmasked-Ready saved os s h) (λ _ t k. ground arith)

  wait_for_event-Round :
      (saved : Bool) (os : Os) (s : State)
      → Ready b s
      → Sat (Round b) (Within b) (Keep b) (wait_for_event saved os s)
  unfolding wait_for_event
  wait_for_event-Round saved os s h = elim (Option-cases s.ssh_stderr_fd) [
    | inl e ↦ rw (e, wait_for_event) (suspend-Round saved os s h)
    | inr (fd, e) ↦ rw (e, wait_for_event) (poll_stderr-Round saved os s h)
  ]

  armed-Round :
      (saved : Bool) (os : Os) (s : State)
      → Ready b s
      → Sat
          (Round b)
          (Within b)
          (Keep b)
          ((if s.exit_signalled then (disarm >> kill_and p_exiterr) else wait_for_event saved) os s)
  armed-Round saved os s h =
      Sat-if (Round b) (Within b) (Keep b) s.exit_signalled (disarm >> kill_and p_exiterr)
        (wait_for_event saved) os s
        (λ stale.
          Ends-Sat (Round b) (Within b) (Keep b) _ (
            kill_and-Round b p_exiterr os (record s { dolongjmp = false }) (λ e. cc)
              (ground arith)))
        (λ clear. wait_for_event-Round saved os s h)

  watch_child-Round :
      (saved : Bool) (os : Os) (s : State)
      → Within b s
      → Sat (Round b) (Within b) (Keep b) (watch_child saved os s)
  unfolding watch_child
  watch_child-Round saved os s h =
      Sat-continue (λ _. Ready b) (Round b) (Within b) (Keep b) os (arm os s)
        (λ _ os t.
          (if t.exit_signalled then (disarm >> kill_and p_exiterr) else wait_for_event saved) os t)
        (Ends-Sat (λ _. Ready b) (Within b) (Keep b) _ (arm-Ready os s h))
        (λ _ t k. armed-Round saved os t k)

  after_wait-Round :
      (saved : Bool) (p : Policy) (os : Os) (s : State)
      → Judged p s
      → Sat (Round b) (Within b) (Keep b) (after_wait saved p os s)
  unfolding after_wait
  after_wait-Round saved p_continue os s h = watch_child-Round saved os s h
  after_wait-Round saved p_restart os s h = (h, λ e. cc)
  after_wait-Round saved p_exitok os s h = (h, λ e. cc)
  after_wait-Round saved p_exiterr os s h = (h, λ e. cc)

  -- A round's attempt returns a verdict, or jumps to its own sigsetjmp with the jump disarmed.
  pub try_branch-Round :
      (saved : Bool) (os : Os) (s : State)
      → Within b s
      → Sat (Round b) (Within b) (Keep b) (try_branch saved os s)
  unfolding try_branch
  try_branch-Round saved os s h =
      Sat-continue Judged (Round b) (Within b) (Keep b) os (ssh_wait os s) (after_wait saved)
        (Ends-Sat Judged (Within b) (Keep b) _ (ssh_wait-Judged os s h))
        (λ p t k. after_wait-Round saved p os t k)
