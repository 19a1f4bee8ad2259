-- ===== src/Main/PidFile/Watching.antt =====
-- ssh_wait and the try branch of ssh_watch keep the pid file.
use autossh_1_4g.Base.{ℕ, suc, Bool, true, false, some, ◌&&◌, not, ◌==◌, arith, if◌then◌else◌}
use autossh_1_4g.Posix.{Revents, Status, WaitReply, reaped, not_yet, failed}
use autossh_1_4g.Process.{pure, modify, ask, ◌>>=◌, ◌>>◌}
use autossh_1_4g.Signals.{deliver, sleep}
use autossh_1_4g.Kill.{waitpid, ssh_kill, close_stderr}
use autossh_1_4g.Lifetime.{clear_alarm_timer, exceeded_lifetime}
use autossh_1_4g.Drain.{check_ssh_stderr}
use autossh_1_4g.Wait.{
  Policy, p_continue, p_restart, p_exitok, p_exiterr, judge_exit, judge_status, judge, ssh_wait,
}
use autossh_1_4g.Watch.{
  again, kill_and, kill_and_wait, take_period, apply_lifetime, set_alarm, arm, wait_unmasked,
  disarm, suspend, hang_up, after_poll, poll_stderr, wait_for_event, watch_child, after_wait,
  try_branch,
}
use autossh_1_4g.Main.PidFile.{
  Leaves, After-continue, bind-Leaves, if-Leaves, deliver-Leaves, sleep-Leaves, waitpid-Leaves,
  close_stderr-Leaves, ssh_kill-Leaves, check_ssh_stderr-Leaves,
}

judge_exit-Leaves : (n : ℕ) → Leaves (judge_exit n)
unfolding judge_exit
judge_exit-Leaves n os s h = ground arith

judge_status-Leaves : (st : Status) → Leaves (judge_status st)
unfolding judge_status
judge_status-Leaves (Status.signaled g) = λ os s h. h
judge_status-Leaves (Status.exited n) = judge_exit-Leaves n
judge_status-Leaves Status.stopped = λ os s h. h

judge-Leaves : (r : WaitReply) → Leaves (judge r)
unfolding judge
judge-Leaves (reaped st) =
    bind-Leaves check_ssh_stderr (λ _. judge_status st) check_ssh_stderr-Leaves
      (λ _. judge_status-Leaves st)
judge-Leaves not_yet = λ os s h. h
judge-Leaves (failed e) = λ os s h. h

ssh_wait-Leaves : Leaves ssh_wait
unfolding ssh_wait
ssh_wait-Leaves = bind-Leaves waitpid judge waitpid-Leaves judge-Leaves

pub exceeded_lifetime-Leaves : Leaves exceeded_lifetime
unfolding exceeded_lifetime
exceeded_lifetime-Leaves os s h = ground arith

pub kill_and-Leaves : (p : Policy) → Leaves (kill_and p)
unfolding kill_and
kill_and-Leaves p = bind-Leaves ssh_kill (λ _. pure (some p)) ssh_kill-Leaves (λ _ os s h. h)

pub kill_and_wait-Leaves : Leaves kill_and_wait
unfolding kill_and_wait
kill_and_wait-Leaves =
    bind-Leaves ssh_kill (λ _. sleep 5 >> pure (some p_restart)) ssh_kill-Leaves
      (λ _. bind-Leaves (sleep 5) (λ _. pure (some p_restart)) (sleep-Leaves 5) (λ _ os s h. h))

arm-Leaves : Leaves arm
unfolding arm take_period apply_lifetime set_alarm clear_alarm_timer
arm-Leaves os s h = ground arith

wait_unmasked-Leaves : (saved : Bool) → Leaves (wait_unmasked saved)
unfolding wait_unmasked
wait_unmasked-Leaves saved os s h =
    After-continue os
      (deliver (os.arrivals s.calls) os (record s { calls = suc s.calls; masked = saved }))
      (λ _. modify (λ u. record u { masked = true }) >> pure (os.ppoll s.calls))
      (deliver-Leaves (os.arrivals s.calls) os _ h) (λ _ t k. k)

suspend-Leaves : (saved : Bool) → Leaves (suspend saved)
unfolding suspend
suspend-Leaves saved =
    bind-Leaves (wait_unmasked saved) (λ _. disarm >> again) (wait_unmasked-Leaves saved)
      (λ _ os s h. h)

hang_up-Leaves : Leaves hang_up
unfolding hang_up
hang_up-Leaves os s h =
    After-continue os (close_stderr os s)
      (λ _ os t.
        (if t.pipe_lost_time == 0
            then (ask (λ os n. os.time n) >>= λ now.
                modify (λ u. record u { pipe_lost_time = now }))
            else pure tt)
          os t)
      (close_stderr-Leaves os s h)
      (λ _ t k.
        if-Leaves (t.pipe_lost_time == 0)
          (ask (λ os n. os.time n) >>= λ now. modify (λ u. record u { pipe_lost_time = now }))
          (pure tt) (λ os u j. j) (λ os u j. j) os t k)

after_poll-Leaves : (rev : Revents) (fatal : Bool) → Leaves (after_poll rev fatal)
unfolding after_poll
after_poll-Leaves rev true = kill_and_wait-Leaves
after_poll-Leaves rev false =
    if-Leaves (rev.hangup && not rev.pollin) (hang_up >> again) again
      (bind-Leaves hang_up (λ _. again) hang_up-Leaves (λ _ os s h. h)) (λ os s h. h)

poll_stderr-Leaves : (saved : Bool) → Leaves (poll_stderr saved)
unfolding poll_stderr
poll_stderr-Leaves saved =
    bind-Leaves (wait_unmasked saved)
      (λ rev.
        disarm
        >> ((if rev.pollin then check_ssh_stderr else pure false) >>= λ fatal.
            after_poll rev fatal))
      (wait_unmasked-Leaves saved)
      (λ rev.
        bind-Leaves disarm
          (λ _. (if rev.pollin then check_ssh_stderr else pure false) >>= after_poll rev)
          (λ os s h. h)
          (λ _.
            bind-Leaves (if rev.pollin then check_ssh_stderr else pure false) (after_poll rev)
              (if-Leaves rev.pollin check_ssh_stderr (pure false) check_ssh_stderr-Leaves
                (λ os s h. h))
              (after_poll-Leaves rev)))

wait_for_event-Leaves : (saved : Bool) → Leaves (wait_for_event saved)
unfolding wait_for_event
wait_for_event-Leaves saved os s h =
    ground (arith, poll_stderr-Leaves saved os s h, suspend-Leaves saved os s h)

watch_child-Leaves : (saved : Bool) → Leaves (watch_child saved)
unfolding watch_child
watch_child-Leaves saved =
    bind-Leaves arm
      (λ _ os s.
        (if s.exit_signalled then (disarm >> kill_and p_exiterr) else wait_for_event saved) os s)
      arm-Leaves
      (λ _ os s h.
        if-Leaves s.exit_signalled (disarm >> kill_and p_exiterr) (wait_for_event saved)
          (bind-Leaves disarm (λ _. kill_and p_exiterr) (λ os t k. k)
            (λ _. kill_and-Leaves p_exiterr))
          (wait_for_event-Leaves saved) os s h)

after_wait-Leaves : (saved : Bool) (p : Policy) → Leaves (after_wait saved p)
unfolding after_wait
after_wait-Leaves saved p_continue = watch_child-Leaves saved
after_wait-Leaves saved p_restart = λ os s h. h
after_wait-Leaves saved p_exitok = λ os s h. h
after_wait-Leaves saved p_exiterr = λ os s h. h

pub try_branch-Leaves : (saved : Bool) → Leaves (try_branch saved)
unfolding try_branch
try_branch-Leaves saved =
    bind-Leaves ssh_wait (after_wait saved) ssh_wait-Leaves (after_wait-Leaves saved)
