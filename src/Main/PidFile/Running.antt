-- ===== src/Main/PidFile/Running.antt =====
-- ssh_run keeps the pid file as long as it runs.
use autossh_1_4g.Base.{ℕ, zero, suc, false, none, some, ltb, if◌then◌else◌}
use autossh_1_4g.Base.Int.{ℤ, pos, negsuc}
use autossh_1_4g.Posix.{ForkReply, no_fork, child}
use autossh_1_4g.Process.{State, M, pure, modify, ask, ◌>>=◌, ◌>>◌}
use autossh_1_4g.Signals.{
  deliver, sleep, set_exit_sig_handler, set_sig_handlers, unset_sig_handlers, sigaction,
}
use autossh_1_4g.Lifetime.{clear_alarm_timer, exceeded_lifetime}
use autossh_1_4g.Grace.{
  Doubles, count_try, sleep_interval, backoff, sleep_backoff, n_fast_tries,
  delay_after_port_failure, port_fwd_fail_delay, grace_time,
}
use autossh_1_4g.Log.{xerrlog}
use autossh_1_4g.Wait.{Policy, p_continue, p_restart, p_exitok, p_exiterr}
use autossh_1_4g.Watch.{ssh_watch}
use autossh_1_4g.Run.{
  note_child, fork, Pipe, close_read_end, close_write_end, read_end, begin_start, reset_session,
  may_start, end_session, after_watch, parent, launch, start, run_loop, ssh_run,
}
use autossh_1_4g.Main.PidFile.{
  Held, Leaves, After-continue, bind-Leaves, if-Leaves, deliver-Leaves, sleep-Leaves,
  close_stderr-Leaves, xerrlog-Leaves,
}
use autossh_1_4g.Main.PidFile.Watching.{exceeded_lifetime-Leaves}
use autossh_1_4g.Main.PidFile.Loop.{ssh_watch-Leaves}

sleep_interval-Leaves : (n : ℤ) → Leaves (sleep_interval n)
unfolding sleep_interval
sleep_interval-Leaves (pos n) =
    if-Leaves (ltb 0 n) (sleep n) (pure tt) (sleep-Leaves n) (λ os s h. h)
sleep_interval-Leaves (negsuc n) = λ os s h. h

delay_after_port_failure-Leaves : Leaves delay_after_port_failure
unfolding delay_after_port_failure
delay_after_port_failure-Leaves os s h =
    if-Leaves s.port_fwd_failed
      (sleep port_fwd_fail_delay >> modify (λ t. record t { port_fwd_failed = false })) (pure tt)
      (bind-Leaves (sleep port_fwd_fail_delay)
        (λ _. modify (λ t. record t { port_fwd_failed = false })) (sleep-Leaves port_fwd_fail_delay)
        (λ _ os t k. k))
      (λ os t k. k) os s h

close_read_end-Leaves : (p : Pipe) → Leaves (close_read_end p)
close_read_end-Leaves none os s h = h
close_read_end-Leaves (some (r, w)) os s h = h

close_write_end-Leaves : (p : Pipe) → Leaves (close_write_end p)
close_write_end-Leaves none os s h = h
close_write_end-Leaves (some (r, w)) os s h = h

end_session-Leaves : Leaves end_session
unfolding end_session clear_alarm_timer unset_sig_handlers sigaction
end_session-Leaves os s h = close_stderr-Leaves os _ h

after_watch-Leaves : (rest : M Policy) (p : Policy) → Leaves rest → Leaves (after_watch rest p)
unfolding after_watch
after_watch-Leaves rest p_exitok go =
    bind-Leaves end_session (λ _. pure p_exitok) end_session-Leaves (λ _ os s h. h)
after_watch-Leaves rest p_exiterr go =
    bind-Leaves end_session (λ _. pure p_exiterr) end_session-Leaves (λ _ os s h. h)
after_watch-Leaves rest p_continue go =
    bind-Leaves end_session (λ _. rest) end_session-Leaves (λ _. go)
after_watch-Leaves rest p_restart go =
    bind-Leaves end_session (λ _. rest) end_session-Leaves (λ _. go)

module _ (fl : Doubles) where
  sleep_backoff-Leaves : Leaves (sleep_backoff fl)
  unfolding sleep_backoff
  sleep_backoff-Leaves os s h =
      if-Leaves (ltb n_fast_tries s.tries) (sleep_interval (backoff fl s.poll_time s.tries))
        (pure tt) (sleep_interval-Leaves (backoff fl s.poll_time s.tries)) (λ os t k. k) os s h

  count_try-Leaves : (now last_start : ℕ) → Leaves (count_try now last_start)
  unfolding count_try
  count_try-Leaves now last_start os s h = h

  grace_time-Leaves : (last_start : ℕ) → Leaves (grace_time fl last_start)
  unfolding grace_time
  grace_time-Leaves last_start =
      bind-Leaves (ask (λ os n. os.time n))
        (λ now. count_try now last_start >> (sleep_backoff fl >> delay_after_port_failure))
        (λ os s h. h)
        (λ now.
          bind-Leaves (count_try now last_start) (λ _. sleep_backoff fl >> delay_after_port_failure)
            (count_try-Leaves now last_start)
            (λ _.
              bind-Leaves (sleep_backoff fl) (λ _. delay_after_port_failure) sleep_backoff-Leaves
                (λ _. delay_after_port_failure-Leaves)))

  note_child-Held : (r : ForkReply) (s : State) → Held s → Held (note_child r s)
  unfolding note_child
  note_child-Held no_fork s h = h
  note_child-Held (child p) s h = h

  fork-Leaves : Leaves fork
  unfolding fork
  fork-Leaves os s h =
      After-continue os (deliver (os.arrivals s.calls) os (note_child (os.fork s.calls) s))
        (λ _. pure (os.fork s.calls))
        (deliver-Leaves (os.arrivals s.calls) os _ (note_child-Held (os.fork s.calls) s h))
        (λ _ t k. k)

  parent-Leaves :
      (watch_fuel : ℕ) (sock : ℤ) (pipe : Pipe) (rest : M Policy) (r : ForkReply)
      → Leaves rest
      → Leaves (parent fl watch_fuel sock pipe rest r)
  unfolding parent set_sig_handlers sigaction
  parent-Leaves watch_fuel sock pipe rest no_fork go =
      bind-Leaves (close_read_end pipe) (λ _. close_write_end pipe >> xerrlog)
        (close_read_end-Leaves pipe)
        (λ _.
          bind-Leaves (close_write_end pipe) (λ _. xerrlog) (close_write_end-Leaves pipe)
            (λ _. xerrlog-Leaves Policy))
  parent-Leaves watch_fuel sock pipe rest (child p) go =
      let watched : M Policy = ssh_watch watch_fuel sock >>= after_watch rest in
      bind-Leaves (close_write_end pipe)
        (λ _.
          modify (λ s. record s { ssh_stderr_fd = read_end pipe }) >> (set_sig_handlers >> watched))
        (close_write_end-Leaves pipe)
        (λ _.
          bind-Leaves (modify (λ s. record s { ssh_stderr_fd = read_end pipe }))
            (λ _. set_sig_handlers >> watched) (λ os s h. h)
            (λ _.
              bind-Leaves set_sig_handlers (λ _. watched) (λ os s h. h)
                (λ _.
                  bind-Leaves (ssh_watch watch_fuel sock) (after_watch rest)
                    (ssh_watch-Leaves watch_fuel sock) (λ v. after_watch-Leaves rest v go))))

  launch-Leaves :
      (watch_fuel : ℕ) (sock : ℤ) (rest : M Policy)
      → Leaves rest
      → Leaves (launch fl watch_fuel sock rest)
  unfolding launch reset_session
  launch-Leaves watch_fuel sock rest go os s h =
      bind-Leaves fork (parent fl watch_fuel sock (os.pipe (suc s.calls)) rest) fork-Leaves
        (λ r. parent-Leaves watch_fuel sock (os.pipe (suc s.calls)) rest r go) os _ h

  start-Leaves :
      (watch_fuel : ℕ) (sock : ℤ) (rest : M Policy)
      → Leaves rest
      → Leaves (start fl watch_fuel sock rest)
  unfolding start begin_start
  start-Leaves watch_fuel sock rest go os s h =
      bind-Leaves (grace_time fl s.start_time)
        (λ _ os t.
          (if t.exit_signalled then pure p_exiterr else launch fl watch_fuel sock rest) os t)
        (grace_time-Leaves s.start_time)
        (λ _ os t k.
          if-Leaves t.exit_signalled (pure p_exiterr) (launch fl watch_fuel sock rest) (λ os u j. j)
            (launch-Leaves watch_fuel sock rest go) os t k)
        os _ h

  run_loop-Leaves : (fuel watch_fuel : ℕ) (sock : ℤ) → Leaves (run_loop fl fuel watch_fuel sock)
  unfolding run_loop
  run_loop-Leaves zero watch_fuel sock os s h = h
  run_loop-Leaves (suc fuel) watch_fuel sock os s h =
      let rest = run_loop fl fuel watch_fuel sock in
      if-Leaves (may_start s)
        (exceeded_lifetime >>= λ over.
          if over then pure p_exitok else start fl watch_fuel sock rest)
        (pure p_exitok)
        (bind-Leaves exceeded_lifetime
          (λ over. if over then pure p_exitok else start fl watch_fuel sock rest)
          exceeded_lifetime-Leaves
          (λ over.
            if-Leaves over (pure p_exitok) (start fl watch_fuel sock rest) (λ os t k. k)
              (start-Leaves watch_fuel sock rest (run_loop-Leaves fuel watch_fuel sock))))
        (λ os t k. k) os s h

  pub ssh_run-Leaves : (fuel watch_fuel : ℕ) (sock : ℤ) → Leaves (ssh_run fl fuel watch_fuel sock)
  unfolding ssh_run set_exit_sig_handler sigaction
  ssh_run-Leaves fuel watch_fuel sock os s h = run_loop-Leaves fuel watch_fuel sock os _ h
