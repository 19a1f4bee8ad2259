-- ===== src/Main/PidFile/Loop.antt =====
-- ssh_watch keeps the pid file as long as it runs.
use autossh_1_4g.Base.{ℕ, zero, suc, Bool, true, Option, none, some, ltb, if◌then◌else◌}
use autossh_1_4g.Base.Int.{ℤ, pos, negsuc}
use autossh_1_4g.Base.Bytes.{Bytes}
use autossh_1_4g.Posix.{Signal}
use autossh_1_4g.Posix.Signal.{sigint, sigterm, sigquit, sigabrt, sigalrm}
use autossh_1_4g.Process.{M, Outcome, done, jumped, ended, running, ask, ◌>>=◌}
use autossh_1_4g.Lifetime.{exceeded_lifetime}
use autossh_1_4g.Drain.{check_ssh_stderr}
use autossh_1_4g.Conn.{conn_test}
use autossh_1_4g.Wait.{Policy, p_restart, p_exitok, p_exiterr}
use autossh_1_4g.Watch.{
  Verdict, again, kill_and, kill_and_wait, try_branch, is_stuck, test_port, check_stderr_and_port,
  watchdogs, on_alarm, on_signal, catch_branch, setjmp, watch_round, after_round, watch_loop,
  ssh_watch,
}
use autossh_1_4g.Main.PidFile.{After, Leaves, bind-Leaves, if-Leaves, check_ssh_stderr-Leaves}
use autossh_1_4g.Main.PidFile.Tunnel.{conn_test-Leaves}
use autossh_1_4g.Main.PidFile.Watching.{
  exceeded_lifetime-Leaves, kill_and-Leaves, kill_and_wait-Leaves, try_branch-Leaves,
}

test_up-Leaves :
    (sock : ℤ) (port : Bytes)
    → Leaves (conn_test sock port >>= λ up. if up then again else kill_and p_restart)
test_up-Leaves sock port =
    bind-Leaves (conn_test sock port) (λ up. if up then again else kill_and p_restart)
      (conn_test-Leaves sock port)
      (λ up. if-Leaves up again (kill_and p_restart) (λ os s h. h) (kill_and-Leaves p_restart))

test_port-Leaves : (sock : ℤ) (port : Option Bytes) → Leaves (test_port sock port)
unfolding test_port
test_port-Leaves sock none os s h = h
test_port-Leaves (negsuc zero) (some port) os s h = h
test_port-Leaves (negsuc (suc n)) (some port) os s h = test_up-Leaves (negsuc (suc n)) port os s h
test_port-Leaves (pos n) (some port) os s h = test_up-Leaves (pos n) port os s h

check_stderr_and_port-Leaves : (sock : ℤ) → Leaves (check_stderr_and_port sock)
unfolding check_stderr_and_port
check_stderr_and_port-Leaves sock =
    bind-Leaves check_ssh_stderr
      (λ fatal os s. (if fatal then kill_and_wait else test_port sock s.writep) os s)
      check_ssh_stderr-Leaves
      (λ fatal os s h.
        if-Leaves fatal kill_and_wait (test_port sock s.writep) kill_and_wait-Leaves
          (test_port-Leaves sock s.writep) os s h)

watchdogs-Leaves : (sock : ℤ) → Leaves (watchdogs sock)
unfolding watchdogs
watchdogs-Leaves sock os s h =
    if-Leaves (ltb 0 s.max_session)
      (ask (λ os n. os.time n) >>= λ now.
        if is_stuck s now then kill_and p_restart else check_stderr_and_port sock)
      (check_stderr_and_port sock)
      (λ os t k.
        if-Leaves (is_stuck s (os.time t.calls)) (kill_and p_restart) (check_stderr_and_port sock)
          (kill_and-Leaves p_restart) (check_stderr_and_port-Leaves sock) os _ k)
      (check_stderr_and_port-Leaves sock) os s h

on_alarm-Leaves : (sock : ℤ) → Leaves (on_alarm sock)
unfolding on_alarm
on_alarm-Leaves sock =
    bind-Leaves exceeded_lifetime (λ over. if over then kill_and p_exitok else watchdogs sock)
      exceeded_lifetime-Leaves
      (λ over.
        if-Leaves over (kill_and p_exitok) (watchdogs sock) (kill_and-Leaves p_exitok)
          (watchdogs-Leaves sock))

on_signal-Leaves : (sock : ℤ) (g : Signal) → Leaves (on_signal sock g)
unfolding on_signal
on_signal-Leaves sock sigint = kill_and-Leaves p_exiterr
on_signal-Leaves sock sigterm = kill_and-Leaves p_exiterr
on_signal-Leaves sock sigquit = kill_and-Leaves p_exiterr
on_signal-Leaves sock sigabrt = kill_and-Leaves p_exiterr
on_signal-Leaves sock sigalrm = on_alarm-Leaves sock
on_signal-Leaves sock g = λ os s h. h

catch_branch-Leaves : (saved : Bool) (sock : ℤ) (g : Signal) → Leaves (catch_branch saved sock g)
unfolding catch_branch
catch_branch-Leaves saved sock g os s h = on_signal-Leaves sock g os _ h

-- A jump is caught with the pid file in place.
setjmp-Leaves :
    (attempt : M Verdict) (handle : Signal → M Verdict)
    → Leaves attempt
    → ((g : Signal) → Leaves (handle g))
    → Leaves (setjmp attempt handle)
unfolding setjmp
setjmp-Leaves attempt handle a c os s h = caught (attempt os s) (a os s h)
  where
    caught :
        (o : Outcome Verdict)
        → After o
        → After (elim o [
          | done v t ↦ done v t
          | jumped g t ↦ handle g os (record t { masked = s.masked })
          | ended e t ↦ ended e t
          | running t ↦ running t
        ])
    caught (done v t) k = k
    caught (jumped g t) k = c g os _ k
    caught (ended e t) k = k
    caught (running t) k = k

watch_round-Leaves : (saved : Bool) (sock : ℤ) → Leaves (watch_round saved sock)
unfolding watch_round
watch_round-Leaves saved sock os s h =
    if-Leaves s.restart_ssh (kill_and p_restart)
      (setjmp (try_branch saved) (catch_branch saved sock)) (kill_and-Leaves p_restart)
      (setjmp-Leaves (try_branch saved) (catch_branch saved sock) (try_branch-Leaves saved)
        (catch_branch-Leaves saved sock))
      os (record s { masked = true }) h

after_round-Leaves :
    (saved : Bool) (rest : M Policy) (v : Verdict) → Leaves rest → Leaves (after_round saved rest v)
unfolding after_round
after_round-Leaves saved rest none go = go
after_round-Leaves saved rest (some p) go = λ os s h. h

watch_loop-Leaves : (fuel : ℕ) (saved : Bool) (sock : ℤ) → Leaves (watch_loop fuel saved sock)
unfolding watch_loop
watch_loop-Leaves zero saved sock os s h = h
watch_loop-Leaves (suc fuel) saved sock os s h =
    bind-Leaves (watch_round saved sock) (after_round saved (watch_loop fuel saved sock))
      (watch_round-Leaves saved sock)
      (λ v.
        after_round-Leaves saved (watch_loop fuel saved sock) v (watch_loop-Leaves fuel saved sock))
      os s h

pub ssh_watch-Leaves : (fuel : ℕ) (sock : ℤ) → Leaves (ssh_watch fuel sock)
unfolding ssh_watch
ssh_watch-Leaves fuel sock os s h = watch_loop-Leaves fuel s.masked sock os _ h
