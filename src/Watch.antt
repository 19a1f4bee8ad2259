-- ===== src/Watch.antt =====
-- src/watch.rs: the monitoring loop around one ssh child. A round of the loop is the code between
-- two sigsetjmp calls; the jump of sig_catch is caught by `setjmp`. `my_poll_time` is a field of
-- the state, since it is written before a jump and read after it. The loop has fuel.
pub mod Alarm
pub mod Invariant
pub mod Try
pub mod Catch
pub mod Safety
pub mod Reaping
use autossh_1_4g.Base.{
  ℕ, zero, suc, ◌+◌, ◌≡◌, Bool, true, false, not, ◌&&◌, Option, none, some, List, [], ◌∷◌, ltb, leb,
  ◌==◌, if◌then◌else◌,
}
use autossh_1_4g.Base.Int.{
  ℤ, pos, negsuc, pos_part, neg_part, sub_ℕ, ◌≤ℤ◌, ltb_ℤ, c_int_of_ℕ, c_uint,
}
use autossh_1_4g.Base.Bytes.{Bytes}
use autossh_1_4g.Posix.{Signal, Revents, Call}
use autossh_1_4g.Posix.Signal.{sigint, sigterm, sigquit, sigabrt, sigalrm}
use autossh_1_4g.Process.{
  State, M, Outcome, done, jumped, ended, running, pure, get, still_running, modify, ask,
  record_call, ◌>>=◌, ◌>>◌,
}
use autossh_1_4g.Signals.{deliver, sleep}
use autossh_1_4g.Kill.{ssh_kill, close_stderr}
use autossh_1_4g.Lifetime.{clear_alarm_timer, exceeded_lifetime}
use autossh_1_4g.Conn.{conn_test}
use autossh_1_4g.Drain.{check_ssh_stderr}
use autossh_1_4g.Wait.{Policy, p_continue, p_restart, p_exitok, p_exiterr, ssh_wait}

abbrev pub port_fwd_fail_delay : ℕ
port_fwd_fail_delay = 5

-- `return ret(&savedmask, p)`, and falling through to the next round.
abbrev pub Verdict : Type 0
Verdict = Option Policy

abbrev pub again : M Verdict
again = pure none

-- ssh_kill() and a return
unfoldable pub kill_and : Policy → M Verdict
kill_and p = do ssh_kill; pure (some p)

-- ssh_kill(), the wait for the port, and a return
unfoldable pub kill_and_wait : M Verdict
kill_and_wait = do ssh_kill; sleep port_fwd_fail_delay; pure (some p_restart)

-- max_lifetime - difftime(now, pid_start_time)
abbrev pub secs_to_shutdown : ℕ → ℕ → ℕ → ℤ
secs_to_shutdown max_lifetime pid_start_time now = sub_ℕ (max_lifetime + pid_start_time) now

abbrev pub limit_by_lifetime : ℕ → ℕ → ℕ → ℕ → ℤ → ℤ
limit_by_lifetime max_lifetime pid_start_time poll_time now secs =
    let left = secs_to_shutdown max_lifetime pid_start_time now in
    if ltb_ℤ left (pos poll_time) then left else secs

abbrev pub limit_by_session : ℕ → ℤ → ℤ
limit_by_session max_session secs =
    if ltb 0 max_session && ltb_ℤ (pos max_session) secs then pos max_session else secs

-- What is left of the alarm, or a new period if nothing is; the first period is first_poll_time.
unfoldable pub take_period : M (Unit {0})
take_period = do
  left ← clear_alarm_timer
  modify λ s. record s {
    secs_left = if left == 0 then pos s.my_poll_time else c_int_of_ℕ left;
    my_poll_time = s.poll_time;
  }

unfoldable pub apply_lifetime : M (Unit {0})
apply_lifetime os s =
    if s.max_lifetime == 0
    then done tt s
    else done tt (record s {
      calls = suc s.calls;
      secs_left =
          limit_by_lifetime s.max_lifetime s.pid_start_time s.poll_time (os.time s.calls)
            s.secs_left;
    })

unfoldable pub set_alarm : M (Unit {0})
set_alarm os s =
    done tt (record s { calls = suc s.calls; trace = Call.alarm (c_uint s.secs_left) ∷ s.trace })

unfoldable pub arm : M (Unit {0})
unfolding take_period apply_lifetime set_alarm
arm = do
  take_period
  apply_lifetime
  modify
      (λ s. record s { secs_left = limit_by_session s.max_session s.secs_left; dolongjmp = true })
  set_alarm

-- ppoll or sigsuspend: the caller's mask holds during the call, so that pending signals come in.
unfoldable pub wait_unmasked : Bool → M Revents
wait_unmasked saved os s =
    (do
      modify (λ t. record t { calls = suc t.calls; masked = saved })
      deliver (os.arrivals s.calls)
      modify (λ t. record t { masked = true })
      pure (os.ppoll s.calls))
      os s

abbrev pub disarm : M (Unit {0})
disarm = modify (λ s. record s { dolongjmp = false })

unfoldable pub suspend : Bool → M Verdict
unfolding wait_unmasked
suspend saved = do _ ← wait_unmasked saved; disarm; again

-- POLLHUP or POLLERR with nothing to read: the pipe is closed, and the time is kept.
unfoldable pub hang_up : M (Unit {0})
unfolding close_stderr
hang_up = do
  close_stderr
  s ← get
  if s.pipe_lost_time == 0
      then (do now ← ask (λ os n. os.time n); modify (λ t. record t { pipe_lost_time = now }))
      else pure tt

unfoldable pub after_poll : Revents → Bool → M Verdict
unfolding kill_and_wait hang_up
after_poll rev true = kill_and_wait
after_poll rev false = if rev.hangup && not rev.pollin then (do hang_up; again) else again

unfoldable pub poll_stderr : Bool → M Verdict
unfolding wait_unmasked check_ssh_stderr after_poll
poll_stderr saved = do
  rev ← wait_unmasked saved
  disarm
  fatal ← (if rev.pollin then check_ssh_stderr else pure false)
  after_poll rev fatal

unfoldable pub wait_for_event : Bool → M Verdict
unfolding poll_stderr suspend
wait_for_event saved os s = elim s.ssh_stderr_fd [
  | some fd ↦ poll_stderr saved os s
  | none ↦ suspend saved os s
]

-- The try branch behind a child that is still running.
unfoldable pub watch_child : Bool → M Verdict
unfolding arm wait_for_event kill_and
watch_child saved = do
  arm
  s ← get
  if s.exit_signalled then (do disarm; kill_and p_exiterr) else wait_for_event saved

unfoldable pub after_wait : Bool → Policy → M Verdict
unfolding watch_child
after_wait saved p_continue = watch_child saved
after_wait saved p = pure (some p)

unfoldable pub try_branch : Bool → M Verdict
unfolding ssh_wait after_wait
try_branch saved = do p ← ssh_wait; after_wait saved p

-- Stuck since the pipe was lost, or silent since the start, for max_session seconds.
abbrev pub is_stuck : State → ℕ → Bool
is_stuck s now =
    if not (s.pipe_lost_time == 0) && leb (s.pipe_lost_time + s.max_session) now
    then true
    else (s.last_stderr_time == 0) && leb (s.start_time + s.max_session) now

-- The catch branch.
unfoldable pub test_port : ℤ → Option Bytes → M Verdict
unfolding kill_and conn_test
test_port sock none = again
test_port (negsuc zero) (some port) = again
test_port sock (some port) = do up ← conn_test sock port; if up then again else kill_and p_restart

unfoldable pub check_stderr_and_port : ℤ → M Verdict
unfolding check_ssh_stderr kill_and_wait test_port
check_stderr_and_port sock = do
  fatal ← check_ssh_stderr
  s ← get
  if fatal then kill_and_wait else test_port sock s.writep

unfoldable pub watchdogs : ℤ → M Verdict
unfolding check_stderr_and_port kill_and
watchdogs sock = do
  s ← get
  if ltb 0 s.max_session
      then (do
        now ← ask (λ os n. os.time n)
        if is_stuck s now then kill_and p_restart else check_stderr_and_port sock)
      else check_stderr_and_port sock

unfoldable pub on_alarm : ℤ → M Verdict
unfolding exceeded_lifetime watchdogs kill_and
on_alarm sock = do over ← exceeded_lifetime; if over then kill_and p_exitok else watchdogs sock

unfoldable pub on_signal : ℤ → Signal → M Verdict
unfolding on_alarm kill_and
on_signal sock sigint = kill_and p_exiterr
on_signal sock sigterm = kill_and p_exiterr
on_signal sock sigquit = kill_and p_exiterr
on_signal sock sigabrt = kill_and p_exiterr
on_signal sock sigalrm = on_alarm sock
on_signal sock _ = again

unfoldable pub catch_branch : Bool → ℤ → Signal → M Verdict
unfolding on_signal
catch_branch saved sock g = do modify (λ s. record s { masked = saved }); on_signal sock g

-- sigsetjmp(jumpbuf, 1): a jump comes back with the mask of the call.
unfoldable pub setjmp : M Verdict → (Signal → M Verdict) → M Verdict
setjmp attempt handle os s = elim (attempt os s) [
  | done v t ↦ done v t
  | jumped g t ↦ handle g os (record t { masked = s.masked })
  | ended e t ↦ ended e t
  | running t ↦ running t
]

unfoldable pub watch_round : Bool → ℤ → M Verdict
unfolding setjmp try_branch catch_branch kill_and
watch_round saved sock = do
  modify (λ s. record s { masked = true })
  s ← get
  if s.restart_ssh then kill_and p_restart else setjmp (try_branch saved) (catch_branch saved sock)

unfoldable pub after_round : Bool → M Policy → Verdict → M Policy
after_round saved rest none = rest
after_round saved rest (some p) = do modify (λ s. record s { masked = saved }); pure p

unfoldable pub watch_loop : ℕ → Bool → ℤ → M Policy
unfolding watch_round after_round
watch_loop zero saved sock = still_running
watch_loop (suc fuel) saved sock = do
  v ← watch_round saved sock
  after_round saved (watch_loop fuel saved sock) v

unfoldable pub ssh_watch : ℕ → ℤ → M Policy
unfolding watch_loop
ssh_watch fuel sock os s =
    watch_loop fuel s.masked sock os (record s { my_poll_time = s.first_poll_time; masked = true })
