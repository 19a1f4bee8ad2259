-- ===== src/Run.antt =====
-- src/run.rs: the start and restart loop, seen from the parent (the forked child only rewires its
-- stderr and calls execvp). The loop has fuel, one unit for each start, and each watch its own.
pub mod Invariant
pub mod Forked
pub mod Safety
use autossh_1_4g.Base.{
  ℕ, zero, suc, ◌+◌, Bool, true, false, ◌||◌, Option, none, some, List, ◌∷◌, ltb, if◌then◌else◌,
}
use autossh_1_4g.Base.Int.{ℤ, pos, negsuc, pos_part, neg_part, ltb_ℤ}
use autossh_1_4g.Base.Bytes.{Bytes}
use autossh_1_4g.Posix.{ForkReply, no_fork, child, Call}
use autossh_1_4g.Process.{State, M, pure, get, still_running, modify, ask, record_call, ◌>>=◌, ◌>>◌}
use autossh_1_4g.Signals.{deliver, set_exit_sig_handler, set_sig_handlers, unset_sig_handlers}
use autossh_1_4g.Kill.{close_stderr}
use autossh_1_4g.Lifetime.{clear_alarm_timer, exceeded_lifetime}
use autossh_1_4g.Grace.{Doubles, grace_time}
use autossh_1_4g.Log.{xerrlog}
use autossh_1_4g.Wait.{Policy, p_continue, p_restart, p_exitok, p_exiterr}
use autossh_1_4g.Watch.{ssh_watch}

-- fork(2): the parent notes the child; a signal may come in before the next call.
unfoldable pub note_child : ForkReply → State → State
note_child no_fork s = record s { calls = suc s.calls; cchild = 0 }
note_child (child p) s = record s {
  calls = suc s.calls;
  cchild = p;
  trace = Call.forked p ∷ s.trace;
}

unfoldable pub fork : M ForkReply
unfolding note_child
fork os s =
    (do
      modify (note_child (os.fork s.calls))
      deliver (os.arrivals s.calls)
      pure (os.fork s.calls))
      os s

-- The two ends of the stderr pipe, if there is one.
abbrev pub Pipe : Type 0
Pipe = Option (ℕ × ℕ)

abbrev pub close_read_end : Pipe → M (Unit {0})
close_read_end none = pure tt
close_read_end (some (r, w)) = record_call (Call.close r)

abbrev pub close_write_end : Pipe → M (Unit {0})
close_write_end none = pure tt
close_write_end (some (r, w)) = record_call (Call.close w)

abbrev pub read_end : Pipe → Option ℕ
read_end none = none
read_end (some (r, w)) = some r

-- What is reset before each child.
unfoldable pub begin_start : M (Unit {0})
begin_start = modify λ s. record s { restart_ssh = false; start_count = s.start_count + 1 }

unfoldable pub reset_session : ℕ → M (Unit {0})
reset_session now = modify λ s. record s {
  start_time = now;
  port_fwd_failed = false;
  pipe_lost_time = 0;
  last_stderr_time = 0;
}

abbrev pub may_start : State → Bool
may_start s = ltb_ℤ s.max_start (pos 0) || ltb_ℤ (pos s.start_count) s.max_start

-- In the parent, behind ssh_watch.
unfoldable pub end_session : M (Unit {0})
unfolding clear_alarm_timer unset_sig_handlers close_stderr
end_session = do
  modify (λ s. record s { dolongjmp = false })
  _ ← clear_alarm_timer
  unset_sig_handlers
  close_stderr

-- An exit verdict is returned, any other goes on with `rest`.
unfoldable pub after_watch : M Policy → Policy → M Policy
unfolding end_session
after_watch rest p_exitok = do end_session; pure p_exitok
after_watch rest p_exiterr = do end_session; pure p_exiterr
after_watch rest p = do end_session; rest

module _ (fl : Doubles) where
  unfoldable pub parent : ℕ → ℤ → Pipe → M Policy → ForkReply → M Policy
  unfolding ssh_watch after_watch set_sig_handlers xerrlog
  parent watch_fuel sock pipe rest no_fork = do close_read_end pipe; close_write_end pipe; xerrlog
  parent watch_fuel sock pipe rest (child p) = do
    close_write_end pipe
    modify (λ s. record s { ssh_stderr_fd = read_end pipe })
    set_sig_handlers
    verdict ← ssh_watch watch_fuel sock
    after_watch rest verdict

  unfoldable pub launch : ℕ → ℤ → M Policy → M Policy
  unfolding reset_session fork parent
  launch watch_fuel sock rest = do
    now ← ask (λ os n. os.time n)
    reset_session now
    pipe ← ask (λ os n. os.pipe n)
    reply ← fork
    parent watch_fuel sock pipe rest reply

  unfoldable pub start : ℕ → ℤ → M Policy → M Policy
  unfolding begin_start grace_time launch
  start watch_fuel sock rest = do
    begin_start
    s ← get
    grace_time fl s.start_time
    t ← get
    if t.exit_signalled then pure p_exiterr else launch watch_fuel sock rest

  unfoldable pub run_loop : ℕ → ℕ → ℤ → M Policy
  unfolding exceeded_lifetime start
  run_loop zero watch_fuel sock = still_running
  run_loop (suc fuel) watch_fuel sock = do
    s ← get
    if may_start s
        then (do
          over ← exceeded_lifetime
          if over then pure p_exitok else start watch_fuel sock (run_loop fuel watch_fuel sock))
        else pure p_exitok

  unfoldable pub ssh_run : ℕ → ℕ → ℤ → M Policy
  unfolding set_exit_sig_handler run_loop
  ssh_run fuel watch_fuel sock = do set_exit_sig_handler; run_loop fuel watch_fuel sock
