-- ===== src/Main/PidFile.antt =====
-- The pid file while autossh runs, and where it may be left behind: the rules for actions, and the parts
-- of the runtime that signals, the teardown and the log go through.
pub mod Exchange
pub mod Tunnel
pub mod Watching
pub mod Loop
pub mod Running
pub mod Removed
use autossh_1_4g.Base.{
  ℕ, zero, suc, ◌≤◌, ◌≡◌, refl, Bool, true, false, none, some, List, [], ◌∷◌, ◌⊎◌, inl, inr, arith,
  Bool-cases, ◌&&◌, ◌==◌, if◌then◌else◌,
}
use autossh_1_4g.Posix.{
  Signal, Disposition, dfl, ign, catcher, Os, Call, Errno, WaitReply, reaped, not_yet, failed,
}
use autossh_1_4g.Posix.Signal.{sigint, sigusr1, sigterm, sigkill, sigchld}
use autossh_1_4g.Process.{
  State, M, Outcome, done, jumped, ended, running, exited, killed, continue, pure, quit, modify,
  ◌>>=◌, ◌>>◌,
}
use autossh_1_4g.Process.Trace.{pid_file_there, end_signals}
use autossh_1_4g.Signals.{
  sig_catch, dispose, deliver_one, deliver, sleep, in_blockmask, note_signal, terminate, jump_back,
  default_action,
}
use autossh_1_4g.Kill.{
  waitpid, note_reap, send, close_stderr, child_gone, after_waitpid, reap_with_grace, escalate,
  kill_child, ssh_kill, sigkill_wait, sigterm_grace,
}
use autossh_1_4g.Base.Bytes.{Bytes}
use autossh_1_4g.Drain.{
  c_str, strstr, port_fwd_message, stuck_message, search_chunk, drain_chunk, drain_chunks,
  check_ssh_stderr,
}
use autossh_1_4g.Log.{is_some, unlink_pid_file, xerrlog}

-- pid_file_created says whether the pid file is there, a file that is there has a name, and
-- exit_signalled is set by a signal to end only.
abbrev pub Held : State → Type 0
Held s =
    (pid_file_there s.trace ≡ s.pid_file_created)
    × ((s.pid_file_created ≡ false) ⊎ (is_some s.pid_file_name ≡ true))
    × ((s.exit_signalled ≡ false) ⊎ (1 ≤ end_signals s.trace))

-- There is no pid file any more, if there was one.
abbrev pub Cleared : State → Type 0
Cleared s = (pid_file_there s.trace ≡ false) × (s.pid_file_created ≡ false)

-- The flag tells the truth as long as autossh runs. An exit removes the file, unless it comes with a
-- second signal to end; the default action of a signal leaves it.
abbrev pub After : {A : Type 0} → Outcome A → Type 0
After (done a s) = Held s
After (jumped g s) = Held s
After (running s) = Held s
After (ended (exited code) s) = Cleared s ⊎ (Held s × (2 ≤ end_signals s.trace))
After (ended (killed g) s) = Held s

abbrev pub Leaves : {A : Type 0} → M A → Type 0
Leaves m = (os : Os) (s : State) → Held s → After (m os s)

pub After-continue :
    {A B : Type 0} (os : Os) (o : Outcome A) (f : A → M B)
    → After o
    → ((a : A) (s : State) → Held s → After (f a os s))
    → After (continue os o f)
After-continue os (done a s) f h k = k a s h
After-continue os (jumped g s) f h k = h
After-continue os (running s) f h k = h
After-continue os (ended (exited code) s) f h k = h
After-continue os (ended (killed g) s) f h k = h

pub bind-Leaves :
    {A B : Type 0} (m : M A) (f : A → M B) → Leaves m → ((a : A) → Leaves (f a)) → Leaves (m >>= f)
bind-Leaves m f h k os s held =
    After-continue os (m os s) f (h os s held) (λ a t held'. k a os t held')

pub if-Leaves :
    {A : Type 0} (c : Bool) (m n : M A) → Leaves m → Leaves n → Leaves (if c then m else n)
if-Leaves true m n h k = h
if-Leaves false m n h k = k

sig_catch-Leaves : (g : Signal) → Leaves (sig_catch g)
unfolding sig_catch
sig_catch-Leaves g os s h = ground arith

default_action-Leaves : (g : Signal) → Leaves (default_action g)
default_action-Leaves sigchld os s h = h
default_action-Leaves g os s h = h

dispose-Leaves : (d : Disposition) (g : Signal) → Leaves (dispose d g)
unfolding dispose
dispose-Leaves dfl g = default_action-Leaves g
dispose-Leaves ign g = λ os s h. h
dispose-Leaves catcher g = sig_catch-Leaves g

pub deliver-Leaves : (gs : List Signal) → Leaves (deliver gs)
unfolding deliver deliver_one
deliver-Leaves [] os s h = h
deliver-Leaves (g ∷ gs) os s h =
    After-continue os
      ((if s.masked && in_blockmask g then done tt s else dispose (s.handlers g) g os s))
      (λ _. deliver gs) (delivered (s.masked && in_blockmask g)) (λ _ t k. deliver-Leaves gs os t k)
  where
    delivered :
        (held_back : Bool) → After (if held_back then done tt s else dispose (s.handlers g) g os s)
    delivered true = h
    delivered false = dispose-Leaves (s.handlers g) g os s h

pub sleep-Leaves : (n : ℕ) → Leaves (sleep n)
unfolding sleep
sleep-Leaves n os s h = deliver-Leaves (os.arrivals s.calls) os _ h

-- The trace behind waitpid has no removal more.
reaped-Held :
    (r : WaitReply) (s : State)
    → Held s
    → Held (record s { calls = suc s.calls; trace = note_reap r s.cchild s.trace })
reaped-Held r s h = ground arith

pub waitpid-Leaves : Leaves waitpid
unfolding waitpid
waitpid-Leaves os s h = reaped-Held (os.waitpid s.calls) s h

send-Leaves : (g : Signal) → Leaves (send g)
unfolding send
send-Leaves g os s h = h

pub close_stderr-Leaves : Leaves close_stderr
unfolding close_stderr
close_stderr-Leaves os s h = ground arith

after_waitpid-Leaves :
    (again : M Bool) (r : WaitReply) → Leaves again → Leaves (after_waitpid again r)
unfolding after_waitpid child_gone
after_waitpid-Leaves again (reaped st) go os s h = h
after_waitpid-Leaves again not_yet go os s h = go os s h
after_waitpid-Leaves again (failed Errno.echild) go os s h = h
after_waitpid-Leaves again (failed Errno.eintr) go os s h = go os s h
after_waitpid-Leaves again (failed _) go os s h = h

reap_with_grace-Leaves : (n : ℕ) → Leaves (reap_with_grace n)
unfolding reap_with_grace
reap_with_grace-Leaves zero os s h = h
reap_with_grace-Leaves (suc n) os s h =
    bind-Leaves waitpid (after_waitpid (sleep 1 >> reap_with_grace n)) waitpid-Leaves
      (λ r. after_waitpid-Leaves (sleep 1 >> reap_with_grace n) r (
        bind-Leaves (sleep 1) (λ _. reap_with_grace n) (sleep-Leaves 1)
          (λ _. reap_with_grace-Leaves n)))
      os s h

escalate-Leaves : (dead : Bool) → Leaves (escalate dead)
unfolding escalate
escalate-Leaves true = λ os s h. h
escalate-Leaves false =
    bind-Leaves (send sigkill)
      (λ _. reap_with_grace sigkill_wait >>= λ dead.
        if dead then pure tt else modify (λ s. record s { cchild = 0 }))
      (send-Leaves sigkill)
      (λ _.
        bind-Leaves (reap_with_grace sigkill_wait)
          (λ dead. if dead then pure tt else modify (λ s. record s { cchild = 0 }))
          (reap_with_grace-Leaves sigkill_wait)
          (λ dead.
            if-Leaves dead (pure tt) (modify (λ s. record s { cchild = 0 })) (λ os s h. h)
              (λ os s h. h)))

kill_child-Leaves : Leaves kill_child
unfolding kill_child
kill_child-Leaves =
    bind-Leaves (send sigterm) (λ _. reap_with_grace sigterm_grace >>= escalate)
      (send-Leaves sigterm)
      (λ _.
        bind-Leaves (reap_with_grace sigterm_grace) escalate (reap_with_grace-Leaves sigterm_grace)
          escalate-Leaves)

pub ssh_kill-Leaves : Leaves ssh_kill
unfolding ssh_kill
ssh_kill-Leaves =
    bind-Leaves close_stderr (λ _ os s. (if s.cchild == 0 then pure tt else kill_child) os s)
      close_stderr-Leaves
      (λ _ os s h.
        if-Leaves (s.cchild == 0) (pure tt) kill_child (λ os s h. h) kill_child-Leaves os s h)

-- The one way in which autossh ends itself while it runs.
pub xerrlog-Leaves : (A : Type 0) → Leaves (xerrlog {A = A})
unfolding xerrlog unlink_pid_file
xerrlog-Leaves A =
    bind-Leaves ssh_kill (λ _. unlink_pid_file >> quit 1) ssh_kill-Leaves (λ _ os s h. ground arith)

search_chunk-Leaves : (text : Bytes) (rest : M Bool) → Leaves rest → Leaves (search_chunk text rest)
unfolding search_chunk
search_chunk-Leaves text rest go =
    if-Leaves (strstr text port_fwd_message) _ _ (λ os s h. h)
      (if-Leaves (strstr text stuck_message) _ _ (λ os s h. h) go)

drain_chunks-Leaves : (cs : List Bytes) → Leaves (drain_chunks cs)
unfolding drain_chunks drain_chunk
drain_chunks-Leaves [] os s h = h
drain_chunks-Leaves (c ∷ cs) os s h =
    search_chunk-Leaves (c_str c) (drain_chunks cs) (drain_chunks-Leaves cs) os _ h

pub check_ssh_stderr-Leaves : Leaves check_ssh_stderr
unfolding check_ssh_stderr
check_ssh_stderr-Leaves os s h =
    ground
      (arith, drain_chunks-Leaves (os.stderr_data s.calls) os (record s { calls = suc s.calls }))
