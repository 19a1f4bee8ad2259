-- ===== src/Kill.antt =====
-- src/kill.rs: the teardown of the ssh child. A poll loop with `seconds` rounds is a recursion on
-- the rounds that are left.
pub mod Safety
use autossh_1_4g.Base.{ℕ, zero, suc, Bool, true, false, none, some, List, ◌∷◌, ◌==◌, if◌then◌else◌}
use autossh_1_4g.Posix.{
  Signal, sigterm, sigkill, Errno, Status, WaitReply, reaped, not_yet, failed, Call, reap,
}
use autossh_1_4g.Process.{State, M, Outcome, done, pure, get, modify, record_call, ◌>>=◌, ◌>>◌}
use autossh_1_4g.Signals.{sleep}

abbrev pub sigterm_grace : ℕ
sigterm_grace = 2

abbrev pub sigkill_wait : ℕ
sigkill_wait = 2

abbrev pub note_reap : WaitReply → ℕ → List Call → List Call
note_reap (reaped (Status.exited n)) p t = reap p ∷ t
note_reap (reaped (Status.signaled n)) p t = reap p ∷ t
note_reap _ p t = t

-- waitpid(cchild, &status, WNOHANG)
unfoldable pub waitpid : M WaitReply
waitpid os s =
    let reply = os.waitpid s.calls in
    done reply (record s { calls = suc s.calls; trace = note_reap reply s.cchild s.trace })

unfoldable pub send : Signal → M (Unit {0})
send g os s = record_call (Call.kill s.cchild g) os s

unfoldable pub close_stderr : M (Unit {0})
close_stderr os s = elim s.ssh_stderr_fd [
  | none ↦ done tt s
  | some fd ↦
      done tt
        (record s { ssh_stderr_fd = none; calls = suc s.calls; trace = Call.close fd ∷ s.trace })
]

unfoldable pub child_gone : M Bool
child_gone os s = done true (record s { cchild = 0 })

-- One round: the child is gone, or waitpid failed, or the loop goes on.
unfoldable pub after_waitpid : M Bool → WaitReply → M Bool
unfolding child_gone
after_waitpid again (reaped st) = child_gone
after_waitpid again not_yet = again
after_waitpid again (failed Errno.echild) = child_gone
after_waitpid again (failed Errno.eintr) = again
after_waitpid again (failed _) = child_gone

unfoldable pub reap_with_grace : ℕ → M Bool
unfolding waitpid after_waitpid
reap_with_grace zero = pure false
reap_with_grace (suc n) = do reply ← waitpid; after_waitpid (do sleep 1; reap_with_grace n) reply

-- SIGTERM was not enough.
unfoldable pub escalate : Bool → M (Unit {0})
unfolding send
escalate true = pure tt
escalate false = do
  send sigkill
  dead ← reap_with_grace sigkill_wait
  if dead then pure tt else modify (λ s. record s { cchild = 0 })

unfoldable pub kill_child : M (Unit {0})
unfolding send
kill_child = do send sigterm; dead ← reap_with_grace sigterm_grace; escalate dead

unfoldable pub ssh_kill : M (Unit {0})
unfolding close_stderr
ssh_kill = do close_stderr; s ← get; if s.cchild == 0 then pure tt else kill_child
