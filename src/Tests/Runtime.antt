-- ===== src/Tests/Runtime.antt =====
-- The theorems about the process at concrete inputs.
use autossh_1_4g.Base.{ℕ, ◌+◌, ◌≤◌, ◌≡◌, ◌≢◌, ◌↔◌, refl, inr, true, false, none}
use autossh_1_4g.Base.Int.{negsuc}
use autossh_1_4g.Process.{initial, ◌>>◌}
use autossh_1_4g.Process.Trace.{KillsLive, slept, forks}
use autossh_1_4g.Process.Triple.{Sat, NoJump, Ends}
use autossh_1_4g.Kill.{ssh_kill}
use autossh_1_4g.Kill.Safety.{IsTidy, ssh_kill_targets, ssh_kill_four_seconds}
use autossh_1_4g.Wait.{p_continue, p_restart, p_exitok, judge_exit}
use autossh_1_4g.Wait.Verdicts.{IsPremature, IsRetryable, judge_exit_policy}
use autossh_1_4g.Drain.{check_ssh_stderr}
use autossh_1_4g.Drain.Match.{AnyFatal, check_ssh_stderr_finds}
use autossh_1_4g.Grace.{grace_time}
use autossh_1_4g.Grace.Bounds.{next_tries, grace_time_bounds}
use autossh_1_4g.Signals.{set_sig_handlers, unset_sig_handlers}
use autossh_1_4g.Signals.Dispositions.{HasHandlers, between, unset-set_between}
use autossh_1_4g.Watch.{ssh_watch}
use autossh_1_4g.Watch.Reaping.{ssh_watch_reaps}
use autossh_1_4g.Conn.{conn_send_and_receive}
use autossh_1_4g.Conn.Rounds.{conn_send_and_receive_six_seconds}
use autossh_1_4g.Run.{ssh_run}
use autossh_1_4g.Run.Forked.{IsExit}
use autossh_1_4g.Run.Safety.{ssh_run_max_start, ssh_run_signals}
use autossh_1_4g.Tests.Examples.{
  quiet_os, dropping_os, port_taken_os, with_child, two_starts, whole,
}

pub with_child-IsTidy : IsTidy with_child
with_child-IsTidy = (tt, inr refl, refl)

ssh_kill_targets_example :
    Ends
      (λ _ t. KillsLive t.trace × (t.cchild ≡ 0) × (t.ssh_stderr_fd ≡ none))
      (λ t. KillsLive t.trace)
      (ssh_kill quiet_os with_child)
ssh_kill_targets_example = ssh_kill_targets quiet_os with_child with_child-IsTidy

ssh_kill_four_seconds_example :
    Ends
      (λ _ t. slept t.trace ≤ slept with_child.trace + 4)
      (λ t. slept t.trace ≤ slept with_child.trace + 4)
      (ssh_kill quiet_os with_child)
ssh_kill_four_seconds_example = ssh_kill_four_seconds quiet_os with_child with_child-IsTidy

judge_exit_policy_example :
    Ends
      (λ p t.
        ((p ≡ p_restart) ↔ ((¬ IsPremature with_child 1000) × IsRetryable with_child 255))
        × ((p ≡ p_exitok) ↔ ((¬ IsPremature with_child 1000) × (◌≡◌ {A = ℕ} 255 0)))
        × (p ≢ p_continue)
        × (t ≡ record with_child { calls = t.calls }))
      (λ _. ⊥)
      (judge_exit 255 quiet_os with_child)
judge_exit_policy_example = judge_exit_policy 255 quiet_os with_child

check_ssh_stderr_finds_example :
    Ends
      (λ b t. (b ≡ true) ↔ AnyFatal (port_taken_os.stderr_data 0))
      (λ _. ⊥)
      (check_ssh_stderr port_taken_os with_child)
check_ssh_stderr_finds_example = check_ssh_stderr_finds port_taken_os with_child 5 refl

grace_time_bounds_example :
    Ends
      (λ _ t.
        (slept t.trace ≤ slept with_child.trace + (600 + 5))
        × (t.tries ≡ next_tries with_child 990 1000)
        × (t.port_fwd_failed ≡ false))
      (λ t. slept t.trace ≤ slept with_child.trace + (600 + 5))
      (grace_time whole 990 quiet_os with_child)
grace_time_bounds_example = grace_time_bounds whole 990 quiet_os with_child refl

unset-set_between_example :
    HasHandlers
      (between with_child.handlers)
      ((set_sig_handlers >> unset_sig_handlers) quiet_os with_child)
unset-set_between_example = unset-set_between quiet_os with_child

ssh_run_max_start_example :
    Sat
      (λ p t. (forks t.trace ≤ 2) × IsExit p)
      NoJump
      (λ t. forks t.trace ≤ 2)
      (ssh_run whole 3 3 (negsuc 0) dropping_os (initial two_starts))
ssh_run_max_start_example = ssh_run_max_start whole two_starts 2 3 3 (negsuc 0) dropping_os refl

ssh_run_signals_example :
    Sat
      (λ p t. KillsLive t.trace × (t.dolongjmp ≡ false))
      NoJump
      (λ t. KillsLive t.trace)
      (ssh_run whole 3 3 (negsuc 0) dropping_os (initial two_starts))
ssh_run_signals_example = ssh_run_signals whole two_starts 3 3 (negsuc 0) dropping_os

ssh_watch_reaps_example :
    Ends
      (λ p t. (p ≢ p_continue) × (t.masked ≡ false))
      (λ _. ⊥)
      (ssh_watch 1 (negsuc 0) dropping_os with_child)
ssh_watch_reaps_example = ssh_watch_reaps 0 255 (negsuc 0) dropping_os with_child refl refl

conn_send_and_receive_six_seconds_example :
    Ends
      (λ _ t. slept t.trace ≤ slept with_child.trace + 6)
      (λ t. slept t.trace ≤ slept with_child.trace + 6)
      (conn_send_and_receive 30 quiet_os with_child)
conn_send_and_receive_six_seconds_example =
    conn_send_and_receive_six_seconds 30 quiet_os with_child refl
