-- ===== src/Wait.antt =====
-- src/wait.rs: the reaper, and what an exit status means for autossh.
pub mod Verdicts
use autossh_1_4g.Base.{ℕ, suc, ◌+◌, not, ◌&&◌, ◌||◌, ltb, leb, ◌==◌, if◌then◌else◌}
use autossh_1_4g.Posix.{Status, WaitReply, reaped, not_yet, failed}
use autossh_1_4g.Process.{M, done, pure, ◌>>=◌}
use autossh_1_4g.Kill.{waitpid}
use autossh_1_4g.Drain.{check_ssh_stderr}

-- P_CONTINUE, P_RESTART, P_EXITOK, P_EXITERR
pub data Policy : Type 0 where
  p_continue p_restart p_exitok p_exiterr : Policy

-- The `match evalue` of ssh_wait.
unfoldable pub policy_of_code : ℕ → ℕ → ℕ → Policy
policy_of_code start_count gate_time evalue =
    if evalue == 255
    then p_restart
    else if evalue == 0
    then p_exitok
    else if (evalue == 1) || (evalue == 2)
    then (if ltb 1 start_count || (gate_time == 0) then p_restart else p_exiterr)
    else p_exiterr

-- On the first start, with a gate time, the clock is read: an exit within the gate time is final.
unfoldable pub judge_exit : ℕ → M Policy
unfolding policy_of_code
judge_exit evalue os s =
    if (s.start_count == 1) && not (s.gate_time == 0)
    then done
        (if leb (os.time s.calls) (s.start_time + s.gate_time)
          then p_exiterr
          else policy_of_code s.start_count s.gate_time evalue)
        (record s { calls = suc s.calls })
    else done (policy_of_code s.start_count s.gate_time evalue) s

unfoldable pub judge_status : Status → M Policy
unfolding judge_exit
judge_status (Status.signaled sig) = pure p_restart
judge_status (Status.exited evalue) = judge_exit evalue
judge_status Status.stopped = pure p_continue

unfoldable pub judge : WaitReply → M Policy
unfolding judge_status check_ssh_stderr
judge (reaped status) = do _ ← check_ssh_stderr; judge_status status
judge not_yet = pure p_continue
judge (failed e) = pure p_continue

unfoldable pub ssh_wait : M Policy
unfolding waitpid judge
ssh_wait = do reply ← waitpid; judge reply
