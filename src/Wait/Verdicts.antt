-- ===== src/Wait/Verdicts.antt =====
-- When ssh_wait restarts, and when it gives up: the three verdicts on an exit, each exactly.
use autossh_1_4g.Base.{ℕ, ◌+◌, ◌≤◌, ◌<◌, ◌≡◌, ◌≢◌, ◌↔◌, ◌⊎◌, arith}
use autossh_1_4g.Posix.{Os}
use autossh_1_4g.Process.{State}
use autossh_1_4g.Process.Triple.{Ends}
use autossh_1_4g.Wait.{p_continue, p_restart, p_exitok, judge_exit}

-- The first start ended within a gate time that is not 0.
abbrev pub IsPremature : State → ℕ → Type 0
IsPremature s now = (s.start_count ≡ 1) × (0 < s.gate_time) × (now ≤ s.start_time + s.gate_time)

-- A dropped connection, or ssh's 1 and 2 where the session counts as established.
abbrev pub IsRetryable : State → ℕ → Type 0
IsRetryable s n = (n ≡ 255) ⊎ (((n ≡ 1) ⊎ (n ≡ 2)) × ((1 < s.start_count) ⊎ (s.gate_time ≡ 0)))

-- Of a child that exited with code n: the verdict is P_RESTART exactly if the exit is not premature
-- and the code can be retried, P_EXITOK exactly if it is not premature and the code is 0, and it is
-- never P_CONTINUE; the process state is unchanged but for the number of calls.
pub judge_exit_policy :
    (n : ℕ) (os : Os) (s : State)
    → Ends
        (λ p t.
          ((p ≡ p_restart) ↔ ((¬ IsPremature s (os.time s.calls)) × IsRetryable s n))
          × ((p ≡ p_exitok) ↔ ((¬ IsPremature s (os.time s.calls)) × (n ≡ 0)))
          × (p ≢ p_continue)
          × (t ≡ record s { calls = t.calls }))
        (λ _. ⊥)
        (judge_exit n os s)
unfolding judge_exit
judge_exit_policy n os s = ground arith
