-- ===== src/Lifetime.antt =====
-- src/lifetime.rs: the alarm wrapper and the check of AUTOSSH_MAXLIFETIME.
use autossh_1_4g.Base.{ℕ, suc, ◌+◌, Bool, false, ◌∷◌, ltb, leb, if◌then◌else◌}
use autossh_1_4g.Posix.{Call}
use autossh_1_4g.Process.{M, done}

-- alarm(0): the seconds that were left
unfoldable pub clear_alarm_timer : M ℕ
clear_alarm_timer os s =
    done (os.alarm_left s.calls) (record s { calls = suc s.calls; trace = Call.alarm 0 ∷ s.trace })

-- difftime(now, pid_start_time) >= max_lifetime, where a lifetime is set
unfoldable pub exceeded_lifetime : M Bool
exceeded_lifetime os s =
    if ltb 0 s.max_lifetime
    then done (leb (s.pid_start_time + s.max_lifetime) (os.time s.calls))
        (record s { calls = suc s.calls })
    else done false s
