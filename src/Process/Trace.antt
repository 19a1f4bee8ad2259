-- ===== src/Process/Trace.antt =====
-- Readings of a run's record of calls, the latest first.
use autossh_1_4g.Base.{ℕ, suc, ◌+◌, ◌<◌, ◌≡◌, Bool, true, false, List, [], ◌∷◌}
use autossh_1_4g.Posix.{
  Call, kill, sleep, forked, reap, create_pid_file, unlink_pid_file, end_signal,
}

-- The child that was forked last and not reaped since, or 0.
abbrev pub live_child : List Call → ℕ
live_child [] = 0
live_child (forked p ∷ t) = p
live_child (reap p ∷ t) = 0
live_child (c ∷ t) = live_child t

-- Every signal was sent to the child that was alive then, never to pid 0 (the process group) and
-- never to a pid that had been reaped.
abbrev pub KillsLive : List Call → Type 0
KillsLive [] = Unit
KillsLive (kill p g ∷ t) = (p ≡ live_child t) × (0 < p) × KillsLive t
KillsLive (c ∷ t) = KillsLive t

-- The seconds spent in sleep.
abbrev pub slept : List Call → ℕ
slept [] = 0
slept (sleep n ∷ t) = slept t + n
slept (c ∷ t) = slept t

-- How many children were forked.
abbrev pub forks : List Call → ℕ
forks [] = 0
forks (forked p ∷ t) = suc (forks t)
forks (c ∷ t) = forks t

-- How many signals to end autossh its handler has seen.
abbrev pub end_signals : List Call → ℕ
end_signals [] = 0
end_signals (end_signal ∷ t) = suc (end_signals t)
end_signals (c ∷ t) = end_signals t

-- Whether the pid file is there: it was written, and not removed since.
abbrev pub pid_file_there : List Call → Bool
pid_file_there [] = false
pid_file_there (create_pid_file ∷ t) = true
pid_file_there (unlink_pid_file ∷ t) = false
pid_file_there (c ∷ t) = pid_file_there t
