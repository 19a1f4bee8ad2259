-- ===== src/Watch/Alarm.antt =====
-- The period for which ssh_watch arms the alarm.
use autossh_1_4g.Base.{ℕ, suc, ◌+◌, ◌≤◌, ◌<◌, ◌≡◌, ◌⊎◌, ◌∷◌, arith, ◌-◌}
use autossh_1_4g.Base.Int.{c_uint}
use autossh_1_4g.Posix.{Os, alarm}
use autossh_1_4g.Process.{State}
use autossh_1_4g.Process.Triple.{Ends}
use autossh_1_4g.Lifetime.{clear_alarm_timer}
use autossh_1_4g.Watch.{arm}

-- A lifetime is not set, or not over at the clock reading that arm makes.
abbrev pub IsBeforeShutdown : Os → State → Type 0
IsBeforeShutdown os s =
    (s.max_lifetime ≡ 0) ⊎ (os.time (suc s.calls) < s.pid_start_time + s.max_lifetime)

-- Before the end of the lifetime, and with an alarm and a poll time of 1 to 2 ^ 31 - 1 seconds, arm
-- sets an alarm of at least one second, and of no more than max_session if that is set.
pub arm_period :
    (os : Os) (s : State)
    → os.alarm_left s.calls < 2147483648
    → 0 < s.my_poll_time
    → s.my_poll_time < 2147483648
    → s.poll_time < 2147483648
    → IsBeforeShutdown os s
    → Ends
        (λ _ t.
          (t.trace ≡ alarm (c_uint t.secs_left) ∷ alarm 0 ∷ s.trace)
          × (0 < c_uint t.secs_left)
          × ((s.max_session ≡ 0) ⊎ (c_uint t.secs_left ≤ s.max_session)))
        (λ _. ⊥)
        (arm os s)
unfolding arm clear_alarm_timer
arm_period os s left pos_poll poll_bound poll_time_bound before = ground arith

-- With a lifetime that is set and a positive poll time: if the clock stands at the very end of the
-- lifetime when a round begins, arm clears the alarm and then sets one of 0 seconds, which is
-- none.
pub arm_at_shutdown :
    (os : Os) (s : State)
    → 0 < s.max_lifetime
    → 0 < s.poll_time
    → os.time (suc s.calls) ≡ s.pid_start_time + s.max_lifetime
    → Ends (λ _ t. t.trace ≡ alarm 0 ∷ alarm 0 ∷ s.trace) (λ _. ⊥) (arm os s)
unfolding arm clear_alarm_timer
arm_at_shutdown os s lifetime poll now = ground arith

-- With a lifetime that is set: where it ended 1 to 2 ^ 31 seconds before a round begins, arm sets
-- the alarm for that number short of 2 ^ 32 seconds.
pub arm_past_shutdown :
    (k : ℕ) (os : Os) (s : State)
    → k < 2147483648
    → 0 < s.max_lifetime
    → os.time (suc s.calls) ≡ s.pid_start_time + s.max_lifetime + suc k
    → Ends (λ _ t. t.trace ≡ alarm (4294967295 - k) ∷ alarm 0 ∷ s.trace) (λ _. ⊥) (arm os s)
unfolding arm clear_alarm_timer
arm_past_shutdown k os s small lifetime now = ground arith
