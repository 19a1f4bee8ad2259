-- ===== src/Tests/Hooks.antt =====
-- Threads of ssh in hooked calls, step by step.
use autossh_1_4g.Base.{ℕ, ◌+◌, ◌*◌, ◌≤◌, ◌<◌, ◌≡◌, refl, arith}
use autossh_1_4g.Base.Bytes.{codes}
use autossh_1_4g.Detector.{aborts}
use autossh_1_4g.Detector.Threads.{
  Ssh, idle_ssh, untracked, hook_turn, hook, HookReach, idle, then_step,
}
use autossh_1_4g.Detector.Threads.Alarms.{InFlight, aborts-InFlight}

-- One thread in recv since second 1.
abbrev called_recv : Ssh
called_recv = hook_turn 0 (hook_turn 0 (hook_turn 0 (hook_turn 0 (idle_ssh (codes "recv")))))

in_recv : HookReach 2 (codes "recv") called_recv
in_recv =
    then_step
      (then_step (then_step (then_step idle (hook 0 (omega arith))) (hook 0 (omega arith)))
        (hook 0 (omega arith)))
      (hook 0 (omega arith))

aborts-InFlight_example :
    (i : ℕ) × (i < 2)
    × InFlight called_recv.tracker.start_sec (called_recv.hooks i)
    × (called_recv.tracker.start_sec + 30 * 2 ≤ 61)
unfolding hook_turn aborts
aborts-InFlight_example = aborts-InFlight 2 61 30 (omega arith) in_recv refl

-- A second thread that enters while the first one is tracked is not tracked itself, and when the first one
-- is through, nobody watches it.
unwatched_call :
    (s : Ssh) × HookReach 2 (codes "recv") s × (s.hooks 1 ≡ untracked) × (s.tracker.start_sec ≡ 0)
unfolding hook_turn
unwatched_call = (
  _,
  then_step
      (then_step
        (then_step (then_step (then_step in_recv (hook 1 (omega arith))) (hook 1 (omega arith)))
          (hook 1 (omega arith)))
        (hook 0 (omega arith)))
      (hook 0 (omega arith)),
  refl,
  refl,
)
