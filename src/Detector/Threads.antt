-- ===== src/Detector/Threads.antt =====
-- ssh-stuck-detector/src/lib.rs: the threads of ssh on one tracker. Each load and each store of enter
-- and leave is a step, and so is the real function; the steps of the threads come in any order, and
-- the clock runs on between them. A thread does not make a hooked call within another one here.
pub mod Alarms
use autossh_1_4g.Base.{ℕ, zero, suc, ◌+◌, ◌<◌, ◌≡◌, ◌==◌, if◌then◌else◌}
use autossh_1_4g.Base.Bytes.{Bytes}
use autossh_1_4g.Family.{set_at}
use autossh_1_4g.Detector.{Tracker}

-- Where a thread stands: outside of the call; at the load of enter; with the value that it loaded; with
-- the second at which it will say that the call began; in the real function, or back from it, with the
-- second that it stored, or without one where a call was tracked already; and between the two stores
-- of leave.
pub data Hook : Type 0 where
  outside : Hook
  entering : Hook
  loaded : ℕ → Hook
  timed : ℕ → Hook
  tracking : ℕ → Hook
  untracked : Hook
  finished : ℕ → Hook
  resetting : Hook

-- One step of a thread at the second `now`.
unfoldable pub hook_step : ℕ → Hook → Tracker → Tracker × Hook
hook_step now outside t = (t, entering)
hook_step now entering t = (t, loaded t.start_sec)
hook_step now (loaded zero) t = (t, timed now)
hook_step now (loaded (suc prev)) t = (t, untracked)
hook_step now (timed began) t = (record t { start_sec = began }, tracking began)
hook_step now (tracking began) t = (t, finished began)
hook_step now untracked t = (t, outside)
hook_step now (finished began) t = (record t { start_sec = 0 }, resetting)
hook_step now resetting t = (record t { last_warn_sec = 0 }, outside)

pub record Ssh : Type 0 where
  pub clock : ℕ
  pub tracker : Tracker
  pub hooks : ℕ → Hook

abbrev pub idle_ssh : Bytes → Ssh
idle_ssh name = record {
  clock = 1;
  tracker = record { name = name; start_sec = 0; last_warn_sec = 0 };
  hooks = λ i. outside;
}

unfoldable pub hook_turn : ℕ → Ssh → Ssh
unfolding hook_step
hook_turn i s =
    let stepped = hook_step s.clock (s.hooks i) s.tracker in
    record s { tracker = stepped.0; hooks = set_at i stepped.1 s.hooks }

-- The monitor's only store: a warning of this second.
unfoldable pub warned : ℕ → Ssh → Ssh
warned now s = record s { tracker = record (s.tracker) { last_warn_sec = now } }

pub data HookStep (n : ℕ) (s : Ssh) : Ssh → Type 0 where
  hook : (i : ℕ) → i < n → HookStep n s (hook_turn i s)
  tick : HookStep n s (record s { clock = s.clock + 1 })
  warn : (now : ℕ) → HookStep n s (warned now s)

pub data HookReach (n : ℕ) (name : Bytes) : Ssh → Type 0 where
  idle : HookReach n name (idle_ssh name)
  then_step : {s t : Ssh} → HookReach n name s → HookStep n s t → HookReach n name t
