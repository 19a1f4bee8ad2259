-- ===== src/Session.antt =====
-- src/api.rs: sessions of an embedding program. The pid of the supervisor is an atomic field that
-- autossh_session_stop and autossh_session_state share, on different threads: each is a machine that
-- makes one access or one system call at a time.
pub mod Threads
pub mod Teardown
pub mod Races
pub mod Config
pub mod Child
pub mod Reserve
pub mod Start
pub mod Calls
use autossh_1_4g.Base.{
  ℕ, zero, suc, ◌+◌, Bool, true, false, List, [], ◌∷◌, ltb, leb, ◌==◌, if◌then◌else◌,
}
use autossh_1_4g.Base.Int.{ℤ, pos, negsuc, pos_part, neg_part, ltb_ℤ}
use autossh_1_4g.Posix.{Signal}
use autossh_1_4g.Posix.Signal.{sigterm, sigkill}

-- AUTOSSH_STATE_INIT to AUTOSSH_STATE_ERROR
pub data SessionState : Type 0 where
  init starting running exited stopped error : SessionState

-- What waitpid answers: the pid, 0 or an error other than ECHILD, or ECHILD.
pub data Reply : Type 0 where
  gone : Reply
  alive : Reply
  no_child : Reply

pub data Event : Type 0 where
  signal : ℤ → Signal → Event
  reaped : ℤ → Event
  forked : ℤ → Event

-- The fields that the calls share, and what was done to processes, the latest first.
pub record Shared : Type 0 where
  pub pid : ℤ
  pub state : SessionState
  pub trace : List Event

abbrev pub is_positive : ℤ → Bool
is_positive (pos (suc n)) = true
is_positive _ = false

abbrev pub same_pid : ℤ → ℤ → Bool
same_pid (pos a) (pos b) = a == b
same_pid (negsuc a) (negsuc b) = a == b
same_pid _ _ = false

-- kill(2) for one positive pid only
unfoldable pub kill_pid : ℤ → Signal → Shared → Shared
kill_pid p g s = if is_positive p then record s { trace = signal p g ∷ s.trace } else s

-- for _ in 0..50
abbrev pub stop_rounds : ℕ
stop_rounds = 50

-- Where a thread stands: in autossh_session_stop,
pub data Pc : Type 0 where
  idle : Pc
  swapping : Pc
  terming : ℤ → Pc
  polling : ℤ → ℕ → Pc
  napping : ℤ → ℕ → Pc
  killing : ℤ → Pc
  reaping : ℤ → Pc
  stopping : Pc
  stop_returned : Pc
  -- or in autossh_session_state.
  loading : Pc
  checking : ℤ → Pc
  clearing : ℤ → Pc
  exiting : Pc
  reading : Pc
  state_returned : SessionState → Pc

-- waitpid in a thread: what is noted of it.
abbrev pub note : Reply → ℤ → Shared → Shared
note gone p s = record s { trace = reaped p ∷ s.trace }
note _ p s = s

-- rc == pid, or -1 with ECHILD
abbrev pub is_over : Reply → Bool
is_over alive = false
is_over _ = true

abbrev pub is_gone : Reply → Bool
is_gone gone = true
is_gone _ = false

unfoldable pub take_pid : Shared → Shared × Pc
take_pid s = (record s { pid = pos 0 }, if is_positive s.pid then terming s.pid else stopping)

-- compare_exchange(pid, 0)
unfoldable pub clear_pid : ℤ → Shared → Shared
clear_pid p s = if same_pid s.pid p then record s { pid = pos 0 } else s

-- One step of a thread; the reply is read where the step is a waitpid. The last waitpid of
-- autossh_session_stop blocks, and the step stands for its return.
unfoldable pub move : Reply → Pc → Shared → Shared × Pc
unfolding kill_pid take_pid clear_pid
move r idle s = (s, idle)
move r swapping s = take_pid s
move r (terming p) s = (kill_pid p sigterm s, polling p stop_rounds)
move r (polling p zero) s = (s, killing p)
move r (polling p (suc k)) s = (note r p s, if is_over r then stopping else napping p k)
move r (napping p k) s = (s, polling p k)
move r (killing p) s = (kill_pid p sigkill s, reaping p)
move r (reaping p) s = (note r p s, stopping)
move r stopping s = (record s { state = SessionState.stopped }, stop_returned)
move r stop_returned s = (s, stop_returned)
move r loading s = (s, if is_positive s.pid then checking s.pid else reading)
move r (checking p) s = (note r p s, if is_gone r then clearing p else reading)
move r (clearing p) s = (clear_pid p s, exiting)
move r exiting s = (record s { state = SessionState.exited }, reading)
move r reading s = (s, state_returned s.state)
move r (state_returned x) s = (s, state_returned x)

-- A thread between two calls.
abbrev pub is_resting : Pc → Bool
is_resting idle = true
is_resting stop_returned = true
is_resting (state_returned x) = true
is_resting _ = false
