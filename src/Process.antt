-- ===== src/Process.antt =====
-- The state of the running process (the rest of src/globals.rs, with the function statics TRIES of
-- grace.rs and SECS_LEFT of watch.rs), and the monad that the runtime files are written in. An
-- action returns, jumps (siglongjmp), ends the process, or is still running when its fuel ends.
pub mod Trace
pub mod Triple
use autossh_1_4g.Base.{ℕ, suc, Bool, false, Option, none, List, [], ◌∷◌}
use autossh_1_4g.Base.Int.{ℤ, pos}
use autossh_1_4g.Posix.{Signal, Disposition, Os, Call}
use autossh_1_4g.Settings.{Settings}

-- cchild is 0 and ssh_stderr_fd is `none` (-1 in the source) when there is no child or no pipe.
-- `masked` says whether ssh_watch's signal set is blocked, `calls` counts the system calls made, and
-- `trace` lists those with an outside effect, the latest first.
pub record State : Type 0 where
  pub settings : Settings
  pub open settings use *
  pub start_count : ℕ
  pub start_time : ℕ
  pub cchild : ℕ
  pub ssh_stderr_fd : Option ℕ
  pub pipe_lost_time : ℕ
  pub last_stderr_time : ℕ
  pub port_fwd_failed : Bool
  pub exit_signalled : Bool
  pub restart_ssh : Bool
  pub dolongjmp : Bool
  pub pid_file_created : Bool
  pub tries : ℕ
  pub secs_left : ℤ
  pub my_poll_time : ℕ
  pub masked : Bool
  pub handlers : Signal → Disposition
  pub calls : ℕ
  pub trace : List Call

abbrev pub initial : Settings → State
initial settings = record {
  settings = settings;
  start_count = 0;
  start_time = 0;
  cchild = 0;
  ssh_stderr_fd = none;
  pipe_lost_time = 0;
  last_stderr_time = 0;
  port_fwd_failed = false;
  exit_signalled = false;
  restart_ssh = false;
  dolongjmp = false;
  pid_file_created = false;
  tries = 0;
  secs_left = pos 0;
  my_poll_time = 0;
  masked = false;
  handlers = λ g. Disposition.dfl;
  calls = 0;
  trace = [];
}

-- `exit` and `_exit` with a code, or the default action of a signal.
pub data Ending : Type 0 where
  exited : ℕ → Ending
  killed : Signal → Ending

pub data Outcome (A : Type 0) : Type 0 where
  done : A → State → Outcome A
  jumped : Signal → State → Outcome A
  ended : Ending → State → Outcome A
  running : State → Outcome A

abbrev pub M : Type 0 → Type 0
M A = Os → State → Outcome A

abbrev pub continue : {A B : Type 0} → Os → Outcome A → (A → M B) → Outcome B
continue os (done a s) f = f a os s
continue os (jumped g s) f = jumped g s
continue os (ended e s) f = ended e s
continue os (running s) f = running s

infixl 5 ◌>>=◌ ◌>>◌
abbrev pub ◌>>=◌ : {A B : Type 0} → M A → (A → M B) → M B
◌>>=◌ m f os s = continue os (m os s) f

abbrev pub ◌>>◌ : {B : Type 0} → M (Unit {0}) → M B → M B
m >> k = m >>= λ _. k

abbrev pub pure : {A : Type 0} → A → M A
pure a os s = done a s

abbrev pub get : M State
get os s = done s s

abbrev pub modify : (State → State) → M (Unit {0})
modify f os s = done tt (f s)

abbrev pub quit : {A : Type 0} → ℕ → M A
quit code os s = ended (exited code) s

-- What fuel that has run out leaves.
abbrev pub still_running : {A : Type 0} → M A
still_running os s = running s

-- A system call whose reply depends only on how many came before it.
abbrev pub ask : {A : Type 0} → (Os → ℕ → A) → M A
ask reply os s = done (reply os s.calls) (record s { calls = suc s.calls })

-- A system call with an effect that is recorded.
abbrev pub record_call : Call → M (Unit {0})
record_call c os s = done tt (record s { calls = suc s.calls; trace = c ∷ s.trace })
