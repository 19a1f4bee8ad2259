-- ===== src/Env.antt =====
-- src/env.rs: the settings from the AUTOSSH_ variables. What getenv, strtol, strtoul, fopen and time
-- return are arguments; `none` is xerrlog, which ends the program. The doubles hold whole seconds.
pub mod Sanity
pub mod Read
pub mod Timeout
pub mod Accepts
use autossh_1_4g.Base.{
  ℕ, zero, suc, ◌-◌, ◌≡◌, Bool, true, false, not, ◌&&◌, ◌||◌, Option, none, some, List, [], ◌∷◌,
  ltb, leb, ◌==◌, length, if◌then◌else◌,
}
use autossh_1_4g.Base.Int.{ℤ, pos, negsuc, pos_part, neg_part, ltb_ℤ, c_int_of_ℕ, c_int}
use autossh_1_4g.Base.Bytes.{Bytes}
use autossh_1_4g.Settings.{LogType, Settings, poll_time_default}

abbrev pub max_message : ℕ
max_message = 64

-- A variable that is set to a text: whether it is empty, the number that strtol or strtoul read, and
-- whether the conversion stopped at the text's end.
pub record Var (A : Type 0) : Type 0 where
  pub is_empty : Bool
  pub value : A
  pub whole : Bool

pub record Env : Type 0 where
  pub path : Option Bytes
  pub debug : Bool
  pub log_level : Option (Var ℤ)
  pub poll : Option (Var ℕ)
  pub first_poll : Option (Var ℕ)
  pub gatetime : Option (Var ℤ)
  pub maxstart : Option (Var ℤ)
  pub message : Option Bytes
  pub port : Option Bytes
  pub maxlifetime : Option (Var ℕ)
  pub max_session_var : Option (Var ℕ)
  pub pidfile : Option Bytes
  -- whether fopen could open AUTOSSH_LOGFILE
  pub logfile : Option Bool
  -- what time(2) returns
  pub now : ℕ

-- A step takes the settings on, or ends the program.
abbrev pub Step : Type 0
Step = Settings → Option Settings

infixl 5 ◌>>=◌
abbrev pub ◌>>=◌ : Option Settings → Step → Option Settings
none >>= f = none
(some s) >>= f = f s

abbrev is_malformed : {A : Type 0} → Var A → Bool
is_malformed v = v.is_empty || not v.whole

-- `v as c_int`, and the default in place of what is not positive.
abbrev pub poll_of : ℤ → ℕ
poll_of (pos (suc n)) = suc n
poll_of _ = poll_time_default

unfoldable pub set_path : Option Bytes → Step
set_path none s = some s
set_path (some p) s = some (record s { ssh_path = p })

unfoldable pub set_log_level : Bool → Option (Var ℤ) → Step
set_log_level true level s = some (record s { syslog_perror = true; loglevel = pos 7 })
set_log_level false none s = some s
set_log_level false (some v) s =
    if is_malformed v || (ltb_ℤ v.value (pos 0) || ltb_ℤ (pos 7) v.value)
    then none
    else some (record s { loglevel = v.value })

unfoldable pub set_poll : Option (Var ℕ) → Step
set_poll none s = some s
set_poll (some v) s =
    if is_malformed v || (v.value == 0)
    then none
    else some (record s { poll_time = poll_of (c_int_of_ℕ v.value) })

unfoldable pub set_first_poll : Option (Var ℕ) → Step
set_first_poll none s = some (record s { first_poll_time = s.poll_time })
set_first_poll (some v) s =
    if is_malformed v || (v.value == 0)
    then none
    else some (record s { first_poll_time = poll_of (c_int_of_ℕ v.value) })

unfoldable pub set_gate_time : Option (Var ℤ) → Step
set_gate_time none s = some s
set_gate_time (some v) s =
    if is_malformed v || ltb_ℤ v.value (pos 0)
    then none
    else some (record s { gate_time = pos_part v.value })

unfoldable pub set_max_start : Option (Var ℤ) → Step
set_max_start none s = some s
set_max_start (some v) s =
    if is_malformed v || ltb_ℤ v.value (negsuc 0)
    then none
    else some (record s { max_start = c_int v.value })

abbrev message_or : Bytes → Bytes → Bytes
message_or [] old = old
message_or (b ∷ bs) old = b ∷ bs

unfoldable pub set_message : Option Bytes → Step
set_message none s = some s
set_message (some m) s =
    if ltb max_message (length (message_or m s.echo_message))
    then none
    else some (record s { echo_message = message_or m s.echo_message })

abbrev non_empty : Option Bytes → Option Bytes → Option Bytes
non_empty (some (b ∷ bs)) old = some (b ∷ bs)
non_empty _ old = old

unfoldable pub set_port : Option Bytes → Step
set_port p s = some (record s { env_port = non_empty p s.env_port })

-- No poll time is longer than the lifetime, whose clock starts here.
unfoldable pub limit_polls : ℕ → ℕ → Settings → Settings
limit_polls lifetime now s = record s {
  max_lifetime = lifetime;
  poll_time = if ltb lifetime s.poll_time then lifetime else s.poll_time;
  first_poll_time = if ltb lifetime s.first_poll_time then lifetime else s.first_poll_time;
  pid_start_time = now;
}

unfoldable pub set_lifetime : ℕ → Option (Var ℕ) → Step
unfolding limit_polls
set_lifetime now none s = some s
set_lifetime now (some v) s =
    if is_malformed v
    then none
    else if v.value == 0
    then some (record s { max_lifetime = 0 })
    else some (limit_polls v.value now s)

unfoldable pub set_session : Option (Var ℕ) → Step
set_session none s = some s
set_session (some v) s = if is_malformed v then none else some (record s { max_session = v.value })

unfoldable pub set_pid_file : Option Bytes → Step
set_pid_file p s = some (record s { pid_file_name = non_empty p s.pid_file_name })

unfoldable pub set_log_file : Option Bool → Step
set_log_file none s = some s
set_log_file (some true) s = some (record s { logtype = LogType.to_file })
set_log_file (some false) s = none

unfoldable pub get_env_args : Env → Step
unfolding set_path set_log_level set_poll set_first_poll set_gate_time set_max_start set_message
    set_port set_lifetime set_session set_pid_file set_log_file
get_env_args env s =
    set_path env.path s
    >>= set_log_level env.debug env.log_level
    >>= set_poll env.poll
    >>= set_first_poll env.first_poll
    >>= set_gate_time env.gatetime
    >>= set_max_start env.maxstart
    >>= set_message env.message
    >>= set_port env.port
    >>= set_lifetime env.now env.maxlifetime
    >>= set_session env.max_session_var
    >>= set_pid_file env.pidfile
    >>= set_log_file env.logfile
