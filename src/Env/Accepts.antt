-- ===== src/Env/Accepts.antt =====
-- Which environments get_env_args accepts, and the settings that it makes of them, described without
-- its steps.
pub mod Steps
pub mod Decides
use autossh_1_4g.Base.{
  ℕ, zero, suc, ◌≤◌, ◌≡◌, ◌≢◌, refl, sym, subst, Bool, true, false, Option, none, some, [], ◌∷◌,
  ◌==◌, ltb, length, arith, if◌then◌else◌,
}
use autossh_1_4g.Base.Int.{ℤ, pos, negsuc, ◌≤ℤ◌, pos_part, c_int, c_int_of_ℕ}
use autossh_1_4g.Base.Bytes.{Bytes}
use autossh_1_4g.Settings.{LogType, Settings, defaults, log_info, poll_time_default}
use autossh_1_4g.Env.{
  Var, Env, Step, poll_of, set_path, set_log_level, set_poll, set_first_poll, set_gate_time,
  set_max_start, set_message, set_port, limit_polls, set_lifetime, set_session, set_pid_file,
  set_log_file, get_env_args, ◌>>=◌,
}

-- A text that is a number from its first to its last character, with a value that P allows; a
-- variable that is not set is all right.
abbrev pub IsNumber : {A : Type 0} → (A → Type 0) → Option (Var A) → Type 0
IsNumber P none = Unit
IsNumber P (some v) = (v.is_empty ≡ false) × (v.whole ≡ true) × P v.value

abbrev pub Any : {A : Type 0} → A → Type 0
Any a = Unit

abbrev pub IsLevel : ℤ → Type 0
IsLevel n = (pos 0 ≤ℤ n) × (n ≤ℤ pos 7)

-- AUTOSSH_DEBUG stands in front of AUTOSSH_LOGLEVEL, which is then not read.
abbrev pub IsLogLevel : Bool → Option (Var ℤ) → Type 0
IsLogLevel true level = Unit
IsLogLevel false level = IsNumber IsLevel level

abbrev pub IsShort : Option Bytes → Type 0
IsShort none = Unit
IsShort (some m) = length m ≤ 64

abbrev pub IsOpened : Option Bool → Type 0
IsOpened none = Unit
IsOpened (some opened) = opened ≡ true

abbrev pub IsAccepted : Env → Type 0
IsAccepted env =
    IsLogLevel env.debug env.log_level
    × IsNumber (λ n. n ≢ 0) env.poll
    × IsNumber (λ n. n ≢ 0) env.first_poll
    × IsNumber (λ n. pos 0 ≤ℤ n) env.gatetime
    × IsNumber (λ n. negsuc 0 ≤ℤ n) env.maxstart
    × IsShort env.message
    × IsNumber Any env.maxlifetime
    × IsNumber Any env.max_session_var
    × IsOpened env.logfile

-- The value of a variable, or what stands for one that is not set.
abbrev pub value_or : {A B : Type 0} → (A → B) → B → Option (Var A) → B
value_or f old none = old
value_or f old (some v) = f v.value

abbrev pub text_or : Bytes → Option Bytes → Bytes
text_or old none = old
text_or old (some text) = text

-- The empty text counts as no text.
abbrev pub unless_empty : Option Bytes → Option Bytes
unless_empty (some (b ∷ bs)) = some (b ∷ bs)
unless_empty _ = none

abbrev pub level_of : Bool → Option (Var ℤ) → ℤ
level_of true level = pos 7
level_of false level = value_or (λ n. n) log_info level

abbrev pub seconds_of : ℕ → ℕ
seconds_of n = poll_of (c_int_of_ℕ n)

-- No longer than the lifetime, where one is set.
abbrev pub within : ℕ → ℕ → ℕ
within lifetime t = if lifetime == 0 then t else if ltb lifetime t then lifetime else t

abbrev pub kind_of_log : Option Bool → LogType
kind_of_log (some true) = LogType.to_file
kind_of_log _ = LogType.to_syslog

abbrev pub polls : Env → ℕ
polls env = value_or seconds_of poll_time_default env.poll

abbrev pub life : Env → ℕ
life env = value_or (λ n. n) 0 env.maxlifetime

abbrev pub settings_of : Env → Settings
settings_of env = record defaults {
  ssh_path = text_or defaults.ssh_path env.path;
  syslog_perror = env.debug;
  loglevel = level_of env.debug env.log_level;
  poll_time = within (life env) (polls env);
  first_poll_time = within (life env) (value_or seconds_of (polls env) env.first_poll);
  gate_time = value_or pos_part defaults.gate_time env.gatetime;
  max_start = value_or c_int defaults.max_start env.maxstart;
  echo_message = text_or [] env.message;
  env_port = unless_empty env.port;
  max_lifetime = life env;
  pid_start_time = if life env == 0 then 0 else env.now;
  max_session = value_or (λ n. n) 0 env.max_session_var;
  pid_file_name = unless_empty env.pidfile;
  logtype = kind_of_log env.logfile;
}
