-- ===== src/Env/Sanity.antt =====
-- The settings that get_env_args lets through.
use autossh_1_4g.Base.{ℕ, ◌≤◌, ◌<◌, ◌≡◌, ◌⊎◌, Bool, Option, none, some, length, arith}
use autossh_1_4g.Base.Int.{ℤ, c_int_of_ℕ}
use autossh_1_4g.Base.Bytes.{Bytes}
use autossh_1_4g.Settings.{Settings, defaults}
use autossh_1_4g.Env.{
  Var, Env, Step, poll_of, set_path, set_log_level, set_poll, set_first_poll, set_gate_time,
  set_max_start, set_message, set_port, set_lifetime, set_session, set_pid_file, set_log_file,
  get_env_args, ◌>>=◌,
}

-- Poll times from 1 to 2 ^ 31 - 1, a message of at most 64 bytes, and no poll time longer than a
-- lifetime that is set.
abbrev pub IsSane : Settings → Type 0
IsSane s =
    (0 < s.poll_time)
    × (s.poll_time < 2147483648)
    × (0 < s.first_poll_time)
    × (s.first_poll_time < 2147483648)
    × (length s.echo_message ≤ 64)
    × ((s.max_lifetime ≡ 0)
        ⊎ ((s.poll_time ≤ s.max_lifetime) × (s.first_poll_time ≤ s.max_lifetime)))

-- The same before the lifetime is read.
abbrev Early : Settings → Type 0
Early s = IsSane s × (s.max_lifetime ≡ 0)

abbrev pub Holds : (Settings → Type 0) → Option Settings → Type 0
Holds P none = Unit
Holds P (some s) = P s

module _ (P Q : Settings → Type 0) where
  pub then-Holds :
      (o : Option Settings) (f : Step)
      → Holds P o
      → ((s : Settings) → P s → Holds Q (f s))
      → Holds Q (o >>= f)
  then-Holds none f h k = tt
  then-Holds (some s) f h k = k s h

poll_of-range : (n : ℕ) → (0 < poll_of (c_int_of_ℕ n)) × (poll_of (c_int_of_ℕ n) < 2147483648)
poll_of-range n = ground arith

set_path-Early : (v : Option Bytes) (s : Settings) → Early s → Holds Early (set_path v s)
unfolding set_path
set_path-Early v s h = ground arith

set_log_level-Early :
    (d : Bool) (v : Option (Var ℤ)) (s : Settings) → Early s → Holds Early (set_log_level d v s)
unfolding set_log_level
set_log_level-Early d v s h = ground arith

set_poll-Early : (v : Option (Var ℕ)) (s : Settings) → Early s → Holds Early (set_poll v s)
unfolding set_poll
set_poll-Early none s h = h
set_poll-Early (some v) s h = ground (arith, poll_of-range v.value)

set_first_poll-Early :
    (v : Option (Var ℕ)) (s : Settings) → Early s → Holds Early (set_first_poll v s)
unfolding set_first_poll
set_first_poll-Early none s h = ground arith
set_first_poll-Early (some v) s h = ground (arith, poll_of-range v.value)

set_gate_time-Early :
    (v : Option (Var ℤ)) (s : Settings) → Early s → Holds Early (set_gate_time v s)
unfolding set_gate_time
set_gate_time-Early v s h = ground arith

set_max_start-Early :
    (v : Option (Var ℤ)) (s : Settings) → Early s → Holds Early (set_max_start v s)
unfolding set_max_start
set_max_start-Early v s h = ground arith

set_message-Early : (v : Option Bytes) (s : Settings) → Early s → Holds Early (set_message v s)
unfolding set_message
set_message-Early none s h = h
set_message-Early (some m) s h = ground arith

set_lifetime-IsSane :
    (now : ℕ) (v : Option (Var ℕ)) (s : Settings) → Early s → Holds IsSane (set_lifetime now v s)
unfolding set_lifetime
set_lifetime-IsSane now none s h = h.0
set_lifetime-IsSane now (some v) s h = ground arith

set_session-IsSane : (v : Option (Var ℕ)) (s : Settings) → IsSane s → Holds IsSane (set_session v s)
unfolding set_session
set_session-IsSane v s h = ground arith

set_log_file-IsSane : (v : Option Bool) (s : Settings) → IsSane s → Holds IsSane (set_log_file v s)
unfolding set_log_file
set_log_file-IsSane v s h = ground arith

abbrev before_lifetime : Env → Settings → Option Settings
before_lifetime env s =
    set_path env.path s
    >>= set_log_level env.debug env.log_level
    >>= set_poll env.poll
    >>= set_first_poll env.first_poll
    >>= set_gate_time env.gatetime
    >>= set_max_start env.maxstart
    >>= set_message env.message
    >>= set_port env.port

before_lifetime-Early : (env : Env) (s : Settings) → Early s → Holds Early (before_lifetime env s)
unfolding set_port
before_lifetime-Early env s h =
    then-Holds Early Early _ (set_port env.port)
      (then-Holds Early Early _ (set_message env.message)
        (then-Holds Early Early _ (set_max_start env.maxstart)
          (then-Holds Early Early _ (set_gate_time env.gatetime)
            (then-Holds Early Early _ (set_first_poll env.first_poll)
              (then-Holds Early Early _ (set_poll env.poll)
                (then-Holds Early Early (set_path env.path s)
                  (set_log_level env.debug env.log_level) (set_path-Early env.path s h)
                  (set_log_level-Early env.debug env.log_level))
                (set_poll-Early env.poll))
              (set_first_poll-Early env.first_poll))
            (set_gate_time-Early env.gatetime))
          (set_max_start-Early env.maxstart))
        (set_message-Early env.message))
      (λ t k. k)

-- Whatever the environment holds, get_env_args on the default settings either refuses it, or gives
-- poll times of 1 to 2 ^ 31 - 1 seconds, no longer than the lifetime if one is set, and a message
-- of at most 64 bytes.
pub get_env_args-IsSane : (env : Env) → Holds IsSane (get_env_args env defaults)
unfolding get_env_args set_pid_file
get_env_args-IsSane env =
    then-Holds IsSane IsSane _ (set_log_file env.logfile)
      (then-Holds IsSane IsSane _ (set_pid_file env.pidfile)
        (then-Holds IsSane IsSane _ (set_session env.max_session_var)
          (then-Holds Early IsSane (before_lifetime env defaults)
            (set_lifetime env.now env.maxlifetime)
            (before_lifetime-Early env defaults (ground arith))
            (set_lifetime-IsSane env.now env.maxlifetime))
          (set_session-IsSane env.max_session_var))
        (λ t k. k))
      (set_log_file-IsSane env.logfile)
