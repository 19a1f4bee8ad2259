-- ===== src/Env/Timeout.antt =====
-- No variable of the environment changes the timeout of the connection tests.
use autossh_1_4g.Base.{ℕ, ◌≡◌, refl, Bool, Option, arith}
use autossh_1_4g.Base.Int.{ℤ, pos}
use autossh_1_4g.Base.Bytes.{Bytes}
use autossh_1_4g.Settings.{Settings, defaults}
use autossh_1_4g.Env.{
  Var, Env, Step, set_path, set_log_level, set_poll, set_first_poll, set_gate_time, set_max_start,
  set_message, set_port, set_lifetime, set_session, set_pid_file, set_log_file, get_env_args,
}
use autossh_1_4g.Env.Sanity.{Holds, then-Holds}

abbrev pub Untouched : Settings → Type 0
Untouched s = s.net_timeout ≡ pos 15000

abbrev Keeps : Step → Type 0
Keeps f = (s : Settings) → Untouched s → Holds Untouched (f s)

set_path-Keeps : (v : Option Bytes) → Keeps (set_path v)
unfolding set_path
set_path-Keeps v s h = ground arith

set_log_level-Keeps : (v : Bool) (w : Option (Var ℤ)) → Keeps (set_log_level v w)
unfolding set_log_level
set_log_level-Keeps v w s h = ground arith

set_poll-Keeps : (v : Option (Var ℕ)) → Keeps (set_poll v)
unfolding set_poll
set_poll-Keeps v s h = ground arith

set_first_poll-Keeps : (v : Option (Var ℕ)) → Keeps (set_first_poll v)
unfolding set_first_poll
set_first_poll-Keeps v s h = ground arith

set_gate_time-Keeps : (v : Option (Var ℤ)) → Keeps (set_gate_time v)
unfolding set_gate_time
set_gate_time-Keeps v s h = ground arith

set_max_start-Keeps : (v : Option (Var ℤ)) → Keeps (set_max_start v)
unfolding set_max_start
set_max_start-Keeps v s h = ground arith

set_message-Keeps : (v : Option Bytes) → Keeps (set_message v)
unfolding set_message
set_message-Keeps v s h = ground arith

set_lifetime-Keeps : (v : ℕ) (w : Option (Var ℕ)) → Keeps (set_lifetime v w)
unfolding set_lifetime
set_lifetime-Keeps v w s h = ground arith

set_session-Keeps : (v : Option (Var ℕ)) → Keeps (set_session v)
unfolding set_session
set_session-Keeps v s h = ground arith

set_log_file-Keeps : (v : Option Bool) → Keeps (set_log_file v)
unfolding set_log_file
set_log_file-Keeps v s h = ground arith

pub get_env_args-Untouched : (env : Env) → Holds Untouched (get_env_args env defaults)
unfolding get_env_args set_port set_pid_file
get_env_args-Untouched env =
    then-Holds Untouched Untouched _ (set_log_file env.logfile)
      ((then-Holds Untouched Untouched _ (set_pid_file env.pidfile)
        ((then-Holds Untouched Untouched _ (set_session env.max_session_var)
          ((then-Holds Untouched Untouched _ (set_lifetime env.now env.maxlifetime)
            ((then-Holds Untouched Untouched _ (set_port env.port)
              ((then-Holds Untouched Untouched _ (set_message env.message)
                ((then-Holds Untouched Untouched _ (set_max_start env.maxstart)
                  ((then-Holds Untouched Untouched _ (set_gate_time env.gatetime)
                    ((then-Holds Untouched Untouched _ (set_first_poll env.first_poll)
                      ((then-Holds Untouched Untouched _ (set_poll env.poll)
                        ((then-Holds Untouched Untouched _ (set_log_level env.debug env.log_level)
                          (set_path-Keeps env.path defaults refl)
                          (set_log_level-Keeps env.debug env.log_level)))
                        (set_poll-Keeps env.poll)))
                      (set_first_poll-Keeps env.first_poll)))
                    (set_gate_time-Keeps env.gatetime)))
                  (set_max_start-Keeps env.maxstart)))
                (set_message-Keeps env.message)))
              (λ s h. h)))
            (set_lifetime-Keeps env.now env.maxlifetime)))
          (set_session-Keeps env.max_session_var)))
        (λ s h. h)))
      (set_log_file-Keeps env.logfile)
