-- ===== src/Env/Accepts/Decides.antt =====
-- get_env_args accepts just the environments that are described in Accepts, and makes of them just the
-- settings that are described there.
use autossh_1_4g.Base.{
  ◌≡◌, ◌≢◌, refl, sym, subst, ap₂, ◌∙◌, Bool, true, false, Option, none, some, arith, if◌then◌else◌,
}
use autossh_1_4g.Base.Int.{ℤ, pos, negsuc, ◌≤ℤ◌}
use autossh_1_4g.Settings.{Settings, defaults, log_info}
use autossh_1_4g.Env.{
  Var, Env, Step, set_path, set_log_level, set_poll, set_first_poll, set_gate_time, set_max_start,
  set_message, set_port, set_lifetime, set_session, set_pid_file, set_log_file, get_env_args, ◌>>=◌,
}
use autossh_1_4g.Env.Accepts.{
  IsNumber, Any, IsLogLevel, IsShort, IsOpened, IsAccepted, value_or, level_of, settings_of,
}
use autossh_1_4g.Env.Accepts.Steps.{
  Decides, set_path-Decides, set_port-Decides, set_pid_file-Decides, set_log_level-Decides,
  set_poll-Decides, set_first_poll-Decides, set_gate_time-Decides, set_max_start-Decides,
  set_message-Decides, set_lifetime-Decides, set_session-Decides, set_log_file-Decides,
}

then-Decides :
    (P Q : Type 0) (t u : Settings) (o : Option Settings) (f : Step)
    → Decides P t o
    → Decides Q u (f t)
    → Decides (P × Q) u (o >>= f)
then-Decides P Q t u none f h k = λ both. h both.0
then-Decides P Q t u (some s) f h k = subst (λ x. Decides (P × Q) u (f x)) (sym h.1) (both (f t) k)
  where
    both : (o : Option Settings) → Decides Q u o → Decides (P × Q) u o
    both none k = λ b. k b.1
    both (some s') k = ((h.0, k.0), k.1)

Decides-same :
    (P Q : Type 0) (t u : Settings) (o : Option Settings)
    → (P → Q)
    → (Q → P)
    → t ≡ u
    → Decides P t o
    → Decides Q u o
Decides-same P Q t u none f g e h = λ q. h (g q)
Decides-same P Q t u (some s) f g e h = (f h.0, h.1 ∙ e)

debugs : (debug : Bool) → (if debug then true else false) ≡ debug
debugs true = refl
debugs false = refl

levels :
    (debug : Bool) (v : Option (Var ℤ))
    → (if debug then pos 7 else value_or (λ n. n) log_info v) ≡ level_of debug v
levels true v = refl
levels false v = refl

-- get_env_args on the default settings refuses an environment exactly if it is not as described:
-- where each number is a text that is a number to its end, the log level lies from 0 to 7 and is not
-- read under AUTOSSH_DEBUG, no poll time is 0, the gate time is not negative and the number of
-- starts not below -1, the message has 64 bytes at most, and the log file can be opened. Otherwise it
-- gives just the settings that are described, with the default for each variable that is not set: a
-- poll time that is not positive as a c_int is 600, the first one is the poll time unless it is set,
-- neither is longer than a lifetime other than 0, and an empty port or pid file is none.
pub get_env_args-Decides :
    (env : Env) → Decides (IsAccepted env) (settings_of env) (get_env_args env defaults)
unfolding get_env_args
get_env_args-Decides env =
    Decides-same _ (IsAccepted env) _ (settings_of env) (get_env_args env defaults)
      (λ h. ground arith) (λ h. ground arith)
      (ap₂
        (λ debugging level. record (settings_of env) {
          syslog_perror = debugging;
          loglevel = level;
        })
        (debugs env.debug) (levels env.debug env.log_level))
      (then-Decides _ (IsOpened env.logfile) _ _ _ (set_log_file env.logfile)
        (then-Decides _ Unit _ _ _ (set_pid_file env.pidfile)
          (then-Decides _ (IsNumber Any env.max_session_var) _ _ _ (set_session env.max_session_var)
            (then-Decides _ (IsNumber Any env.maxlifetime) _ _ _
              (set_lifetime env.now env.maxlifetime)
              (then-Decides _ Unit _ _ _ (set_port env.port)
                (then-Decides _ (IsShort env.message) _ _ _ (set_message env.message)
                  (then-Decides _ (IsNumber (λ n. negsuc 0 ≤ℤ n) env.maxstart) _ _ _
                    (set_max_start env.maxstart)
                    (then-Decides _ (IsNumber (λ n. pos 0 ≤ℤ n) env.gatetime) _ _ _
                      (set_gate_time env.gatetime)
                      (then-Decides _ (IsNumber (λ n. n ≢ 0) env.first_poll) _ _ _
                        (set_first_poll env.first_poll)
                        (then-Decides _ (IsNumber (λ n. n ≢ 0) env.poll) _ _ _ (set_poll env.poll)
                          (then-Decides Unit (IsLogLevel env.debug env.log_level) _ _
                            (set_path env.path defaults) (set_log_level env.debug env.log_level)
                            (set_path-Decides env.path defaults)
                            (set_log_level-Decides env.debug env.log_level _))
                          (set_poll-Decides env.poll _))
                        (set_first_poll-Decides env.first_poll _))
                      (set_gate_time-Decides env.gatetime _))
                    (set_max_start-Decides env.maxstart _))
                  (set_message-Decides env.message _ refl))
                (set_port-Decides env.port _ refl))
              (set_lifetime-Decides env.now env.maxlifetime _ refl refl))
            (set_session-Decides env.max_session_var _))
          (set_pid_file-Decides env.pidfile _ refl))
        (set_log_file-Decides env.logfile _ refl))
