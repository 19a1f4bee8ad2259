-- ===== src/Env/Accepts/Steps.antt =====
-- The steps of get_env_args, one for each variable, decide as Accepts describes.
use autossh_1_4g.Base.{
  ℕ, ◌≡◌, ◌≢◌, refl, Bool, true, false, Option, none, some, [], ◌∷◌, ◌==◌, arith, if◌then◌else◌,
}
use autossh_1_4g.Base.Int.{ℤ, pos, negsuc, ◌≤ℤ◌, pos_part, c_int}
use autossh_1_4g.Base.Bytes.{Bytes}
use autossh_1_4g.Settings.{LogType, Settings}
use autossh_1_4g.Env.{
  Var, set_path, set_log_level, set_poll, set_first_poll, set_gate_time, set_max_start, set_message,
  set_port, set_lifetime, set_session, set_pid_file, set_log_file,
}
use autossh_1_4g.Env.Accepts.{
  IsNumber, Any, IsLogLevel, IsShort, IsOpened, value_or, text_or, unless_empty, seconds_of, within,
  kind_of_log,
}

-- Refused exactly where P fails; where it is accepted, the settings are t.
abbrev pub Decides : Type 0 → Settings → Option Settings → Type 0
Decides P t none = ¬ P
Decides P t (some s) = P × (s ≡ t)

pub set_path-Decides :
    (p : Option Bytes) (s : Settings)
    → Decides Unit (record s { ssh_path = text_or s.ssh_path p }) (set_path p s)
unfolding set_path
set_path-Decides none s = (tt, refl)
set_path-Decides (some p) s = (tt, refl)

pub set_port-Decides :
    (p : Option Bytes) (s : Settings)
    → s.env_port ≡ none
    → Decides Unit (record s { env_port = unless_empty p }) (set_port p s)
unfolding set_port
set_port-Decides none s e = ground arith
set_port-Decides (some []) s e = ground arith
set_port-Decides (some (b ∷ bs)) s e = (tt, refl)

pub set_pid_file-Decides :
    (p : Option Bytes) (s : Settings)
    → s.pid_file_name ≡ none
    → Decides Unit (record s { pid_file_name = unless_empty p }) (set_pid_file p s)
unfolding set_pid_file
set_pid_file-Decides none s e = ground arith
set_pid_file-Decides (some []) s e = ground arith
set_pid_file-Decides (some (b ∷ bs)) s e = (tt, refl)

pub set_log_level-Decides :
    (debug : Bool) (v : Option (Var ℤ)) (s : Settings)
    → Decides
        (IsLogLevel debug v)
        (record s {
          syslog_perror = if debug then true else s.syslog_perror;
          loglevel = if debug then pos 7 else value_or (λ n. n) s.loglevel v;
        })
        (set_log_level debug v s)
unfolding set_log_level
set_log_level-Decides true v s = (tt, refl)
set_log_level-Decides false none s = (tt, refl)
set_log_level-Decides false (some v) s = ground arith

pub set_poll-Decides :
    (v : Option (Var ℕ)) (s : Settings)
    → Decides
        (IsNumber (λ n. n ≢ 0) v)
        (record s { poll_time = value_or seconds_of s.poll_time v })
        (set_poll v s)
unfolding set_poll
set_poll-Decides none s = (tt, refl)
set_poll-Decides (some v) s = ground arith

pub set_first_poll-Decides :
    (v : Option (Var ℕ)) (s : Settings)
    → Decides
        (IsNumber (λ n. n ≢ 0) v)
        (record s { first_poll_time = value_or seconds_of s.poll_time v })
        (set_first_poll v s)
unfolding set_first_poll
set_first_poll-Decides none s = (tt, refl)
set_first_poll-Decides (some v) s = ground arith

pub set_gate_time-Decides :
    (v : Option (Var ℤ)) (s : Settings)
    → Decides
        (IsNumber (λ n. pos 0 ≤ℤ n) v)
        (record s { gate_time = value_or pos_part s.gate_time v })
        (set_gate_time v s)
unfolding set_gate_time
set_gate_time-Decides none s = (tt, refl)
set_gate_time-Decides (some v) s = ground arith

pub set_max_start-Decides :
    (v : Option (Var ℤ)) (s : Settings)
    → Decides
        (IsNumber (λ n. negsuc 0 ≤ℤ n) v)
        (record s { max_start = value_or c_int s.max_start v })
        (set_max_start v s)
unfolding set_max_start
set_max_start-Decides none s = (tt, refl)
set_max_start-Decides (some v) s = ground arith

-- There is no message yet.
pub set_message-Decides :
    (m : Option Bytes) (s : Settings)
    → s.echo_message ≡ []
    → Decides (IsShort m) (record s { echo_message = text_or [] m }) (set_message m s)
unfolding set_message
set_message-Decides none s e = ground arith
set_message-Decides (some []) s e = ground arith
set_message-Decides (some (b ∷ bs)) s e = ground arith

pub set_lifetime-Decides :
    (now : ℕ) (v : Option (Var ℕ)) (s : Settings)
    → s.max_lifetime ≡ 0
    → s.pid_start_time ≡ 0
    → let life = value_or (λ n. n) 0 v in
      Decides
        (IsNumber Any v)
        (record s {
          max_lifetime = life;
          poll_time = within life s.poll_time;
          first_poll_time = within life s.first_poll_time;
          pid_start_time = if life == 0 then 0 else now;
        })
        (set_lifetime now v s)
unfolding set_lifetime
set_lifetime-Decides now none s e e' = ground arith
set_lifetime-Decides now (some v) s e e' = ground arith

pub set_session-Decides :
    (v : Option (Var ℕ)) (s : Settings)
    → Decides
        (IsNumber Any v)
        (record s { max_session = value_or (λ n. n) s.max_session v })
        (set_session v s)
unfolding set_session
set_session-Decides none s = (tt, refl)
set_session-Decides (some v) s = ground arith

pub set_log_file-Decides :
    (v : Option Bool) (s : Settings)
    → s.logtype ≡ LogType.to_syslog
    → Decides (IsOpened v) (record s { logtype = kind_of_log v }) (set_log_file v s)
unfolding set_log_file
set_log_file-Decides none s e = ground arith
set_log_file-Decides (some true) s e = ground arith
set_log_file-Decides (some false) s e = ground arith
