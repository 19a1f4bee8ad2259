-- ===== src/Session/Child/Roundtrip.antt =====
-- The settings of a session are those with which its supervisor starts.
use autossh_1_4g.Base.{ℕ, ◌≤◌, ◌<◌, ◌≡◌, refl, ap, ◌∙◌, Bool, false, Option, none, some}
use autossh_1_4g.Base.Int.{pos, pos_part, neg_part}
use autossh_1_4g.Base.Bytes.{Bytes, codes}
use autossh_1_4g.Settings.{Settings, defaults, poll_time_default}
use autossh_1_4g.Env.{
  Env, set_path, set_log_level, set_message, set_port, set_lifetime, set_pid_file, set_log_file,
  get_env_args,
}
use autossh_1_4g.Env.Read.{Numbers, read_env}
use autossh_1_4g.Session.Config.{SessionConfig}
use autossh_1_4g.Session.Child.{Float, Environment, child_env, or_else}
use autossh_1_4g.Session.Child.Settings.{
  ReadsDecimals, IsClean, Seconds, positive_or, starts_or_unlimited, path_or, poll_var, seconds_var,
  session_var, start_var, poll_lookup, start_lookup, gate_lookup, session_lookup, set_poll-var,
  set_first_poll-var, set_gate_time-var, set_max_start-var, set_session-var,
}

-- The numbers of the configuration are C integers, max_start is at least -1, and the two doubles hold
-- the whole numbers `gate` and `silent`, or are not set.
abbrev pub IsWhole : {D : Type 0} → Float D → SessionConfig D → ℕ → ℕ → Type 0
IsWhole dbl c gate silent =
    (pos_part c.poll_time < 2147483648)
    × (pos_part c.first_poll_time < 2147483648)
    × (pos_part c.max_start < 2147483648)
    × (neg_part c.max_start ≤ 1)
    × Seconds (dbl.at_least_zero c.gate_time) (dbl.show c.gate_time) 30 gate
    × Seconds (dbl.above_zero c.max_session) (dbl.show c.max_session) 0 silent

-- What the supervisor starts with.
abbrev pub configured : {D : Type 0} → SessionConfig D → ℕ → ℕ → Settings
configured c gate silent = record defaults {
  ssh_path = path_or defaults.ssh_path c.ssh_path;
  poll_time = positive_or poll_time_default c.poll_time;
  first_poll_time = positive_or (positive_or poll_time_default c.poll_time) c.first_poll_time;
  gate_time = gate;
  max_start = starts_or_unlimited c.max_start;
  max_session = silent;
}

-- The environment that the supervisor reads.
abbrev written : {D : Type 0} → SessionConfig D → Bool → Bool → ℕ → ℕ → ℕ → Env
written c gate_set silent_set gate silent now = record {
  path = c.ssh_path;
  debug = false;
  log_level = none;
  poll = poll_var c.poll_time;
  first_poll = poll_var c.first_poll_time;
  gatetime = seconds_var gate_set (pos gate);
  maxstart = start_var c.max_start;
  message = none;
  port = none;
  maxlifetime = none;
  max_session_var = session_var silent_set silent;
  pidfile = none;
  logfile = none;
  now = now;
}

set_path-path_or :
    (p : Option Bytes) (s : Settings)
    → set_path p s ≡ some (record s { ssh_path = path_or s.ssh_path p })
unfolding set_path
set_path-path_or none s = refl
set_path-path_or (some p) s = refl

or_else-none : (p : Option Bytes) → or_else p none ≡ p
or_else-none none = refl
or_else-none (some p) = refl

module _ {D : Type 0} (dbl : Float D) (c : SessionConfig D) (gate silent : ℕ)
    (whole : IsWhole dbl c gate silent) where
  get_env_args-written :
      (now : ℕ)
      → get_env_args
          (written c (dbl.at_least_zero c.gate_time) (dbl.above_zero c.max_session) gate silent now)
          defaults
        ≡ some (configured c gate silent)
  unfolding get_env_args set_path set_log_level set_message set_port set_lifetime set_pid_file
      set_log_file
  get_env_args-written now =
      rw
        (
          set_path-path_or c.ssh_path defaults,
          set_poll-var c.poll_time with_path whole.0,
          set_first_poll-var c.first_poll_time with_poll whole.1,
          set_gate_time-var (dbl.at_least_zero c.gate_time) (dbl.show c.gate_time) gate with_first
              whole.4,
          set_max_start-var c.max_start with_gate refl whole.2 whole.3,
          set_session-var (dbl.above_zero c.max_session) (dbl.show c.max_session) silent with_start
              whole.5,
        )
        refl
    where
      with_path : Settings
      with_path = record defaults { ssh_path = path_or defaults.ssh_path c.ssh_path }

      with_poll : Settings
      with_poll = record with_path { poll_time = positive_or poll_time_default c.poll_time }

      with_first : Settings
      with_first = record with_poll {
        first_poll_time = positive_or with_poll.poll_time c.first_poll_time;
      }

      with_gate : Settings
      with_gate = record with_first { gate_time = gate }

      with_start : Settings
      with_start = record with_gate { max_start = starts_or_unlimited c.max_start }

  module _ (num : Numbers) (reads : ReadsDecimals num) (env : Environment)
      (clean : IsClean env) where
    read_env-child_env :
        (fopen : Bytes → Bool) (now : ℕ)
        → read_env num (record { getenv = child_env dbl c env; fopen = fopen; now = now })
          ≡ written c (dbl.at_least_zero c.gate_time) (dbl.above_zero c.max_session) gate silent now
    unfolding read_env child_env
    read_env-child_env fopen now =
        rw
          (
            clean (codes "PATH"),
            clean (codes "DEBUG"),
            clean (codes "LOGLEVEL"),
            clean (codes "POLL"),
            clean (codes "FIRST_POLL"),
            clean (codes "GATETIME"),
            clean (codes "MAXSTART"),
            clean (codes "MESSAGE"),
            clean (codes "PORT"),
            clean (codes "MAXLIFETIME"),
            clean (codes "MAX_SESSION"),
            clean (codes "PIDFILE"),
            clean (codes "LOGFILE"),
            or_else-none c.ssh_path,
            poll_lookup num reads c.poll_time whole.0,
            poll_lookup num reads c.first_poll_time whole.1,
            gate_lookup num reads (dbl.at_least_zero c.gate_time) (dbl.show c.gate_time) 30 gate
                whole.4,
            start_lookup num reads c.max_start whole.2 whole.3,
            session_lookup num reads (dbl.above_zero c.max_session) (dbl.show c.max_session) 0
                silent whole.5,
          )
          refl

    -- What autossh_session_start hands to its supervisor through the environment, get_env_args reads
    -- back, and accepts: in an environment without AUTOSSH_ variables, the supervisor of a session runs
    -- with the poll times, the gate time, the number of starts, the session limit and the path of the
    -- configuration, and with the defaults where these are not set: a poll time or a session limit that
    -- is not positive, a negative gate time (one of 0 is passed on as 0), and a number of starts of 0. The
    -- two doubles are whole numbers of seconds, max_start is at least -1, and strtol and strtoul read
    -- decimal numbers.
    pub get_env_args-child_env :
        (fopen : Bytes → Bool) (now : ℕ)
        → get_env_args
            (read_env num (record { getenv = child_env dbl c env; fopen = fopen; now = now }))
            defaults
          ≡ some (configured c gate silent)
    get_env_args-child_env fopen now =
        ap (λ e. get_env_args e defaults) (read_env-child_env fopen now) ∙ get_env_args-written now
