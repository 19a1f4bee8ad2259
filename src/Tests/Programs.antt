-- ===== src/Tests/Programs.antt =====
-- The program as a whole, its log, and the hooks of the preloaded library at concrete inputs.
use autossh_1_4g.Base.{
  ℕ, ◌+◌, ◌≡◌, refl, true, false, Option, none, some, List, [], if◌then◌else◌, ◌∷◌, ◌++◌, length,
  arith,
}
use autossh_1_4g.Base.Int.{pos}
use autossh_1_4g.Base.Bytes.{Bytes, bytes_eq, codes, decimal}
use autossh_1_4g.Settings.{LogType, defaults, log_info}
use autossh_1_4g.Process.{initial}
use autossh_1_4g.Env.{Env, get_env_args}
use autossh_1_4g.Env.Accepts.{IsAccepted, settings_of}
use autossh_1_4g.Env.Accepts.Steps.{Decides}
use autossh_1_4g.Env.Accepts.Decides.{get_env_args-Decides}
use autossh_1_4g.Log.Lines.{Logger, to_stderr, log_with, xlog_with}
use autossh_1_4g.Log.Lines.Reaches.{Logs, LogsAnyway, log_with-xlog_with}
use autossh_1_4g.Log.Usage.{usage}
use autossh_1_4g.Env.Read.{Host}
use autossh_1_4g.Main.{Letter}
use autossh_1_4g.Main.Program.{Scanned, arguments, main}
use autossh_1_4g.Tests.Embedding.{decimals}
use autossh_1_4g.Main.PidFile.Removed.{Ended, main-Ended}
use autossh_1_4g.Detector.Hooks.{
  connect_t, getaddrinfo_t, recv_t, Activity, over, call_of, fresh_library, run,
}
use autossh_1_4g.Detector.Hooks.Once.{Served, run-Served}
use autossh_1_4g.Tests.Examples.{quiet_os, whole}
use autossh_1_4g.Tests.Launching.{all_well}

-- AUTOSSH_PIDFILE=/run/autossh AUTOSSH_MAXSTART=1 autossh -M 0 host
abbrev pid_file_env : Bytes → Option Bytes
pid_file_env name =
    if bytes_eq name (codes "AUTOSSH_PIDFILE")
    then some (codes "/run/autossh")
    else if bytes_eq name (codes "AUTOSSH_MAXSTART")
    then some (codes "1")
    else none

abbrev pid_file_host : Host
pid_file_host = record { getenv = pid_file_env; fopen = λ p. true; now = 1000 }

abbrev unmonitored : List Bytes → Scanned
unmonitored argv = record {
  letters = Letter.port_option (codes "0") ∷ [];
  args = codes "-M" ∷ codes "0" ∷ codes "host" ∷ [];
  no_args = false;
}

abbrev started_with : List Bytes
started_with = codes "autossh" ∷ codes "-M" ∷ codes "0" ∷ codes "host" ∷ []

main-Ended_example : Ended (
    main whole 3 3 decimals pid_file_host unmonitored all_well started_with quiet_os
      (initial defaults))
main-Ended_example =
    main-Ended whole 3 3 decimals pid_file_host unmonitored all_well quiet_os started_with

arguments_nul : arguments (codes "autossh" ∷ (1 ∷ 0 ∷ []) ∷ []) ≡ none
unfolding arguments
arguments_nul = refl

abbrev file_logger : Logger
file_logger = record {
  logtype = LogType.to_file;
  loglevel = log_info;
  has_flog = false;
  progname = none;
  pid = 77;
  local_time = some (codes "2024/01/01 00:00:00");
}

log_with-xlog_with_example :
    Logs file_logger (pos 3) (1 ∷ 0 ∷ []) (log_with file_logger (pos 3) (1 ∷ 0 ∷ []))
    × LogsAnyway file_logger (pos 3) (1 ∷ 0 ∷ []) (xlog_with file_logger (pos 3) (1 ∷ 0 ∷ []))
log_with-xlog_with_example = log_with-xlog_with file_logger (pos 3) (1 ∷ 0 ∷ [])

log_line-stderr :
    log_with file_logger (pos 6) (codes "connection ok")
    ≡ (to_stderr, codes "2024/01/01 00:00:00 autossh[77]: connection ok" ++ 10 ∷ []) ∷ []
unfolding log_with decimal
log_line-stderr = refl

-- A message above the level of the log goes nowhere.
log_with-debug : log_with file_logger (pos 7) (codes "connection ok") ≡ []
unfolding log_with
log_with-debug = refl

usage-short :
    (usage (λ t. t) none 0).text
    ≡ codes "usage: autossh [-V] [-M monitor_port[:echo_port]] [-f] [SSH_OPTIONS]" ++ 10 ∷ []
unfolding usage
usage-short = refl

-- AUTOSSH_GATETIME=x, with nothing else set.
abbrev bad_env : Env
bad_env = record {
  path = none;
  debug = false;
  log_level = none;
  poll = none;
  first_poll = none;
  gatetime = some (record { is_empty = false; value = pos 0; whole = false });
  maxstart = none;
  message = none;
  port = some [];
  maxlifetime = none;
  max_session_var = none;
  pidfile = none;
  logfile = none;
  now = 1000;
}

get_env_args-Decides_example :
    Decides (IsAccepted bad_env) (settings_of bad_env) (get_env_args bad_env defaults)
get_env_args-Decides_example = get_env_args-Decides bad_env

get_env_args-refused : get_env_args bad_env defaults ≡ none
unfolding get_env_args
get_env_args-refused = refl

-- getaddrinfo, which connects to a name server, and then recv.
abbrev resolving : Activity
resolving = call_of getaddrinfo_t 5 (call_of connect_t 6 over over) (call_of recv_t 9 over over)

abbrev libc : Bytes → Option ℕ
libc name = some (1000 + length name)

run-Served_example : Served libc none resolving (run libc none resolving fresh_library)
run-Served_example =
    run-Served libc none resolving (omega arith, (omega arith, tt, tt), (omega arith, tt, tt))
