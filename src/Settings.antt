-- ===== src/Settings.antt =====
-- The part of src/globals.rs that is set at start-up and read afterwards. The doubles gate_time,
-- max_lifetime and max_session only ever hold whole seconds, since get_env_args converts them from
-- integers; a NULL pointer is `none`.
use autossh_1_4g.Base.{ℕ, Bool, false, Option, none, []}
use autossh_1_4g.Base.Int.{ℤ, pos, negsuc}
use autossh_1_4g.Base.Bytes.{Bytes, codes}

pub data LogType : Type 0 where
  to_file to_syslog : LogType

pub record Settings : Type 0 where
  pub logtype : LogType
  pub loglevel : ℤ
  pub syslog_perror : Bool
  pub writep : Option Bytes
  pub mhost : Bytes
  pub env_port : Option Bytes
  pub echo_message : Bytes
  pub pid_file_name : Option Bytes
  pub pid_start_time : ℕ
  pub poll_time : ℕ
  pub first_poll_time : ℕ
  pub gate_time : ℕ
  pub max_start : ℤ
  pub max_lifetime : ℕ
  pub max_session : ℕ
  pub net_timeout : ℤ
  pub ssh_path : Bytes

-- POLL_TIME_DEFAULT and LOG_INFO
abbrev pub poll_time_default : ℕ
poll_time_default = 600

abbrev pub log_info : ℤ
log_info = pos 6

abbrev pub defaults : Settings
defaults = record {
  logtype = LogType.to_syslog;
  loglevel = log_info;
  syslog_perror = false;
  writep = none;
  mhost = codes "127.0.0.1";
  env_port = none;
  echo_message = [];
  pid_file_name = none;
  pid_start_time = 0;
  poll_time = poll_time_default;
  first_poll_time = poll_time_default;
  gate_time = 30;
  max_start = negsuc 0;
  max_lifetime = 0;
  max_session = 0;
  net_timeout = pos 15000;
  ssh_path = codes "/usr/bin/ssh";
}
