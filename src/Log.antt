-- ===== src/Log.antt =====
-- src/log.rs and src/util.rs, as far as they act on the process: xerrlog logs, tears down and
-- exits. The text of a log line changes nothing that the program reads, and no action of the process
-- records it; Lines says what a line is and where it goes, Usage what usage prints.
pub mod Lines
pub mod Usage
use autossh_1_4g.Base.{Bool, false, true, Option, none, some, ◌&&◌, if◌then◌else◌}
use autossh_1_4g.Base.Bytes.{Bytes}
use autossh_1_4g.Posix.{Call}
use autossh_1_4g.Process.{M, quit, record_call, modify, pure, get, ◌>>=◌, ◌>>◌}
use autossh_1_4g.Kill.{ssh_kill}

abbrev pub is_some : Option Bytes → Bool
is_some none = false
is_some (some x) = true

unfoldable pub unlink_pid_file : M (Unit {0})
unlink_pid_file = do
  s ← get
  if s.pid_file_created && is_some s.pid_file_name
      then record_call Call.unlink_pid_file
      else pure tt
  modify (λ t. record t { pid_file_created = false })

unfoldable pub xerrlog : {A : Type 0} → M A
unfolding unlink_pid_file
xerrlog = do ssh_kill; unlink_pid_file; quit 1
