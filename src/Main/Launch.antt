-- ===== src/Main/Launch.antt =====
-- src/main_logic.rs: autossh_main from the command line on: the daemon, the listening socket, the pid
-- file, ssh_run, and the exit code.
use autossh_1_4g.Base.{ℕ, Bool, true, false, Option, none, some, ◌==◌, if◌then◌else◌}
use autossh_1_4g.Base.Int.{ℤ, pos, negsuc}
use autossh_1_4g.Base.Bytes.{Bytes}
use autossh_1_4g.Posix.{Call}
use autossh_1_4g.Process.{M, pure, modify, quit, record_call, ◌>>=◌, ◌>>◌}
use autossh_1_4g.Grace.{Doubles}
use autossh_1_4g.Wait.{Policy, p_exiterr}
use autossh_1_4g.Conn.Listen.{Answers, required, conn_listen}
use autossh_1_4g.Run.{ssh_run}
use autossh_1_4g.Main.{Setup, go, leave, Prepared}

-- What daemon, the socket calls, fopen of the pid file, and fprintf answer.
pub record Startup : Type 0 where
  pub daemonizes : Bool
  pub sockets : Answers
  pub pid_file_opens : Bool
  pub pid_file_written : ℤ

unfoldable pub become_daemon : Startup → Bool → M (Unit {0})
become_daemon a false = pure tt
become_daemon a true = do
  required a.daemonizes
  modify (λ s. record s { settings = record (s.settings) { gate_time = 0 } })

-- -1 without monitoring, NO_RD_SOCK with an echo port.
unfoldable pub open_socket : Startup → Bool → Option Bytes → M ℤ
unfolding conn_listen
open_socket a echoes none = pure (negsuc 0)
open_socket a true (some port) = pure (negsuc 1)
open_socket a false (some port) = do sock ← conn_listen a.sockets; pure (pos sock)

abbrev pub is_zero : ℤ → Bool
is_zero (pos n) = n == 0
is_zero _ = false

-- fprintf's result is compared with 0 only.
unfoldable pub write_pid_file : Startup → Option Bytes → M (Unit {0})
write_pid_file a none = pure tt
write_pid_file a (some name) = do
  required a.pid_file_opens
  record_call Call.create_pid_file
  modify (λ s. record s { pid_file_created = true })
  required (if is_zero a.pid_file_written then false else true)

-- shutdown and close of the listening socket
abbrev pub close_socket : ℤ → M (Unit {0})
close_socket (pos fd) = record_call (Call.close fd)
close_socket _ = pure tt

abbrev pub exit_code : Policy → ℕ
exit_code p_exiterr = 1
exit_code _ = 0

module _ (fl : Doubles) (fuel watch_fuel : ℕ) where
  unfoldable pub run_prepared : Startup → Prepared → M ℕ
  unfolding become_daemon open_socket write_pid_file ssh_run
  run_prepared a p = do
    modify (λ s. record s { settings = p.settings })
    become_daemon a p.runasdaemon
    sock ← open_socket a p.echoes p.settings.writep
    write_pid_file a p.settings.pid_file_name
    retval ← ssh_run fl fuel watch_fuel sock
    close_socket sock
    pure (exit_code retval)

  unfoldable pub autossh_main : Startup → Setup Prepared → M ℕ
  unfolding run_prepared
  autossh_main a (leave code) = quit code
  autossh_main a (go p) = run_prepared a p
