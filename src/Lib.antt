-- ===== src/Lib.antt =====
-- autossh: a monitor that starts ssh, watches it, and starts it again. This library models the
-- program file by file and proves what keeps it correct.
--
-- The parts and their files (the sources are relative to the root of the repository):
--   Env       src/env.rs: the settings from the AUTOSSH_ variables (get_env_args, one step for each
--             variable); Env/Read is getenv with strtol and strtoul, Env/Accepts says which settings it takes.
--   Command, Main   src/main_logic.rs: Command has the ports, the forwarding strings and the argv of
--             ssh, Main the options, the echo port, the timeouts and all of it (setup), and Main/Launch
--             the daemon, the listening socket, the pid file, ssh_run and the exit code (autossh_main);
--             Main/Program is src/main.rs with unlink_pid_atexit, and Main/PidFile follows the pid file.
--   Session   src/api.rs: Session has autossh_session_stop and autossh_session_state as machines of
--             single steps (move), Threads interleaves them, Config is parse_config, Child the
--             environment and the argv of the supervisor, Reserve its ports, Start the start, and Calls
--             the calls of the interface with NULL.
--   Preload   src/stuck_detector.rs: extract_once and install_for_child.
--   Args      src/args.rs: add_arg on newac, newav and NEWAV_CAP, and strip_arg (strip_option).
--   Settings, Process   src/globals.rs: what is set at start-up, and the state of the running
--             process, with the function statics TRIES of grace.rs and SECS_LEFT of watch.rs.
--   Signals   src/signals.rs: sig_catch, the three functions that install handlers, and the delivery
--             of signals.
--   Kill, Lifetime, Grace, Drain, Wait   src/kill.rs, lifetime.rs, grace.rs, stderr_drain.rs, wait.rs.
--   Conn      src/conn.rs: conn_listen and the test of the tunnel. Conn/Rounds is how long the test
--             lasts, Conn/Heard and Conn/Buffer what it reads, Conn/Verdict what its answer says,
--             Conn/Healthy and Conn/Works a tunnel that works.
--   Log       src/log.rs and src/util.rs: xerrlog in the process; Log/Lines the lines of the log, as
--             they are written and where, and Log/Usage the text of usage.
--   Watch     src/watch.rs: ssh_watch. A function of this file is a branch of the loop body: watch_round
--             is a round, try_branch and catch_branch are what sigsetjmp returns to, arm sets the alarm,
--             on_signal and watchdogs are the reactions.
--   Run       src/run.rs: ssh_run.
--   Detector  ssh-stuck-detector/src/lib.rs: the preloaded library whose lines Drain looks for;
--             Detector/Threads has enter and leave as single steps of several threads, and Detector/Hooks the
--             five hooked functions, with the real ones that they look up and the monitor they start.
--   Posix is the operating system, Base the shared types and tests, Family what threads share, Tests the
--             examples.
--
-- How they interact: an embedding program starts a session (Session/Start), whose forked child
-- hands its configuration to autossh_main through the environment and argv (Session/Child). The
-- start-up code makes Settings and the command line; Run forks a child and calls Watch; Watch calls
-- Wait, Drain, Conn, Lifetime and Kill and gives Run a policy; Run waits in Grace before the next
-- child. Every part from Signals to Run is an action of the monad M of Process on one State: it
-- returns, jumps (siglongjmp, which only the sigsetjmp of a watch round catches), ends the process,
-- or is still running when fuel ends.
--
-- The kernel is a parameter: the record Os of Posix answers the call with number n of a run, and it
-- also says which signals arrive during that call. Signals are delivered in the calls that block
-- (sleep, fork, ppoll and sigsuspend, and the poll of the tunnel test); an arrival between two calls
-- is an arrival in the next one. The calls with an effect outside are recorded in the trace of the
-- state, and so is each SIGTERM or SIGINT that sig_catch notes.
--
-- Bounds and fuel. watch_loop and run_loop take fuel, one unit for a round and for a start: these
-- loops have no end of their own. The loops of Kill recurse on their seconds. The rounds of
-- conn_send_and_receive have fuel 12, one more than its count of loops allows; its reads and writes
-- have as much fuel as bytes are left, and each round of them takes one. itoa has the 20 digits of the
-- source's array. Times and counts are natural numbers: the double variables of the program hold whole
-- seconds, and start_count does not wrap. Casts to c_int and c_uint are written out in Base/Int. The
-- arithmetic of grace_time in doubles is a parameter (Doubles).
--
-- wait_rounds has a unit of fuel for every 100 milliseconds up to the deadline and two more, since each
-- round sleeps that long; write_rest has one for every byte of the library; a call of
-- autossh_session_stop makes at most 106 steps (stop_steps). Every system call returns there, also the
-- blocking waitpid behind SIGKILL.
--
-- Not modelled: the wording of the single log messages, and strftime; the code of the forked ssh
-- child up to execvp, and the call of install_for_child in ssh_run, which sets LD_PRELOAD only; getopt,
-- of which only the results are used; getaddrinfo's addresses and their cache; the OnceLock and the
-- unused cleanup of src/stuck_detector.rs; allocations that fail; a start of a session while another
-- thread is in a call on it; the first calls of the stuck detector's hooks when two threads make them
-- at once.
pub mod Base
pub mod Posix
pub mod Settings
pub mod Process
pub mod Signals
pub mod Kill
pub mod Lifetime
pub mod Grace
pub mod Drain
pub mod Wait
pub mod Log
pub mod Conn
pub mod Watch
pub mod Run
pub mod Detector
pub mod Env
pub mod Args
pub mod Command
pub mod Family
pub mod Main
pub mod Preload
pub mod Session
pub mod Tests
