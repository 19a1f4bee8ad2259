-- ===== src/Posix.antt =====
-- What the program sees of the operating system: signals, the replies to its system calls, and
-- the calls that it makes. The kernel is not under src, so it is a parameter: an `Os` answers the
-- call number n of a run as it likes.
use autossh_1_4g.Base.{ℕ, Bool, Option, List}
use autossh_1_4g.Base.Bytes.{Bytes}

-- The signals that the program names; `sigquit` and `sigabrt` are tested for and never caught.
pub data Signal : Type 0 where
  sighup sigint sigquit sigabrt sigkill sigusr1 sigusr2 sigpipe sigalrm sigterm sigchld : Signal

-- The numbers that Linux gives them.
abbrev pub signo : Signal → ℕ
signo Signal.sighup = 1
signo Signal.sigint = 2
signo Signal.sigquit = 3
signo Signal.sigabrt = 6
signo Signal.sigkill = 9
signo Signal.sigusr1 = 10
signo Signal.sigusr2 = 12
signo Signal.sigpipe = 13
signo Signal.sigalrm = 14
signo Signal.sigterm = 15
signo Signal.sigchld = 17

-- SIG_DFL, SIG_IGN, and the one handler of the program, `sig_catch`.
pub data Disposition : Type 0 where
  dfl ign catcher : Disposition

pub data Errno : Type 0 where
  eintr eagain echild : Errno
  other : ℕ → Errno

-- A wait status as libc's WIFEXITED, WEXITSTATUS and WIFSIGNALED take it apart.
pub data Status : Type 0 where
  exited : ℕ → Status
  signaled : ℕ → Status
  stopped : Status

-- waitpid returned the pid, 0 (only under WNOHANG), or -1.
pub data WaitReply : Type 0 where
  reaped : Status → WaitReply
  not_yet : WaitReply
  failed : Errno → WaitReply

-- fork failed, or returned the child's pid in the parent.
pub data ForkReply : Type 0 where
  no_fork : ForkReply
  child : ℕ → ForkReply

-- What `revents` holds after a poll of one descriptor: POLLIN, and POLLHUP or POLLERR.
pub record Revents : Type 0 where
  pub pollin : Bool
  pub hangup : Bool

-- getaddrinfo or socket failed; connect failed (the socket is closed again); or a socket.
pub data ConnectReply : Type 0 where
  no_socket : ConnectReply
  refused : ℕ → ConnectReply
  connected : ℕ → ConnectReply

-- poll returned 0, -1, or readiness to write and (or hung up) to read.
pub data PollReply : Type 0 where
  timed_out : PollReply
  poll_error : PollReply
  ready : Bool → Bool → PollReply

-- write(2) took n bytes, or failed; read(2) returned bytes (none at the end of file), or failed.
pub data WriteReply : Type 0 where
  wrote : ℕ → WriteReply
  write_failed : Errno → WriteReply

pub data ReadReply : Type 0 where
  got : Bytes → ReadReply
  read_failed : Errno → ReadReply

-- The replies, by the number of calls that the run has made before.
pub record Os : Type 0 where
  pub time : ℕ → ℕ
  pub waitpid : ℕ → WaitReply
  -- the chunks that reads of the stderr pipe return before one returns 0 or -1
  pub stderr_data : ℕ → List Bytes
  pub ppoll : ℕ → Revents
  -- what `alarm(0)` returns: the seconds that were left
  pub alarm_left : ℕ → ℕ
  pub fork : ℕ → ForkReply
  pub pipe : ℕ → Option (ℕ × ℕ)
  -- the tunnel test
  pub connect : ℕ → ConnectReply
  pub poll : ℕ → PollReply
  pub accept : ℕ → Option ℕ
  pub write : ℕ → WriteReply
  pub read : ℕ → ReadReply
  -- uname's nodename, __progname, getpid and random
  pub nodename : Bytes
  pub progname : Bytes
  pub pid : ℕ
  pub random : ℕ → ℕ
  -- the signals that are delivered during the call if they are not blocked
  pub arrivals : ℕ → List Signal

-- The calls with an effect outside the process, as a run records them.
pub data Call : Type 0 where
  kill : ℕ → Signal → Call
  sleep : ℕ → Call
  close : ℕ → Call
  alarm : ℕ → Call
  create_pid_file : Call
  unlink_pid_file : Call
  forked : ℕ → Call
  -- waitpid returned the child's pid and a status that says it is gone
  reap : ℕ → Call
  write_stderr : Bytes → Call
  -- no call: sig_catch notes a SIGTERM or SIGINT
  end_signal : Call
