-- ===== src/Tests/Examples.antt =====
-- Kernels and states for the tests.
use autossh_1_4g.Base.{ℕ, ◌+◌, ◌*◌, ◌/◌, true, false, some, [], ◌∷◌}
use autossh_1_4g.Base.Int.{pos}
use autossh_1_4g.Base.Bytes.{codes}
use autossh_1_4g.Posix.{connected, ready, wrote, got, Os, Status, reaped, not_yet, child, Call}
use autossh_1_4g.Settings.{Settings, defaults}
use autossh_1_4g.Process.{State, initial}
use autossh_1_4g.Grace.{Doubles}

-- A child that never exits, a silent pipe, a clock that counts the calls, and no signals.
abbrev pub quiet_os : Os
quiet_os = record {
  time = λ n. 1000 + n;
  waitpid = λ n. not_yet;
  stderr_data = λ n. [];
  ppoll = λ n. record { pollin = false; hangup = false };
  alarm_left = λ n. 0;
  fork = λ n. child 4242;
  pipe = λ n. some (5, 6);
  connect = λ n. connected 7;
  poll = λ n. ready true true;
  accept = λ n. some 8;
  write = λ n. wrote 4096;
  read = λ n. got [];
  nodename = codes "host";
  progname = codes "autossh";
  pid = 77;
  random = λ n. 12345;
  arrivals = λ n. [];
}

-- The child drops the connection at once, each time it is asked.
abbrev pub dropping_os : Os
dropping_os = record quiet_os { waitpid = λ n. reaped (Status.exited 255) }

-- ssh cannot have its port.
abbrev pub port_taken_os : Os
port_taken_os = record quiet_os {
  stderr_data = λ n. codes "Warning: remote port forwarding failed for listen port 2200" ∷ [];
}

-- A running child, forked last.
abbrev pub with_child : State
with_child = record (initial defaults) {
  cchild = 4242;
  ssh_stderr_fd = some 5;
  start_count = 1;
  start_time = 900;
  trace = Call.forked 4242 ∷ [];
}

-- Two starts at most.
abbrev pub two_starts : Settings
two_starts = record defaults { max_start = pos 2 }

-- Doubles with the values of whole numbers only.
abbrev pub whole : Doubles
whole = record {
  Double = ℕ;
  of_ℕ = λ n. n;
  div = λ a b. a / b;
  mul = λ a b. a * b;
  to_c_int = λ a. pos a;
}
