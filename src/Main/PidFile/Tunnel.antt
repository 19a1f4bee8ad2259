-- ===== src/Main/PidFile/Tunnel.antt =====
-- The test of the tunnel leaves the pid file alone.
use autossh_1_4g.Base.{
  ℕ, zero, suc, ◌+◌, Bool, true, false, Option, none, some, leb, length, if◌then◌else◌,
}
use autossh_1_4g.Base.Int.{ℤ}
use autossh_1_4g.Base.Bytes.{Bytes}
use autossh_1_4g.Posix.{
  ConnectReply, no_socket, refused, connected, PollReply, timed_out, poll_error, ready,
}
use autossh_1_4g.Process.{M, pure, ask, ◌>>=◌, ◌>>◌}
use autossh_1_4g.Log.{xerrlog}
use autossh_1_4g.Conn.{
  max_conn_tries, buf_sz, has_read_socket, poll, after_connect, conn_remote, after_accept_poll,
  conn_poll_for_accept, conn_send_and_receive, hello, hang_up_on, Tried, judge_exchange,
  try_accepted, try_once, after_try, try_loop, test_connected, conn_test,
}
use autossh_1_4g.Main.PidFile.{Leaves, bind-Leaves, if-Leaves, xerrlog-Leaves}
use autossh_1_4g.Main.PidFile.Exchange.{
  pure-Leaves, ask-Leaves, poll-Leaves, conn_send_and_receive-Leaves,
}

hang_up_on-Leaves : (fd : Option ℕ) → Leaves (hang_up_on fd)
unfolding hang_up_on
hang_up_on-Leaves none os s h = h
hang_up_on-Leaves (some fd) os s h = h

after_connect-Leaves : (r : ConnectReply) → Leaves (after_connect r)
unfolding after_connect
after_connect-Leaves no_socket os s h = xerrlog-Leaves (Option ℕ) os s h
after_connect-Leaves (refused fd) os s h = h
after_connect-Leaves (connected fd) os s h = h

conn_remote-Leaves : Leaves conn_remote
unfolding conn_remote
conn_remote-Leaves os s h = after_connect-Leaves (os.connect s.calls) os _ h

after_accept_poll-Leaves : (r : PollReply) → Leaves (after_accept_poll r)
unfolding after_accept_poll
after_accept_poll-Leaves timed_out os s h = h
after_accept_poll-Leaves poll_error os s h = h
after_accept_poll-Leaves (ready out true) os s h = h
after_accept_poll-Leaves (ready out false) os s h = h

conn_poll_for_accept-Leaves : Leaves conn_poll_for_accept
unfolding conn_poll_for_accept
conn_poll_for_accept-Leaves =
    bind-Leaves poll after_accept_poll poll-Leaves after_accept_poll-Leaves

exchange_once :
    (message : Bytes) (rd : Option ℕ)
    → Leaves (conn_send_and_receive (length message) >>= λ r. pure (judge_exchange message rd r))
exchange_once message rd =
    bind-Leaves (conn_send_and_receive (length message)) (λ r. pure (judge_exchange message rd r))
      (conn_send_and_receive-Leaves (length message))
      (λ r. pure-Leaves (judge_exchange message rd r))

try_accepted-Leaves : (message : Bytes) (rd : Option ℕ) → Leaves (try_accepted message rd)
unfolding try_accepted
try_accepted-Leaves message none os s h = h
try_accepted-Leaves message (some rd) os s h = exchange_once message (some rd) os s h

try_once-Leaves : (sock : ℤ) (message : Bytes) → Leaves (try_once sock message)
unfolding try_once
try_once-Leaves sock message =
    if-Leaves (leb buf_sz (length message)) xerrlog
      (if has_read_socket sock
        then (conn_poll_for_accept >>= try_accepted message)
        else (conn_send_and_receive (length message) >>= λ r. pure (judge_exchange message none r)))
      (xerrlog-Leaves Tried)
      (if-Leaves (has_read_socket sock) (conn_poll_for_accept >>= try_accepted message)
        (conn_send_and_receive (length message) >>= λ r. pure (judge_exchange message none r))
        (bind-Leaves conn_poll_for_accept (try_accepted message) (conn_poll_for_accept-Leaves)
          (try_accepted-Leaves message))
        (exchange_once message none))

after_try-Leaves :
    (again : Option ℕ → M (Bool × Option ℕ)) (t : Tried)
    → ((rd : Option ℕ) → Leaves (again rd))
    → Leaves (after_try again t)
unfolding after_try
after_try-Leaves again (some v, rd) go os s h = h
after_try-Leaves again (none, rd) go os s h = go rd os s h

try_loop-Leaves :
    (left tries : ℕ) (sock : ℤ) (message : Bytes) (rd : Option ℕ)
    → Leaves (try_loop left tries sock message rd)
unfolding try_loop
try_loop-Leaves zero tries sock message rd os s h = h
try_loop-Leaves (suc left) tries sock message rd os s h =
    let again : Option ℕ → M (Bool × Option ℕ) =
      λ rd'. try_loop left (tries + 1) sock message rd' in
    if-Leaves (leb max_conn_tries (tries + 1)) (pure (false, rd))
      (hang_up_on rd >> (try_once sock message >>= after_try again)) (λ os t k. k)
      (bind-Leaves (hang_up_on rd) (λ _. try_once sock message >>= after_try again)
        (hang_up_on-Leaves rd)
        (λ _.
          bind-Leaves (try_once sock message) (after_try again) (try_once-Leaves sock message)
            (λ t. after_try-Leaves again t (try_loop-Leaves left (tries + 1) sock message))))
      os s h

close_both :
    (wd : ℕ) (outcome : Bool × Option ℕ)
    → Leaves (hang_up_on (some wd) >> (hang_up_on outcome.1 >> pure outcome.0))
close_both wd outcome =
    bind-Leaves (hang_up_on (some wd)) (λ _. hang_up_on outcome.1 >> pure outcome.0)
      (hang_up_on-Leaves (some wd))
      (λ _.
        bind-Leaves (hang_up_on outcome.1) (λ _. pure outcome.0) (hang_up_on-Leaves outcome.1)
          (λ _. pure-Leaves outcome.0))

test_connected-Leaves :
    (sock : ℤ) (message : Bytes) (wd : Option ℕ) → Leaves (test_connected sock message wd)
unfolding test_connected
test_connected-Leaves sock message none os s h = h
test_connected-Leaves sock message (some wd) os s h =
    bind-Leaves (try_loop max_conn_tries 0 sock message none)
      (λ outcome. hang_up_on (some wd) >> (hang_up_on outcome.1 >> pure outcome.0))
      (try_loop-Leaves max_conn_tries 0 sock message none) (close_both wd) os s h

-- The whole test.
pub conn_test-Leaves : (sock : ℤ) (port : Bytes) → Leaves (conn_test sock port)
unfolding conn_test
conn_test-Leaves sock port os s h =
    bind-Leaves (ask (λ os n. os.random n))
      (λ id.
        conn_remote
        >>= test_connected sock (hello os.nodename os.progname os.pid id s.echo_message))
      (ask-Leaves (λ os n. os.random n))
      (λ id.
        bind-Leaves conn_remote
          (test_connected sock (hello os.nodename os.progname os.pid id s.echo_message))
          (conn_remote-Leaves)
          (λ wd.
            test_connected-Leaves sock (hello os.nodename os.progname os.pid id s.echo_message) wd))
      os s h
