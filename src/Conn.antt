-- ===== src/Conn.antt =====
-- src/conn.rs: the test of the tunnel. A message goes out on the write port, and has to come back
-- unchanged on the connection that the forwarding makes to the listening socket (or, with an echo
-- port, on the same socket).
pub mod Rounds
pub mod Listen
pub mod Heard
pub mod Buffer
pub mod Verdict
pub mod Healthy
pub mod Works
use autossh_1_4g.Base.{
  ℕ, zero, suc, ◌+◌, ◌-◌, Bool, true, false, ◌&&◌, Option, none, some, [], ◌∷◌, ◌++◌, ltb, leb,
  ◌==◌, length, if◌then◌else◌,
}
use autossh_1_4g.Base.Int.{ℤ, negsuc}
use autossh_1_4g.Base.Bytes.{Bytes, bytes_eq, decimal}
use autossh_1_4g.Posix.{
  Errno, Call, ConnectReply, no_socket, refused, connected, PollReply, timed_out, poll_error, ready,
  WriteReply, wrote, write_failed, ReadReply, got, read_failed,
}
use autossh_1_4g.Process.{M, pure, ask, record_call, still_running, ◌>>=◌, ◌>>◌}
use autossh_1_4g.Signals.{deliver, sleep}
use autossh_1_4g.Drain.{c_str}
use autossh_1_4g.Log.{xerrlog}

abbrev pub max_conn_tries : ℕ
max_conn_tries = 3

-- BUF_SZ of conn_test
abbrev pub buf_sz : ℕ
buf_sz = 193

-- The listening socket: -1 and NO_RD_SOCK are not descriptors.
abbrev pub has_read_socket : ℤ → Bool
has_read_socket (negsuc (suc zero)) = false
has_read_socket _ = true

-- poll(2), during which unblocked signals are handled.
unfoldable pub poll : M PollReply
unfolding deliver
poll os s = (do n ← ask (λ os n. n); deliver (os.arrivals n); pure (os.poll n)) os s

-- conn_remote: -1 is `none`.
unfoldable pub after_connect : ConnectReply → M (Option ℕ)
after_connect no_socket = xerrlog
after_connect (refused fd) = do record_call (Call.close fd); pure none
after_connect (connected fd) = pure (some fd)

unfoldable pub conn_remote : M (Option ℕ)
unfolding after_connect
conn_remote = do reply ← ask (λ os n. os.connect n); after_connect reply

-- conn_poll_for_accept: -1 is `none`; a poll that is ready without POLLIN yields descriptor 0.
unfoldable pub after_accept_poll : PollReply → M (Option ℕ)
after_accept_poll timed_out = pure none
after_accept_poll poll_error = pure none
after_accept_poll (ready out true) = ask (λ os n. os.accept n)
after_accept_poll (ready out false) = pure (some 0)

unfoldable pub conn_poll_for_accept : M (Option ℕ)
unfolding poll after_accept_poll
conn_poll_for_accept = do reply ← poll; after_accept_poll reply

-- The inner write loop, from `left` bytes to write: the bytes left when it ends, or `none` for -1.
-- Each write takes a byte at least, so `left` rounds are enough.
unfoldable pub after_write : (ℕ → M (Option ℕ)) → ℕ → WriteReply → M (Option ℕ)
after_write again left (wrote zero) = pure (some 0)
after_write again left (wrote n) = again (left - n)
after_write again left (write_failed Errno.eintr) = pure (some left)
after_write again left (write_failed Errno.eagain) = pure (some left)
after_write again left (write_failed _) = pure none

unfoldable pub write_some : ℕ → ℕ → M (Option ℕ)
unfolding after_write
write_some zero left = pure (some left)
write_some (suc fuel) left =
    if left == 0
    then pure (some 0)
    else (do reply ← ask (λ os n. os.write n); after_write (write_some fuel) left reply)

-- The inner read loop, likewise: the bytes left to read, and those received.
abbrev pub Received : Type 0
Received = Option (ℕ × Bytes)

unfoldable pub after_read : (ℕ → Bytes → M Received) → ℕ → Bytes → ReadReply → M Received
after_read again left acc (got []) = pure (some (0, acc))
after_read again left acc (got (b ∷ bs)) = again (left - length (b ∷ bs)) (acc ++ (b ∷ bs))
after_read again left acc (read_failed Errno.eintr) = pure (some (left, acc))
after_read again left acc (read_failed Errno.eagain) = pure (some (left, acc))
after_read again left acc (read_failed _) = pure none

unfoldable pub read_some : ℕ → ℕ → Bytes → M Received
unfolding after_read
read_some zero left acc = pure (some (left, acc))
read_some (suc fuel) left acc =
    if left == 0
    then pure (some (0, acc))
    else (do reply ← ask (λ os n. os.read n); after_read (read_some fuel) left acc reply)

-- conn_send_and_receive returns 0 with what was received, 1, or -1.
pub data Exchange : Type 0 where
  complete : Bytes → Exchange
  slow : Exchange
  broken : Exchange

-- The end of a round: the count of rounds, the pause, and the limit.
unfoldable pub next_round : ℕ → M Exchange → M Exchange
next_round loops again =
    if ltb 5 loops then (do sleep 1; if ltb 10 loops then pure broken else again) else again

-- One round of the outer loop: `rounds` is the fuel, and `again` takes rleft, wleft, what was
-- received, and the rounds made.
abbrev pub Again : Type 0
Again = ℕ → ℕ → Bytes → ℕ → M Exchange

unfoldable pub after_reading : Again → ℕ → ℕ → Received → M Exchange
unfolding next_round
after_reading again wleft loops none = pure broken
after_reading again wleft loops (some (rleft, acc)) =
    next_round (loops + 1) (again rleft wleft acc (loops + 1))

unfoldable pub after_writing : Again → ℕ → Bytes → ℕ → Bool → Option ℕ → M Exchange
unfolding read_some after_reading
after_writing again rleft acc loops readable none = pure broken
after_writing again rleft acc loops readable (some wleft) = do
  received ← (if readable then read_some rleft rleft acc else pure (some (rleft, acc)))
  after_reading again wleft loops received

unfoldable pub on_ready : Again → ℕ → ℕ → Bytes → ℕ → PollReply → M Exchange
unfolding write_some after_writing
on_ready again rleft wleft acc loops timed_out = pure slow
on_ready again rleft wleft acc loops poll_error = pure broken
on_ready again rleft wleft acc loops (ready writable readable) = do
  written ← (if ltb 0 wleft && writable then write_some wleft wleft else pure (some wleft))
  after_writing again rleft acc loops readable written

unfoldable pub exchange : ℕ → Again
unfolding poll on_ready
exchange zero rleft wleft acc loops = still_running
exchange (suc rounds) rleft wleft acc loops =
    if rleft == 0
    then pure (complete acc)
    else (do reply ← poll; on_ready (exchange rounds) rleft wleft acc loops reply)

-- Eleven rounds are the most that the count of loops lets through.
unfoldable pub conn_send_and_receive : ℕ → M Exchange
unfolding exchange
conn_send_and_receive len = exchange 12 len len [] 0

-- "%s %s %d %ld %s\r\n"
unfoldable pub hello : Bytes → Bytes → ℕ → ℕ → Bytes → Bytes
hello nodename progname pid id message =
    nodename
    ++ (32 ∷ progname ++ (32 ∷ decimal pid ++ (32 ∷ decimal id ++ (32 ∷ message ++ 13 ∷ 10 ∷ []))))

-- shutdown and close of a descriptor, if there is one
unfoldable pub hang_up_on : Option ℕ → M (Unit {0})
hang_up_on none = pure tt
hang_up_on (some fd) = record_call (Call.close fd)

-- What a try leads to: the test is over with a result, or is tried again; the read descriptor is
-- kept for the end.
abbrev pub Tried : Type 0
Tried = Option Bool × Option ℕ

unfoldable pub judge_exchange : Bytes → Option ℕ → Exchange → Tried
judge_exchange message rd (complete received) =
    if bytes_eq (c_str received) message then (some true, rd) else (none, rd)
judge_exchange message rd slow = (none, rd)
judge_exchange message rd broken = (some false, rd)

unfoldable pub try_accepted : Bytes → Option ℕ → M Tried
unfolding conn_send_and_receive judge_exchange
try_accepted message none = pure (some false, none)
try_accepted message (some rd) = do
  result ← conn_send_and_receive (length message)
  pure (judge_exchange message (some rd) result)

unfoldable pub try_once : ℤ → Bytes → M Tried
unfolding conn_poll_for_accept try_accepted conn_send_and_receive judge_exchange
try_once sock message =
    if leb buf_sz (length message)
    then xerrlog
    else if has_read_socket sock
    then (do rd ← conn_poll_for_accept; try_accepted message rd)
    else (do
      result ← conn_send_and_receive (length message)
      pure (judge_exchange message none result))

unfoldable pub after_try : (Option ℕ → M (Bool × Option ℕ)) → Tried → M (Bool × Option ℕ)
after_try again (some verdict, rd) = pure (verdict, rd)
after_try again (none, rd) = again rd

-- while tries < MAX_CONN_TRIES, with the break in front of the last try
unfoldable pub try_loop : ℕ → ℕ → ℤ → Bytes → Option ℕ → M (Bool × Option ℕ)
unfolding try_once after_try hang_up_on
try_loop zero tries sock message rd = pure (false, rd)
try_loop (suc left) tries sock message rd =
    if leb max_conn_tries (tries + 1) then pure (false, rd) else (do
      hang_up_on rd
      tried ← try_once sock message
      after_try (λ rd'. try_loop left (tries + 1) sock message rd') tried)

unfoldable pub test_connected : ℤ → Bytes → Option ℕ → M Bool
unfolding try_loop hang_up_on
test_connected sock message none = pure false
test_connected sock message (some wd) = do
  outcome ← try_loop max_conn_tries 0 sock message none
  hang_up_on (some wd)
  hang_up_on outcome.1
  pure outcome.0

-- conn_test(sock, host, write_port): the host and the port only choose the address.
unfoldable pub conn_test : ℤ → Bytes → M Bool
unfolding conn_remote test_connected hello
conn_test sock port os s =
    (do
      id ← ask (λ os n. os.random n)
      wd ← conn_remote
      test_connected sock (hello os.nodename os.progname os.pid id s.echo_message) wd)
      os s
