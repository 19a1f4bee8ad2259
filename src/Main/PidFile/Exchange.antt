-- ===== src/Main/PidFile/Exchange.antt =====
-- The exchange of the message leaves the pid file alone.
use autossh_1_4g.Base.{
  ℕ, zero, suc, ◌+◌, ◌-◌, Bool, Option, none, some, [], ◌∷◌, ◌++◌, ◌&&◌, ltb, ◌==◌, length,
  if◌then◌else◌,
}
use autossh_1_4g.Base.Bytes.{Bytes}
use autossh_1_4g.Posix.{
  Os, Errno, PollReply, timed_out, poll_error, ready, WriteReply, wrote, write_failed, ReadReply,
  got, read_failed,
}
use autossh_1_4g.Process.{M, pure, ask, ◌>>=◌, ◌>>◌}
use autossh_1_4g.Signals.{deliver, sleep}
use autossh_1_4g.Conn.{
  poll, after_write, write_some, Received, after_read, read_some, Exchange, complete, broken,
  next_round, Again, after_reading, after_writing, on_ready, exchange, conn_send_and_receive,
}
use autossh_1_4g.Main.PidFile.{
  Leaves, After-continue, bind-Leaves, if-Leaves, deliver-Leaves, sleep-Leaves,
}

pub pure-Leaves : {A : Type 0} (a : A) → Leaves (pure a)
pure-Leaves a os s h = h

pub ask-Leaves : {A : Type 0} (reply : Os → ℕ → A) → Leaves (ask reply)
ask-Leaves reply os s h = h

pub poll-Leaves : Leaves poll
unfolding poll
poll-Leaves os s h =
    After-continue os (deliver (os.arrivals s.calls) os (record s { calls = suc s.calls }))
      (λ _. pure (os.poll s.calls)) (deliver-Leaves (os.arrivals s.calls) os _ h) (λ _ t k. k)

after_write-Leaves :
    (again : ℕ → M (Option ℕ)) (left : ℕ) (r : WriteReply)
    → ((n : ℕ) → Leaves (again n))
    → Leaves (after_write again left r)
unfolding after_write
after_write-Leaves again left (wrote zero) go os s h = h
after_write-Leaves again left (wrote (suc n)) go os s h = go (left - suc n) os s h
after_write-Leaves again left (write_failed Errno.eintr) go os s h = h
after_write-Leaves again left (write_failed Errno.eagain) go os s h = h
after_write-Leaves again left (write_failed _) go os s h = h

write_some-Leaves : (fuel left : ℕ) → Leaves (write_some fuel left)
unfolding write_some
write_some-Leaves zero left os s h = h
write_some-Leaves (suc fuel) left os s h =
    if-Leaves (left == 0) (pure (some 0))
      (ask (λ os n. os.write n) >>= after_write (write_some fuel) left) (λ os t k. k)
      (bind-Leaves (ask (λ os n. os.write n)) (after_write (write_some fuel) left)
        (ask-Leaves (λ os n. os.write n))
        (λ r. after_write-Leaves (write_some fuel) left r (write_some-Leaves fuel)))
      os s h

after_read-Leaves :
    (again : ℕ → Bytes → M Received) (left : ℕ) (acc : Bytes) (r : ReadReply)
    → ((n : ℕ) (bs : Bytes) → Leaves (again n bs))
    → Leaves (after_read again left acc r)
unfolding after_read
after_read-Leaves again left acc (got []) go os s h = h
after_read-Leaves again left acc (got (x ∷ xs)) go os s h =
    go (left - length (x ∷ xs)) (acc ++ (x ∷ xs)) os s h
after_read-Leaves again left acc (read_failed Errno.eintr) go os s h = h
after_read-Leaves again left acc (read_failed Errno.eagain) go os s h = h
after_read-Leaves again left acc (read_failed _) go os s h = h

read_some-Leaves : (fuel left : ℕ) (acc : Bytes) → Leaves (read_some fuel left acc)
unfolding read_some
read_some-Leaves zero left acc os s h = h
read_some-Leaves (suc fuel) left acc os s h =
    if-Leaves (left == 0) (pure (some (0, acc)))
      (ask (λ os n. os.read n) >>= after_read (read_some fuel) left acc) (λ os t k. k)
      (bind-Leaves (ask (λ os n. os.read n)) (after_read (read_some fuel) left acc)
        (ask-Leaves (λ os n. os.read n))
        (λ r. after_read-Leaves (read_some fuel) left acc r (read_some-Leaves fuel)))
      os s h

abbrev Goes : Again → Type 0
Goes again = (rleft wleft : ℕ) (acc : Bytes) (loops : ℕ) → Leaves (again rleft wleft acc loops)

next_round-Leaves :
    (loops : ℕ) (again : M Exchange) → Leaves again → Leaves (next_round loops again)
unfolding next_round
next_round-Leaves loops again go =
    if-Leaves (ltb 5 loops) (sleep 1 >> (if ltb 10 loops then pure broken else again)) again
      (bind-Leaves (sleep 1) (λ _. if ltb 10 loops then pure broken else again) (sleep-Leaves 1)
        (λ _. if-Leaves (ltb 10 loops) (pure broken) again (pure-Leaves broken) go))
      go

after_reading-Leaves :
    (again : Again) (wleft loops : ℕ) (r : Received)
    → Goes again
    → Leaves (after_reading again wleft loops r)
unfolding after_reading
after_reading-Leaves again wleft loops none go os s h = h
after_reading-Leaves again wleft loops (some (rleft, acc)) go os s h =
    next_round-Leaves (loops + 1) (again rleft wleft acc (loops + 1))
      (go rleft wleft acc (loops + 1)) os s h

after_writing-Leaves :
    (again : Again) (rleft : ℕ) (acc : Bytes) (loops : ℕ) (readable : Bool) (w : Option ℕ)
    → Goes again
    → Leaves (after_writing again rleft acc loops readable w)
unfolding after_writing
after_writing-Leaves again rleft acc loops readable none go os s h = h
after_writing-Leaves again rleft acc loops readable (some wleft) go os s h =
    bind-Leaves (if readable then read_some rleft rleft acc else pure (some (rleft, acc)))
      (after_reading again wleft loops)
      (if-Leaves readable (read_some rleft rleft acc) (pure (some (rleft, acc)))
        (read_some-Leaves rleft rleft acc) (λ os t k. k))
      (λ r. after_reading-Leaves again wleft loops r go) os s h

on_ready-Leaves :
    (again : Again) (rleft wleft : ℕ) (acc : Bytes) (loops : ℕ) (r : PollReply)
    → Goes again
    → Leaves (on_ready again rleft wleft acc loops r)
unfolding on_ready
on_ready-Leaves again rleft wleft acc loops timed_out go os s h = h
on_ready-Leaves again rleft wleft acc loops poll_error go os s h = h
on_ready-Leaves again rleft wleft acc loops (ready writable readable) go os s h =
    bind-Leaves (if ltb 0 wleft && writable then write_some wleft wleft else pure (some wleft))
      (after_writing again rleft acc loops readable)
      (if-Leaves (ltb 0 wleft && writable) (write_some wleft wleft) (pure (some wleft))
        (write_some-Leaves wleft wleft) (pure-Leaves (some wleft)))
      (λ w. after_writing-Leaves again rleft acc loops readable w go) os s h

exchange-Leaves : (rounds : ℕ) → Goes (exchange rounds)
unfolding exchange
exchange-Leaves zero rleft wleft acc loops os s h = h
exchange-Leaves (suc rounds) rleft wleft acc loops os s h =
    if-Leaves (rleft == 0) (pure (complete acc))
      (poll >>= on_ready (exchange rounds) rleft wleft acc loops) (pure-Leaves (complete acc))
      (bind-Leaves poll (on_ready (exchange rounds) rleft wleft acc loops) (poll-Leaves)
        (λ r. on_ready-Leaves (exchange rounds) rleft wleft acc loops r (exchange-Leaves rounds)))
      os s h

pub conn_send_and_receive-Leaves : (len : ℕ) → Leaves (conn_send_and_receive len)
unfolding conn_send_and_receive
conn_send_and_receive-Leaves len = exchange-Leaves 12 len len [] 0
