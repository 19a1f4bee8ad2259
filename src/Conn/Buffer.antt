-- ===== src/Conn/Buffer.antt =====
-- conn_send_and_receive hands on only what its reads returned.
use autossh_1_4g.Base.{
  ℕ, zero, suc, ◌+◌, ◌-◌, ◌≤◌, ◌≡◌, refl, Bool, Option, none, some, [], ◌∷◌, ◌++◌, ◌&&◌, ltb, ◌==◌,
  length, arith, if◌then◌else◌,
}
use autossh_1_4g.Base.Bytes.{Bytes}
use autossh_1_4g.Posix.{
  Os, Errno, PollReply, timed_out, poll_error, ready, WriteReply, wrote, write_failed, ReadReply,
  got, read_failed,
}
use autossh_1_4g.Process.{State, M, pure, ask, ◌>>=◌, ◌>>◌}
use autossh_1_4g.Process.Triple.{Ends, Ends-continue, Ends-if}
use autossh_1_4g.Signals.{sleep}
use autossh_1_4g.Conn.{
  poll, after_write, write_some, Received, after_read, read_some, Exchange, complete, slow, broken,
  next_round, Again, after_reading, after_writing, on_ready, exchange, conn_send_and_receive,
}
use autossh_1_4g.Watch.Invariant.{Keep}
use autossh_1_4g.Conn.Heard.{Kept, Keeps, called, emptied, read_more, sleep-Keeps, poll-Keeps}

module _ (b : State) (os : Os) (from : ℕ) where
  abbrev pub Buffer : Bytes → State → Type 0
  Buffer = Kept b os from

  after_write-Keeps :
      (acc : Bytes) (again : ℕ → M (Option ℕ)) (left : ℕ) (r : WriteReply)
      → ((n : ℕ) → Keeps b os from acc (again n))
      → Keeps b os from acc (after_write again left r)
  unfolding after_write
  after_write-Keeps acc again left (wrote zero) go s h = h
  after_write-Keeps acc again left (wrote (suc n)) go s h = go (left - suc n) s h
  after_write-Keeps acc again left (write_failed Errno.eintr) go s h = h
  after_write-Keeps acc again left (write_failed Errno.eagain) go s h = h
  after_write-Keeps acc again left (write_failed _) go s h = h

  write_some-Keeps : (acc : Bytes) (fuel left : ℕ) → Keeps b os from acc (write_some fuel left)
  unfolding write_some
  write_some-Keeps acc zero left s h = h
  write_some-Keeps acc (suc fuel) left s h =
      Ends-if (λ _. Buffer acc) (Keep b) (left == 0) (pure (some 0))
        (ask (λ os n. os.write n) >>= after_write (write_some fuel) left) os s (λ _. h)
        (λ _.
          after_write-Keeps acc (write_some fuel) left (os.write s.calls)
            (write_some-Keeps acc fuel) _ (called b os from acc s h))

  -- The buffer holds what the loop says that it received.
  abbrev Got : Received → State → Type 0
  Got none = Buffer []
  Got (some (left, acc)) = Buffer acc

  after_read-Got :
      (again : ℕ → Bytes → M Received) (left : ℕ) (acc : Bytes) (s : State)
      → ((n : ℕ) (bs : Bytes) (t : State) → Buffer bs t → Ends Got (Keep b) (again n bs os t))
      → Buffer acc s
      → (r : ReadReply) → os.read s.calls ≡ r
      → Ends Got (Keep b) (after_read again left acc r os (record s { calls = suc s.calls }))
  unfolding after_read
  after_read-Got again left acc s go h (got []) e = called b os from acc s h
  after_read-Got again left acc s go h (got (x ∷ xs)) e =
      go (left - length (x ∷ xs)) (acc ++ (x ∷ xs)) _ (read_more b os from acc (x ∷ xs) s h e)
  after_read-Got again left acc s go h (read_failed Errno.eintr) e = called b os from acc s h
  after_read-Got again left acc s go h (read_failed Errno.eagain) e = called b os from acc s h
  after_read-Got again left acc s go h (read_failed _) e =
      emptied b os from acc _ (called b os from acc s h)

  read_some-Got :
      (fuel left : ℕ) (acc : Bytes) (s : State)
      → Buffer acc s
      → Ends Got (Keep b) (read_some fuel left acc os s)
  unfolding read_some
  read_some-Got zero left acc s h = h
  read_some-Got (suc fuel) left acc s h =
      Ends-if Got (Keep b) (left == 0) (pure (some (0, acc)))
        (ask (λ os n. os.read n) >>= after_read (read_some fuel) left acc) os s (λ _. h)
        (λ _.
          after_read-Got (read_some fuel) left acc s (read_some-Got fuel) h (os.read s.calls) refl)

  abbrev pub Answered : Exchange → State → Type 0
  Answered (complete acc) = Buffer acc
  Answered slow = Buffer []
  Answered broken = Buffer []

  -- What the rounds behind `loops` rounds do.
  abbrev Goes : ℕ → Again → Type 0
  Goes loops again =
      (rleft wleft : ℕ) (acc : Bytes) (s : State)
      → Buffer acc s
      → Ends Answered (Keep b) (again rleft wleft acc loops os s)

  abbrev Rest : ℕ → Again → Type 0
  Rest n again = n + 1 ≤ 10 → Goes (n + 1) again

  next_round-Answered :
      (n : ℕ) (acc : Bytes) (again : M Exchange) (s : State)
      → n ≤ 10
      → (n + 1 ≤ 10 → (t : State) → Buffer acc t → Ends Answered (Keep b) (again os t))
      → Buffer acc s
      → Ends Answered (Keep b) (next_round (n + 1) again os s)
  unfolding next_round
  next_round-Answered n acc again s le go h =
      Ends-if Answered (Keep b) (ltb 5 (n + 1))
        (sleep 1 >> (if ltb 10 (n + 1) then pure broken else again)) again os s
        (λ _.
          Ends-continue (λ _. Buffer acc) Answered (Keep b) os (sleep 1 os s)
            (λ _. if ltb 10 (n + 1) then pure broken else again) (sleep-Keeps b os from acc 1 s h)
            (λ _ t k.
              Ends-if Answered (Keep b) (ltb 10 (n + 1)) (pure broken) again os t
                (λ _. emptied b os from acc t k) (λ more. go (ground arith) t k)))
        (λ early. go (ground arith) s h)

  after_reading-Answered :
      (n wleft : ℕ) (again : Again) (r : Received) (s : State)
      → n ≤ 10
      → Rest n again
      → Got r s
      → Ends Answered (Keep b) (after_reading again wleft n r os s)
  unfolding after_reading
  after_reading-Answered n wleft again none s le go h = h
  after_reading-Answered n wleft again (some (rleft, acc)) s le go h =
      next_round-Answered n acc (again rleft wleft acc (n + 1)) s le
        (λ more. go more rleft wleft acc) h

  after_writing-Answered :
      (n rleft : ℕ) (acc : Bytes) (readable : Bool) (again : Again) (w : Option ℕ) (s : State)
      → n ≤ 10
      → Rest n again
      → Buffer acc s
      → Ends Answered (Keep b) (after_writing again rleft acc n readable w os s)
  unfolding after_writing
  after_writing-Answered n rleft acc readable again none s le go h = emptied b os from acc s h
  after_writing-Answered n rleft acc readable again (some wleft) s le go h =
      Ends-continue Got Answered (Keep b) os
        ((if readable then read_some rleft rleft acc else pure (some (rleft, acc))) os s)
        (after_reading again wleft n)
        (Ends-if Got (Keep b) readable (read_some rleft rleft acc) (pure (some (rleft, acc))) os s
          (λ _. read_some-Got rleft rleft acc s h) (λ _. h))
        (λ r t k. after_reading-Answered n wleft again r t le go k)

  on_ready-Answered :
      (n rleft wleft : ℕ) (acc : Bytes) (again : Again) (r : PollReply) (s : State)
      → n ≤ 10
      → Rest n again
      → Buffer acc s
      → Ends Answered (Keep b) (on_ready again rleft wleft acc n r os s)
  unfolding on_ready
  on_ready-Answered n rleft wleft acc again timed_out s le go h = emptied b os from acc s h
  on_ready-Answered n rleft wleft acc again poll_error s le go h = emptied b os from acc s h
  on_ready-Answered n rleft wleft acc again (ready writable readable) s le go h =
      Ends-continue (λ _. Buffer acc) Answered (Keep b) os
        ((if ltb 0 wleft && writable then write_some wleft wleft else pure (some wleft)) os s)
        (after_writing again rleft acc n readable)
        (Ends-if (λ _. Buffer acc) (Keep b) (ltb 0 wleft && writable) (write_some wleft wleft)
          (pure (some wleft)) os s (λ _. write_some-Keeps acc wleft wleft s h) (λ _. h))
        (λ w t k. after_writing-Answered n rleft acc readable again w t le go k)

  exchange-Answered : (rounds n : ℕ) → rounds + n ≡ 12 → n ≤ 10 → Goes n (exchange rounds)
  unfolding exchange
  exchange-Answered zero n e le rleft wleft acc s h = absurd (omega arith)
  exchange-Answered (suc rounds) n e le rleft wleft acc s h =
      Ends-if Answered (Keep b) (rleft == 0) (pure (complete acc))
        (poll >>= on_ready (exchange rounds) rleft wleft acc n) os s (λ _. h)
        (λ _.
          Ends-continue (λ _. Buffer acc) Answered (Keep b) os (poll os s)
            (on_ready (exchange rounds) rleft wleft acc n) (poll-Keeps b os from acc s h)
            (λ r t k.
              on_ready-Answered n rleft wleft acc (exchange rounds) r t le
                (λ more. exchange-Answered rounds (n + 1) (omega arith) more) k))

  pub conn_send_and_receive-Answered :
      (len : ℕ) (s : State) → Buffer [] s → Ends Answered (Keep b) (conn_send_and_receive len os s)
  unfolding conn_send_and_receive
  conn_send_and_receive-Answered len s h = exchange-Answered 12 0 refl (omega arith) len len [] s h
