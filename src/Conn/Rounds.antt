-- ===== src/Conn/Rounds.antt =====
-- The exchange of the message comes to an end, and pauses only a little.
use autossh_1_4g.Base.{
  ℕ, zero, suc, ◌+◌, ◌-◌, ◌≤◌, ◌≡◌, refl, Bool, false, Option, none, some, [], ◌∷◌, ◌++◌, ◌&&◌, ltb,
  ◌==◌, length, arith, if◌then◌else◌,
}
use autossh_1_4g.Base.Bytes.{Bytes}
use autossh_1_4g.Posix.{
  Os, Errno, PollReply, timed_out, poll_error, ready, WriteReply, wrote, write_failed, ReadReply,
  got, read_failed,
}
use autossh_1_4g.Process.{State, M, pure, ask, ◌>>=◌, ◌>>◌}
use autossh_1_4g.Process.Trace.{slept}
use autossh_1_4g.Process.Triple.{Ends, Ends-continue, Ends-weaken, Ends-if}
use autossh_1_4g.Signals.{deliver, sleep}
use autossh_1_4g.Signals.Delivery.{deliver-keeps, sleep-keeps}
use autossh_1_4g.Conn.{
  poll, after_write, write_some, Received, after_read, read_some, Exchange, complete, broken,
  next_round, Again, after_reading, after_writing, on_ready, exchange, conn_send_and_receive,
}

module _ (b : State) where
  -- At most k seconds of sleep since b.
  abbrev Over : ℕ → State → Type 0
  Over k s = slept s.trace ≤ slept b.trace + k

  abbrev Calm : ℕ → State → Type 0
  Calm k s = Over k s × (s.dolongjmp ≡ false)

  abbrev Keeps : ℕ → {A : Type 0} → M A → Type 0
  Keeps k m = (os : Os) (s : State) → Calm k s → Ends (λ _. Calm k) (Over k) (m os s)

  poll-Keeps : (k : ℕ) → Keeps k poll
  unfolding poll
  poll-Keeps k os s h =
      Ends-continue (λ _. Calm k) (λ _. Calm k) (Over k) os
        (deliver (os.arrivals s.calls) os (record s { calls = suc s.calls }))
        (λ _. pure (os.poll s.calls))
        (deliver-keeps (Over k) (λ t r e c. c) (λ t c. c) (os.arrivals s.calls) os _ h) (λ _ t c. c)

  after_write-Keeps :
      (k : ℕ) (again : ℕ → M (Option ℕ)) (left : ℕ) (r : WriteReply)
      → ((n : ℕ) → Keeps k (again n))
      → Keeps k (after_write again left r)
  unfolding after_write
  after_write-Keeps k again left (wrote zero) go os s h = h
  after_write-Keeps k again left (wrote (suc n)) go os s h = go (left - suc n) os s h
  after_write-Keeps k again left (write_failed Errno.eintr) go os s h = h
  after_write-Keeps k again left (write_failed Errno.eagain) go os s h = h
  after_write-Keeps k again left (write_failed _) go os s h = h

  write_some-Keeps : (k fuel left : ℕ) → Keeps k (write_some fuel left)
  unfolding write_some
  write_some-Keeps k zero left os s h = h
  write_some-Keeps k (suc fuel) left os s h =
      Ends-if (λ _. Calm k) (Over k) (left == 0) (pure (some 0))
        (ask (λ os n. os.write n) >>= after_write (write_some fuel) left) os s (λ _. h)
        (λ _.
          after_write-Keeps k (write_some fuel) left (os.write s.calls) (write_some-Keeps k fuel) os
            _ h)

  after_read-Keeps :
      (k : ℕ) (again : ℕ → Bytes → M Received) (left : ℕ) (acc : Bytes) (r : ReadReply)
      → ((n : ℕ) (bs : Bytes) → Keeps k (again n bs))
      → Keeps k (after_read again left acc r)
  unfolding after_read
  after_read-Keeps k again left acc (got []) go os s h = h
  after_read-Keeps k again left acc (got (x ∷ xs)) go os s h =
      go (left - length (x ∷ xs)) (acc ++ (x ∷ xs)) os s h
  after_read-Keeps k again left acc (read_failed Errno.eintr) go os s h = h
  after_read-Keeps k again left acc (read_failed Errno.eagain) go os s h = h
  after_read-Keeps k again left acc (read_failed _) go os s h = h

  read_some-Keeps : (k fuel left : ℕ) (acc : Bytes) → Keeps k (read_some fuel left acc)
  unfolding read_some
  read_some-Keeps k zero left acc os s h = h
  read_some-Keeps k (suc fuel) left acc os s h =
      Ends-if (λ _. Calm k) (Over k) (left == 0) (pure (some (0, acc)))
        (ask (λ os n. os.read n) >>= after_read (read_some fuel) left acc) os s (λ _. h)
        (λ _.
          after_read-Keeps k (read_some fuel) left acc (os.read s.calls) (read_some-Keeps k fuel) os
            _ h)

  -- The whole exchange pauses for six seconds at most.
  abbrev Finishes : ℕ → M Exchange → Type 0
  Finishes k m = (os : Os) (s : State) → Calm k s → Ends (λ _. Calm 6) (Over 6) (m os s)

  -- What the rounds behind `loops` rounds need: a second of pause for each above the fifth.
  abbrev Goes : ℕ → Again → Type 0
  Goes loops again =
      (rleft wleft : ℕ) (acc : Bytes) → Finishes (loops - 5) (again rleft wleft acc loops)

  sleep_more :
      (k : ℕ) (os : Os) (s : State)
      → Calm k s
      → Ends (λ _. Calm (k + 1)) (Over (k + 1)) (sleep 1 os s)
  sleep_more k os s h = sleep-keeps (Over (k + 1)) (λ t r e c. c) (λ t c. c) 1 os s (ground arith)

  next_round-Finishes :
      (n : ℕ) (again : M Exchange)
      → n ≤ 10
      → (n + 1 ≤ 10 → Finishes (n + 1 - 5) again)
      → Finishes (n - 5) (next_round (n + 1) again)
  unfolding next_round
  next_round-Finishes n again h go os s c =
      Ends-if (λ _. Calm 6) (Over 6) (ltb 5 (n + 1))
        (sleep 1 >> (if ltb 10 (n + 1) then pure broken else again)) again os s
        (λ late.
          Ends-continue (λ _. Calm (n + 1 - 5)) (λ _. Calm 6) (Over 6) os (sleep 1 os s)
            (λ _. if ltb 10 (n + 1) then pure broken else again)
            (Ends-weaken (λ _ t k. ground arith) (λ t k. ground arith) (sleep 1 os s)
              (sleep_more (n - 5) os s c))
            (λ _ t k.
              Ends-if (λ _. Calm 6) (Over 6) (ltb 10 (n + 1)) (pure broken) again os t
                (λ last. ground arith) (λ more. go (ground arith) os t k)))
        (λ early. go (ground arith) os s (ground arith))

  -- What a round leads to, by the hypothesis on the rounds behind it.
  abbrev Rest : ℕ → Again → Type 0
  Rest n again = n + 1 ≤ 10 → Goes (n + 1) again

  within : (n : ℕ) (s : State) → n ≤ 10 → Calm (n - 5) s → Calm 6 s
  within n s h c = ground arith

  after_reading-Finishes :
      (n wleft : ℕ) (again : Again) (r : Received)
      → n ≤ 10
      → Rest n again
      → Finishes (n - 5) (after_reading again wleft n r)
  unfolding after_reading
  after_reading-Finishes n wleft again none h go os s c = within n s h c
  after_reading-Finishes n wleft again (some (rleft, acc)) h go os s c =
      next_round-Finishes n (again rleft wleft acc (n + 1)) h (λ more. go more rleft wleft acc) os s
        c

  into_round :
      {A : Type 0} (n : ℕ) (m : M A) (f : A → M Exchange)
      → n ≤ 10
      → Keeps (n - 5) m
      → ((a : A) → Finishes (n - 5) (f a))
      → Finishes (n - 5) (m >>= f)
  into_round n m f h hm hf os s c =
      Ends-continue (λ _. Calm (n - 5)) (λ _. Calm 6) (Over 6) os (m os s) f
        (Ends-weaken (λ _ t k. k) (λ t k. omega arith) (m os s) (hm os s c)) (λ a t k. hf a os t k)

  may_do :
      (k : ℕ) {A : Type 0} (c : Bool) (m n : M A)
      → Keeps k m
      → Keeps k n
      → Keeps k (if c then m else n)
  may_do k c m n hm hn os s h =
      Ends-if (λ _. Calm k) (Over k) c m n os s (λ _. hm os s h) (λ _. hn os s h)

  after_writing-Finishes :
      (n rleft : ℕ) (acc : Bytes) (readable : Bool) (again : Again) (w : Option ℕ)
      → n ≤ 10
      → Rest n again
      → Finishes (n - 5) (after_writing again rleft acc n readable w)
  unfolding after_writing
  after_writing-Finishes n rleft acc readable again none h go os s c = within n s h c
  after_writing-Finishes n rleft acc readable again (some wleft) h go os s c =
      into_round n (if readable then read_some rleft rleft acc else pure (some (rleft, acc)))
        (after_reading again wleft n) h
        (may_do (n - 5) readable (read_some rleft rleft acc) (pure (some (rleft, acc)))
          (read_some-Keeps (n - 5) rleft rleft acc) (λ os t k. k))
        (λ r. after_reading-Finishes n wleft again r h go) os s c

  on_ready-Finishes :
      (n rleft wleft : ℕ) (acc : Bytes) (again : Again) (r : PollReply)
      → n ≤ 10
      → Rest n again
      → Finishes (n - 5) (on_ready again rleft wleft acc n r)
  unfolding on_ready
  on_ready-Finishes n rleft wleft acc again timed_out h go os s c = within n s h c
  on_ready-Finishes n rleft wleft acc again poll_error h go os s c = within n s h c
  on_ready-Finishes n rleft wleft acc again (ready writable readable) h go os s c =
      into_round n (if ltb 0 wleft && writable then write_some wleft wleft else pure (some wleft))
        (after_writing again rleft acc n readable) h
        (may_do (n - 5) (ltb 0 wleft && writable) (write_some wleft wleft) (pure (some wleft))
          (write_some-Keeps (n - 5) wleft wleft) (λ os t k. k))
        (λ w. after_writing-Finishes n rleft acc readable again w h go) os s c

  exchange-Finishes : (rounds n : ℕ) → rounds + n ≡ 12 → n ≤ 10 → Goes n (exchange rounds)
  unfolding exchange
  exchange-Finishes zero n e h rleft wleft acc os s c = absurd (omega arith)
  exchange-Finishes (suc rounds) n e h rleft wleft acc os s c =
      Ends-if (λ _. Calm 6) (Over 6) (rleft == 0) (pure (complete acc))
        (poll >>= on_ready (exchange rounds) rleft wleft acc n) os s (λ _. within n s h c)
        (λ _.
          into_round n poll (on_ready (exchange rounds) rleft wleft acc n) h (poll-Keeps (n - 5))
            (λ r.
              on_ready-Finishes n rleft wleft acc (exchange rounds) r h
                (λ more. exchange-Finishes rounds (n + 1) (omega arith) more))
            os s c)

-- From a state with no armed jump conn_send_and_receive always comes to an end, whatever the sockets
-- do: it returns, or a signal that arrives ends the process. It has slept for six seconds at most.
pub conn_send_and_receive_six_seconds :
    (len : ℕ) (os : Os) (s : State)
    → s.dolongjmp ≡ false
    → Ends
        (λ _ t. slept t.trace ≤ slept s.trace + 6)
        (λ t. slept t.trace ≤ slept s.trace + 6)
        (conn_send_and_receive len os s)
unfolding conn_send_and_receive
conn_send_and_receive_six_seconds len os s e =
    Ends-weaken (λ _ t k. k.0) (λ t k. k) (exchange 12 len len [] 0 os s)
      (exchange-Finishes s 12 0 refl (omega arith) len len [] os s (omega arith, e))
