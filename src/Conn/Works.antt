-- ===== src/Conn/Works.antt =====
-- conn_test believes in a tunnel that works.
use autossh_1_4g.Base.{
  ℕ, suc, ◌+◌, ◌++◌, ◌<◌, ◌≡◌, refl, ap, sym, subst, Bool, true, false, Option, none, some, List,
  [], ◌∷◌, leb, length, length-append, arith, if◌then◌else◌,
}
use autossh_1_4g.Base.Int.{ℤ}
use autossh_1_4g.Base.Bytes.{Bytes, bytes_eq, decimal}
use autossh_1_4g.Posix.{Os, connected, ready}
use autossh_1_4g.Process.{State, M, pure, ◌>>=◌, ◌>>◌}
use autossh_1_4g.Process.Triple.{Ends, Ends-continue, Ends-if}
use autossh_1_4g.Drain.{c_str}
use autossh_1_4g.Log.{xerrlog}
use autossh_1_4g.Conn.{
  max_conn_tries, buf_sz, has_read_socket, poll, after_connect, conn_remote, after_accept_poll,
  conn_poll_for_accept, complete, conn_send_and_receive, hello, hang_up_on, Tried, judge_exchange,
  try_accepted, try_once, after_try, try_loop, test_connected, conn_test,
}
use autossh_1_4g.Conn.Verdict.{hello_of}
use autossh_1_4g.Conn.Healthy.{
  total, join, Takes, Brings, Gives, poll-Gives, conn_send_and_receive-Completes,
}

bytes_eq_refl : (xs : Bytes) → bytes_eq xs xs ≡ true
bytes_eq_refl [] = refl
bytes_eq_refl (x ∷ xs) = ground (arith, bytes_eq_refl xs)

-- The number of the first write of a test that begins at call n: it comes behind random, connect and
-- a poll, and for a listening socket also behind a poll and accept.
abbrev pub first_write : ℤ → ℕ → ℕ
first_write sock n = if has_read_socket sock then 5 + n else 3 + n

module _ (os : Os) (quiet : (n : ℕ) → os.arrivals n ≡ [])
    (willing : (n : ℕ) → os.poll n ≡ ready true true) (rd : ℕ)
    (accepts : (n : ℕ) → os.accept n ≡ some rd) (message : Bytes) (ns : List ℕ) (ps : List Bytes)
    (text : c_str message ≡ message) (fits : length message < buf_sz) (filled : 0 < length message)
    (sent : total ns ≡ length message) (same : join ps ≡ message) where
  -- From call k on the kernel takes the message and brings it back.
  abbrev Echoes : ℕ → Type 0
  Echoes k = Takes os k ns × Brings os (k + length ns) ps

  abbrev Succeeds : M Tried → State → Type 0
  Succeeds m s = Gives os (λ t k. t.0 ≡ some true) m s

  judge-true : (rd : Option ℕ) → (judge_exchange message rd (complete (join ps))).0 ≡ some true
  unfolding judge_exchange
  judge-true rd = rw (same, text, bytes_eq_refl message) refl

  exchange-Succeeds :
      (rd : Option ℕ) (s : State)
      → Echoes (suc s.calls)
      → Succeeds
          (conn_send_and_receive (length message) >>= λ r. pure (judge_exchange message rd r))
          s
  exchange-Succeeds rd s h =
      Ends-continue (λ r t. r ≡ complete (join ps)) (λ t u. t.0 ≡ some true) (λ _. ⊥) os
        (conn_send_and_receive (length message) os s) (λ r. pure (judge_exchange message rd r))
        (conn_send_and_receive-Completes os quiet willing (length message) ns ps s filled sent h.0
          (ap length same) h.1)
        (λ r t e. subst (λ r. (judge_exchange message rd r).0 ≡ some true) (sym e) (judge-true rd))

  conn_poll_for_accept-Gives :
      (s : State) → Gives os (λ r k. (r ≡ some rd) × (k ≡ suc (suc s.calls))) conn_poll_for_accept s
  unfolding conn_poll_for_accept after_accept_poll
  conn_poll_for_accept-Gives s =
      Ends-continue (λ r t. (r ≡ ready true true) × (t.calls ≡ suc s.calls))
        (λ r t. (r ≡ some rd) × (t.calls ≡ suc (suc s.calls))) (λ _. ⊥) os (poll os s)
        after_accept_poll (poll-Gives os quiet willing s)
        (λ r t h.
          subst
            (λ r. Gives os (λ r k. (r ≡ some rd) × (k ≡ suc (suc s.calls))) (after_accept_poll r) t)
            (sym h.0) (accepts t.calls, omega arith))

  accepted-Succeeds :
      (r : Option ℕ) (t : State)
      → r ≡ some rd
      → Echoes (suc t.calls)
      → Succeeds (try_accepted message r) t
  unfolding try_accepted
  accepted-Succeeds r t e h =
      subst (λ r. Succeeds (try_accepted message r) t) (sym e) (exchange-Succeeds (some rd) t h)

  try_once-Succeeds :
      (sock : ℤ) (s : State)
      → Echoes (if has_read_socket sock then 3 + s.calls else 1 + s.calls)
      → Succeeds (try_once sock message) s
  unfolding try_once
  try_once-Succeeds sock s h =
      Ends-if (λ t u. t.0 ≡ some true) (λ _. ⊥) (leb buf_sz (length message)) xerrlog
        (if has_read_socket sock
          then (conn_poll_for_accept >>= try_accepted message)
          else (conn_send_and_receive (length message) >>= λ r.
              pure (judge_exchange message none r)))
        os s (λ long. absurd (ground arith))
        (λ _.
          Ends-if (λ t u. t.0 ≡ some true) (λ _. ⊥) (has_read_socket sock)
            (conn_poll_for_accept >>= try_accepted message)
            (conn_send_and_receive (length message) >>= λ r. pure (judge_exchange message none r))
            os s
            (λ listening.
              Ends-continue (λ r t. (r ≡ some rd) × (t.calls ≡ suc (suc s.calls)))
                (λ t u. t.0 ≡ some true) (λ _. ⊥) os (conn_poll_for_accept os s)
                (try_accepted message) (conn_poll_for_accept-Gives s)
                (λ r t e.
                  accepted-Succeeds r t e.0 (subst Echoes (rw (listening, e.1) (omega arith)) h)))
            (λ echo. exchange-Succeeds none s (subst Echoes (rw echo (omega arith)) h)))

  abbrev HoldsTrue : M (Bool × Option ℕ) → State → Type 0
  HoldsTrue m s = Gives os (λ o k. o.0 ≡ true) m s

  after_try-HoldsTrue :
      (again : Option ℕ → M (Bool × Option ℕ)) (t : Tried) (s : State)
      → t.0 ≡ some true
      → HoldsTrue (after_try again t) s
  unfolding after_try
  after_try-HoldsTrue again (some true, rd) s e = refl
  after_try-HoldsTrue again (some false, rd) s e = cc
  after_try-HoldsTrue again (none, rd) s e = cc

  -- The first try is enough.
  try_loop-HoldsTrue :
      (sock : ℤ) (s : State)
      → Echoes (if has_read_socket sock then 3 + s.calls else 1 + s.calls)
      → HoldsTrue (try_loop max_conn_tries 0 sock message none) s
  unfolding try_loop hang_up_on
  try_loop-HoldsTrue sock s h =
      let again : Option ℕ → M (Bool × Option ℕ) = λ rd'. try_loop 2 (0 + 1) sock message rd' in
      Ends-continue (λ t u. t.0 ≡ some true) (λ o u. o.0 ≡ true) (λ _. ⊥) os
        (try_once sock message os s) (after_try again) (try_once-Succeeds sock s h)
        (λ t u e. after_try-HoldsTrue again t u e)

  hang_up_on-returns : (fd : Option ℕ) (s : State) → Gives os (λ _ k. Unit {0}) (hang_up_on fd) s
  unfolding hang_up_on
  hang_up_on-returns none s = tt
  hang_up_on-returns (some fd) s = tt

  test_connected-true :
      (sock : ℤ) (wd : ℕ) (s : State)
      → Echoes (if has_read_socket sock then 3 + s.calls else 1 + s.calls)
      → Gives os (λ ok k. ok ≡ true) (test_connected sock message (some wd)) s
  unfolding test_connected
  test_connected-true sock wd s h =
      Ends-continue (λ o u. o.0 ≡ true) (λ ok u. ok ≡ true) (λ _. ⊥) os
        (try_loop max_conn_tries 0 sock message none os s)
        (λ o. hang_up_on (some wd) >> (hang_up_on o.1 >> pure o.0)) (try_loop-HoldsTrue sock s h)
        (λ o t e.
          Ends-continue (λ _ u. Unit {0}) (λ ok u. ok ≡ true) (λ _. ⊥) os
            (hang_up_on (some wd) os t) (λ _. hang_up_on o.1 >> pure o.0)
            (hang_up_on-returns (some wd) t)
            (λ _ u k.
              Ends-continue (λ _ u. Unit {0}) (λ ok u. ok ≡ true) (λ _. ⊥) os (hang_up_on o.1 os u)
                (λ _. pure o.0) (hang_up_on-returns o.1 u) (λ _ v k. e)))

length-hello : (node prog : Bytes) (pid id : ℕ) (m : Bytes) → 0 < length (hello node prog pid id m)
unfolding hello
length-hello node prog pid id m = omega (
  arith,
  length-append {0} node
      (32 ∷ prog ++ (32 ∷ decimal pid ++ (32 ∷ decimal id ++ (32 ∷ m ++ 13 ∷ 10 ∷ [])))),
)

-- conn_test believes in a tunnel that works: no signal arrives, the connections are made, poll
-- always finds both sides ready, the message holds no NUL byte and has fewer bytes than the buffer,
-- the writes of the first exchange take the message in pieces that are not empty, and the reads
-- behind them return it in pieces that are not empty. conn_test then returns true.
pub conn_test-true :
    (sock : ℤ) (port : Bytes) (os : Os) (s : State) (wd rd : ℕ) (ns : List ℕ) (ps : List Bytes)
    → ((n : ℕ) → os.arrivals n ≡ [])
    → os.connect (suc s.calls) ≡ connected wd
    → ((n : ℕ) → os.poll n ≡ ready true true)
    → ((n : ℕ) → os.accept n ≡ some rd)
    → c_str (hello_of os s) ≡ hello_of os s
    → length (hello_of os s) < buf_sz
    → total ns ≡ length (hello_of os s)
    → join ps ≡ hello_of os s
    → Takes os (first_write sock s.calls) ns
    → Brings os (first_write sock s.calls + length ns) ps
    → Ends (λ ok t. ok ≡ true) (λ _. ⊥) (conn_test sock port os s)
unfolding conn_test conn_remote after_connect
conn_test-true sock port os s wd rd ns ps quiet joined willing accepts text fits sent same ts bs =
    let message = hello_of os s in
    let s' = record s { calls = suc (suc s.calls) } in
    let h : Takes os (first_write sock s.calls) ns
        × Brings os (first_write sock s.calls + length ns) ps =
      (ts, bs) in
    subst
      (λ r.
        Ends (λ ok t. ok ≡ true) (λ _. ⊥) ((after_connect r >>= test_connected sock message) os s'))
      (sym joined)
      (test_connected-true os quiet willing rd accepts message ns ps text fits
        (length-hello os.nodename os.progname os.pid (os.random s.calls) s.echo_message) sent same
        sock wd s'
        (subst (λ k. Takes os k ns × Brings os (k + length ns) ps)
          (counted (has_read_socket sock) s.calls) h))
  where
    counted :
        (c : Bool) (n : ℕ)
        → (if c then 5 + n else 3 + n) ≡ (if c then 3 + suc (suc n) else 1 + suc (suc n))
    counted true n = omega arith
    counted false n = omega arith
