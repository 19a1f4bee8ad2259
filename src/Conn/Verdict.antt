-- ===== src/Conn/Verdict.antt =====
-- conn_test comes to an end, and believes in the tunnel only if the message came back.
use autossh_1_4g.Base.{
  ℕ, zero, suc, ◌+◌, ◌≡◌, refl, ap, ◌∙◌, Bool, true, false, Option, none, some, [], ◌∷◌, leb,
  Bool-cases, inl, inr, length, arith, if◌then◌else◌,
}
use autossh_1_4g.Base.Int.{ℤ}
use autossh_1_4g.Base.Bytes.{Bytes, bytes_eq}
use autossh_1_4g.Posix.{Os}
use autossh_1_4g.Process.{State, M, pure, ◌>>=◌, ◌>>◌}
use autossh_1_4g.Process.Triple.{Ends, Ends-continue, Ends-weaken, Ends-if}
use autossh_1_4g.Drain.{c_str}
use autossh_1_4g.Log.{xerrlog}
use autossh_1_4g.Conn.{
  max_conn_tries, buf_sz, has_read_socket, conn_remote, conn_poll_for_accept, Exchange, complete,
  slow, broken, conn_send_and_receive, hello, hang_up_on, Tried, judge_exchange, try_accepted,
  try_once, after_try, try_loop, test_connected, conn_test,
}
use autossh_1_4g.Kill.Safety.{IsTidy}
use autossh_1_4g.Watch.Invariant.{Keep, Within}
use autossh_1_4g.Conn.Heard.{
  Reads, heard, AreReads, Kept, called, emptied, xerrlog-Ends, hang_up_on-Keeps, conn_remote-Keeps,
  conn_poll_for_accept-Keeps,
}
use autossh_1_4g.Conn.Buffer.{Answered, conn_send_and_receive-Answered}

bytes_eq→eq : (xs ys : Bytes) → bytes_eq xs ys ≡ true → xs ≡ ys
bytes_eq→eq [] [] e = refl
bytes_eq→eq [] (y ∷ ys) e = cc
bytes_eq→eq (x ∷ xs) [] e = cc
bytes_eq→eq (x ∷ xs) (y ∷ ys) e = ground (arith, bytes_eq→eq xs ys)

-- The message came back: some reads between two calls of the run returned it, as a C string.
abbrev pub CameBack : Os → Bytes → ℕ → ℕ → Type 0
CameBack os message from upto =
    (rs : Reads) × AreReads os from rs upto × (c_str (heard rs) ≡ message)

module _ (b : State) (os : Os) (from : ℕ) (message : Bytes) where
  abbrev Proven : State → Type 0
  Proven s = (acc : Bytes) × Kept b os from acc s × (c_str acc ≡ message)

  -- true is a verdict only with the message in the buffer.
  abbrev Judged : Option Bool → State → Type 0
  Judged (some true) s = Proven s
  Judged _ s = Kept b os from [] s

  judge_exchange-Judged :
      (rd : Option ℕ) (r : Exchange) (s : State)
      → Answered b os from r s
      → Judged (judge_exchange message rd r).0 s
  unfolding judge_exchange
  judge_exchange-Judged rd (complete acc) s h = elim (Bool-cases (bytes_eq (c_str acc) message)) [
    | inl same ↦ rw same (acc, h, bytes_eq→eq (c_str acc) message same)
    | inr other ↦ rw other (emptied b os from acc s h)
  ]
  judge_exchange-Judged rd slow s h = h
  judge_exchange-Judged rd broken s h = h

  -- A try starts with an empty buffer.
  abbrev Tries : M Tried → Type 0
  Tries m = (s : State) → Kept b os from [] s → Ends (λ t. Judged t.0) (Keep b) (m os s)

  exchanged :
      (rd : Option ℕ)
      → Tries (conn_send_and_receive (length message) >>= λ r. pure (judge_exchange message rd r))
  exchanged rd s h =
      Ends-continue (Answered b os from) (λ t. Judged t.0) (Keep b) os
        (conn_send_and_receive (length message) os s) (λ r. pure (judge_exchange message rd r))
        (conn_send_and_receive-Answered b os from (length message) s h)
        (λ r t k. judge_exchange-Judged rd r t k)

  try_accepted-Tries : (rd : Option ℕ) → Tries (try_accepted message rd)
  unfolding try_accepted
  try_accepted-Tries none s h = h
  try_accepted-Tries (some rd) s h = exchanged (some rd) s h

  try_once-Tries : (sock : ℤ) → Tries (try_once sock message)
  unfolding try_once
  try_once-Tries sock s h =
      Ends-if (λ t. Judged t.0) (Keep b) (leb buf_sz (length message)) xerrlog
        (if has_read_socket sock
          then (conn_poll_for_accept >>= try_accepted message)
          else (conn_send_and_receive (length message) >>= λ r.
              pure (judge_exchange message none r)))
        os s (λ _. xerrlog-Ends b os from (λ t. Judged t.0) s h.within)
        (λ _.
          Ends-if (λ t. Judged t.0) (Keep b) (has_read_socket sock)
            (conn_poll_for_accept >>= try_accepted message)
            (conn_send_and_receive (length message) >>= λ r. pure (judge_exchange message none r))
            os s
            (λ _.
              Ends-continue (λ _. Kept b os from []) (λ t. Judged t.0) (Keep b) os
                (conn_poll_for_accept os s) (try_accepted message)
                (conn_poll_for_accept-Keeps b os from [] s h) (λ rd t k. try_accepted-Tries rd t k))
            (λ _. exchanged none s h))

  -- The verdict of the loop, and of the whole test.
  abbrev Concluded : Bool → State → Type 0
  Concluded true s = Proven s
  Concluded false s = Kept b os from [] s

  abbrev Concludes : M (Bool × Option ℕ) → Type 0
  Concludes m = (s : State) → Kept b os from [] s → Ends (λ o. Concluded o.0) (Keep b) (m os s)

  after_try-Concluded :
      (again : Option ℕ → M (Bool × Option ℕ)) (t : Tried) (s : State)
      → ((rd : Option ℕ) → Concludes (again rd))
      → Judged t.0 s
      → Ends (λ o. Concluded o.0) (Keep b) (after_try again t os s)
  unfolding after_try
  after_try-Concluded again (some true, rd) s go h = h
  after_try-Concluded again (some false, rd) s go h = h
  after_try-Concluded again (none, rd) s go h = go rd s h

  try_loop-Concludes :
      (left tries : ℕ) (sock : ℤ) (rd : Option ℕ) → Concludes (try_loop left tries sock message rd)
  unfolding try_loop
  try_loop-Concludes zero tries sock rd s h = h
  try_loop-Concludes (suc left) tries sock rd s h =
      let again : Option ℕ → M (Bool × Option ℕ) =
        λ rd'. try_loop left (tries + 1) sock message rd' in
      Ends-if (λ o. Concluded o.0) (Keep b) (leb max_conn_tries (tries + 1)) (pure (false, rd))
        (hang_up_on rd >> (try_once sock message >>= after_try again)) os s (λ _. h)
        (λ _.
          Ends-continue (λ _. Kept b os from []) (λ o. Concluded o.0) (Keep b) os
            (hang_up_on rd os s) (λ _. try_once sock message >>= after_try again)
            (hang_up_on-Keeps b os from [] rd s h)
            (λ _ t k.
              Ends-continue (λ r. Judged r.0) (λ o. Concluded o.0) (Keep b) os
                (try_once sock message os t) (after_try again) (try_once-Tries sock t k)
                (λ r u j.
                  after_try-Concluded again r u (try_loop-Concludes left (tries + 1) sock) j)))

  -- Closing a descriptor does not change the verdict.
  hang_up_on-Concluded :
      (ok : Bool) (fd : Option ℕ) (s : State)
      → Concluded ok s
      → Ends (λ _. Concluded ok) (Keep b) (hang_up_on fd os s)
  hang_up_on-Concluded true fd s h =
      Ends-weaken (λ _ t k. (h.0, k, h.2)) (λ t k. k) (hang_up_on fd os s)
        (hang_up_on-Keeps b os from h.0 fd s h.1)
  hang_up_on-Concluded false fd s h = hang_up_on-Keeps b os from [] fd s h

  test_connected-Concluded :
      (sock : ℤ) (wd : Option ℕ) (s : State)
      → Kept b os from [] s
      → Ends Concluded (Keep b) (test_connected sock message wd os s)
  unfolding test_connected
  test_connected-Concluded sock none s h = h
  test_connected-Concluded sock (some wd) s h =
      Ends-continue (λ o. Concluded o.0) Concluded (Keep b) os
        (try_loop max_conn_tries 0 sock message none os s)
        (λ o. hang_up_on (some wd) >> (hang_up_on o.1 >> pure o.0))
        (try_loop-Concludes max_conn_tries 0 sock none s h)
        (λ o t k.
          Ends-continue (λ _. Concluded o.0) Concluded (Keep b) os (hang_up_on (some wd) os t)
            (λ _. hang_up_on o.1 >> pure o.0) (hang_up_on-Concluded o.0 (some wd) t k)
            (λ _ u j.
              Ends-continue (λ _. Concluded o.0) Concluded (Keep b) os (hang_up_on o.1 os u)
                (λ _. pure o.0) (hang_up_on-Concluded o.0 o.1 u j) (λ _ v i. i)))

-- The message of a test that begins in the state s.
abbrev pub hello_of : Os → State → Bytes
hello_of os s = hello os.nodename os.progname os.pid (os.random s.calls) s.echo_message

-- The whole of what is known of a test: it ends, and keeps the child and the settings.
conn_test-Concluded :
    (b : State) (sock : ℤ) (port : Bytes) (os : Os) (s : State)
    → Within b s
    → Ends (Concluded b os s.calls (hello_of os s)) (Keep b) (conn_test sock port os s)
unfolding conn_test
conn_test-Concluded b sock port os s h =
    let message = hello_of os s in
    let fresh : Kept b os s.calls [] s = record {
      within = h;
      reads = [];
      are_reads = omega arith;
      all_of_them = refl;
    } in
    Ends-continue (λ _. Kept b os s.calls []) (Concluded b os s.calls message) (Keep b) os
      (conn_remote os (record s { calls = suc s.calls })) (test_connected sock message)
      (conn_remote-Keeps b os s.calls [] _ (called b os s.calls [] s fresh))
      (λ wd t k. test_connected-Concluded b os s.calls message sock wd t k)

pub conn_test-Within :
    (b : State) (sock : ℤ) (port : Bytes) (os : Os) (s : State)
    → Within b s
    → Ends (λ _. Within b) (Keep b) (conn_test sock port os s)
conn_test-Within b sock port os s h =
    Ends-weaken concluded (λ t k. k) (conn_test sock port os s)
      (conn_test-Concluded b sock port os s h)
  where
    concluded : (ok : Bool) (t : State) → Concluded b os s.calls (hello_of os s) ok t → Within b t
    concluded true t c = c.1.within
    concluded false t c = c.within

-- From a state with no armed jump whose child, if any, is the last one forked, conn_test always
-- comes to an end, whatever the sockets do: it returns, or the process is ended. It returns true
-- only if reads of this very test returned, one behind the other, a text that begins with the
-- message, which holds a number drawn in the test, with a NUL byte or the text's end behind it.
pub conn_test-CameBack :
    (sock : ℤ) (port : Bytes) (os : Os) (s : State)
    → IsTidy s
    → Ends
        (λ ok t. ok ≡ true → CameBack os (hello_of os s) s.calls t.calls)
        (λ _. Unit)
        (conn_test sock port os s)
conn_test-CameBack sock port os s h =
    Ends-weaken concluded (λ t k. tt) (conn_test sock port os s)
      (conn_test-Concluded s sock port os s ((refl, refl, refl, refl, h.0), h.1, h.2))
  where
    concluded :
        (ok : Bool) (t : State)
        → Concluded s os s.calls (hello_of os s) ok t
        → ok ≡ true
        → CameBack os (hello_of os s) s.calls t.calls
    concluded true t (acc, k, e) _ = (k.reads, k.are_reads, ap c_str k.all_of_them ∙ e)
    concluded false t c e = cc
