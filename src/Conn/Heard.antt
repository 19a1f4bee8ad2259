-- ===== src/Conn/Heard.antt =====
-- What the reads of a run have returned, and the calls of conn_test that neither read nor send.
use autossh_1_4g.Base.{
  ℕ, suc, ◌≤◌, ◌<◌, ◌≡◌, refl, ap, Bool, true, false, Option, none, some, List, [], ◌∷◌, ◌++◌,
  arith,
}
use autossh_1_4g.Base.Bytes.{Bytes}
use autossh_1_4g.Posix.{
  Call, Os, ConnectReply, no_socket, refused, connected, PollReply, timed_out, poll_error, ready,
  got,
}
use autossh_1_4g.Process.{State, M, pure, quit, ◌>>◌}
use autossh_1_4g.Process.Triple.{Ends, Ends-continue, Ends-weaken}
use autossh_1_4g.Signals.{deliver, sleep}
use autossh_1_4g.Signals.Delivery.{deliver-keeps, sleep-keeps}
use autossh_1_4g.Kill.{ssh_kill}
use autossh_1_4g.Log.{xerrlog, unlink_pid_file}
use autossh_1_4g.Conn.{
  poll, after_connect, conn_remote, after_accept_poll, conn_poll_for_accept, hang_up_on,
}
use autossh_1_4g.Watch.Invariant.{Keep, Within, Left, ssh_kill-Left}

-- Reads with the numbers of their calls, the latest first.
abbrev pub Reads : Type 0
Reads = List (ℕ × Bytes)

-- The bytes that they returned, one behind the other.
abbrev pub heard : Reads → Bytes
heard [] = []
heard ((k, bs) ∷ rs) = heard rs ++ bs

-- The kernel answered these reads, in this order, between the calls `from` and `upto` of a run.
abbrev pub AreReads : Os → ℕ → Reads → ℕ → Type 0
AreReads os from [] upto = from ≤ upto
AreReads os from ((k, bs) ∷ rs) upto = (k < upto) × (os.read k ≡ got bs) × AreReads os from rs k

AreReads-later :
    (os : Os) (from m n : ℕ) (rs : Reads) → m ≤ n → AreReads os from rs m → AreReads os from rs n
AreReads-later os from m n [] h a = omega arith
AreReads-later os from m n ((k, bs) ∷ rs) h a = (omega arith, a.1, a.2)

AreReads-from : (os : Os) (from n : ℕ) (rs : Reads) → AreReads os from rs n → from ≤ n
AreReads-from os from n [] a = a
AreReads-from os from n ((k, bs) ∷ rs) a = omega (arith, AreReads-from os from k rs a.2)

module _ (b : State) (os : Os) (from : ℕ) where
  -- conn_test holds the bytes `acc` in its buffer, and all of them came from reads of this run.
  pub record Kept (acc : Bytes) (s : State) : Type 0 where
    pub within : Within b s
    pub reads : Reads
    pub are_reads : AreReads os from reads s.calls
    pub all_of_them : heard reads ≡ acc

  abbrev pub Keeps : Bytes → {A : Type 0} → M A → Type 0
  Keeps acc m = (s : State) → Kept acc s → Ends (λ _. Kept acc) (Keep b) (m os s)

  moved : (acc : Bytes) (s t : State) → Kept acc s → Within b t → s.calls ≤ t.calls → Kept acc t
  moved acc s t h w le = record {
    within = w;
    reads = h.reads;
    are_reads = AreReads-later os from s.calls t.calls h.reads le h.are_reads;
    all_of_them = h.all_of_them;
  }

  -- After one call, that changed nothing else.
  pub called : (acc : Bytes) (s : State) → Kept acc s → Kept acc (record s { calls = suc s.calls })
  called acc s h = moved acc s _ h h.within (omega arith)

  -- A fresh buffer.
  pub emptied : (acc : Bytes) (s : State) → Kept acc s → Kept [] s
  emptied acc s h = record {
    within = h.within;
    reads = [];
    are_reads = AreReads-from os from s.calls h.reads h.are_reads;
    all_of_them = refl;
  }

  -- A read returned.
  pub read_more :
      (acc bs : Bytes) (s : State)
      → Kept acc s
      → os.read s.calls ≡ got bs
      → Kept (acc ++ bs) (record s { calls = suc s.calls })
  read_more acc bs s h e = record {
    within = h.within;
    reads = (s.calls, bs) ∷ h.reads;
    are_reads = (omega arith, e, h.are_reads);
    all_of_them = ap (λ xs. xs ++ bs) h.all_of_them;
  }

  flagged :
      (acc : Bytes) (s : State) (r e : Bool)
      → Kept acc s
      → Kept acc (record s { restart_ssh = r; exit_signalled = e })
  flagged acc s r e h = moved acc s _ h h.within (omega arith)

  noted :
      (acc : Bytes) (s : State)
      → Kept acc s
      → Kept acc (record s { trace = Call.end_signal ∷ s.trace })
  noted acc s h = moved acc s _ h h.within (omega arith)

  pub sleep-Keeps : (acc : Bytes) (n : ℕ) → Keeps acc (sleep n)
  sleep-Keeps acc n s h =
      Ends-weaken (λ _ t k. k.0) (λ t k. k.within.0) (sleep n os s)
        (sleep-keeps (Kept acc) (flagged acc) (noted acc) n os s
          (moved acc s _ h h.within (omega arith), h.within.2))

  pub poll-Keeps : (acc : Bytes) → Keeps acc poll
  unfolding poll
  poll-Keeps acc s h =
      Ends-continue (λ _. Kept acc) (λ _. Kept acc) (Keep b) os
        (deliver (os.arrivals s.calls) os (record s { calls = suc s.calls }))
        (λ _. pure (os.poll s.calls))
        (Ends-weaken (λ _ t k. k.0) (λ t k. k.within.0)
          (deliver (os.arrivals s.calls) os (record s { calls = suc s.calls }))
          (deliver-keeps (Kept acc) (flagged acc) (noted acc) (os.arrivals s.calls) os _
            (called acc s h, h.within.2)))
        (λ _ t k. k)

  unlink-Keep : (s : State) → Left b s → Ends (λ _. Left b) (Keep b) (unlink_pid_file os s)
  unfolding unlink_pid_file
  unlink-Keep s h = ground arith

  -- xerrlog does not return.
  pub xerrlog-Ends :
      {A : Type 0} (Q : A → State → Type 0) (s : State)
      → Within b s
      → Ends Q (Keep b) (xerrlog {A = A} os s)
  unfolding xerrlog
  xerrlog-Ends Q s h =
      Ends-continue (λ _. Left b) Q (Keep b) os (ssh_kill os s)
        (λ _ os t. (unlink_pid_file >> quit 1) os t) (ssh_kill-Left b os s h)
        (λ _ t k.
          Ends-continue (λ _. Left b) Q (Keep b) os (unlink_pid_file os t) (λ _. quit 1)
            (unlink-Keep t k) (λ _ u k'. k'.0))

  pub hang_up_on-Keeps : (acc : Bytes) (fd : Option ℕ) → Keeps acc (hang_up_on fd)
  unfolding hang_up_on
  hang_up_on-Keeps acc none s h = h
  hang_up_on-Keeps acc (some fd) s h = moved acc s _ h h.within (omega arith)

  after_connect-Keeps : (acc : Bytes) (r : ConnectReply) → Keeps acc (after_connect r)
  unfolding after_connect
  after_connect-Keeps acc no_socket s h = xerrlog-Ends (λ _. Kept acc) s h.within
  after_connect-Keeps acc (refused fd) s h = moved acc s _ h h.within (omega arith)
  after_connect-Keeps acc (connected fd) s h = h

  pub conn_remote-Keeps : (acc : Bytes) → Keeps acc conn_remote
  unfolding conn_remote
  conn_remote-Keeps acc s h = after_connect-Keeps acc (os.connect s.calls) _ (called acc s h)

  after_accept_poll-Keeps : (acc : Bytes) (r : PollReply) → Keeps acc (after_accept_poll r)
  unfolding after_accept_poll
  after_accept_poll-Keeps acc timed_out s h = h
  after_accept_poll-Keeps acc poll_error s h = h
  after_accept_poll-Keeps acc (ready out true) s h = called acc s h
  after_accept_poll-Keeps acc (ready out false) s h = h

  pub conn_poll_for_accept-Keeps : (acc : Bytes) → Keeps acc conn_poll_for_accept
  unfolding conn_poll_for_accept
  conn_poll_for_accept-Keeps acc s h =
      Ends-continue (λ _. Kept acc) (λ _. Kept acc) (Keep b) os (poll os s) after_accept_poll
        (poll-Keeps acc s h) (λ r t k. after_accept_poll-Keeps acc r t k)
