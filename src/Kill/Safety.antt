-- ===== src/Kill/Safety.antt =====
-- Whom ssh_kill signals, and what it leaves.
use autossh_1_4g.Base.{
  ℕ, zero, suc, ◌+◌, ◌≤◌, ◌<◌, ◌≡◌, refl, Bool, true, false, none, ◌⊎◌, inl, inr, arith, Bool-cases,
  ◌==◌, if◌then◌else◌,
}
use autossh_1_4g.Posix.{Os, Errno, Status, WaitReply, reaped, not_yet, failed}
use autossh_1_4g.Process.{State, M, pure, modify, ◌>>◌}
use autossh_1_4g.Process.Trace.{live_child, KillsLive, slept, forks}
use autossh_1_4g.Process.Triple.{Ends, Ends-continue, Ends-weaken}
use autossh_1_4g.Signals.{sleep}
use autossh_1_4g.Signals.Delivery.{sleep-keeps}
use autossh_1_4g.Kill.{
  sigterm_grace, sigkill_wait, note_reap, close_stderr, after_waitpid, reap_with_grace, escalate,
  kill_child, ssh_kill,
}

-- What the teardown leaves alone, no signal that went astray, and the time it may take.
abbrev pub Frame : State → State → Type 0
Frame b s =
    (s.settings ≡ b.settings)
    × (s.start_count ≡ b.start_count)
    × (s.masked ≡ b.masked)
    × (s.handlers ≡ b.handlers)
    × (forks s.trace ≡ forks b.trace)
    × (slept s.trace ≤ slept b.trace + 4)
    × KillsLive s.trace

-- The child, if there is one, is the last one forked.
abbrev pub Linked : State → Type 0
Linked s = (s.cchild ≡ 0) ⊎ (s.cchild ≡ live_child s.trace)

module _ (b : State) where
  -- The child is alive, with k seconds to spare.
  abbrev Alive : ℕ → State → Type 0
  Alive k s =
      Frame b s
      × (s.cchild ≡ live_child s.trace)
      × (0 < s.cchild)
      × (s.ssh_stderr_fd ≡ none)
      × (slept s.trace + k ≤ slept b.trace + 4)

  abbrev Waiting : ℕ → State → Type 0
  Waiting k s = Alive k s × (s.dolongjmp ≡ false)

  abbrev pub Gone : State → Type 0
  Gone s = Frame b s × (s.cchild ≡ 0) × (s.ssh_stderr_fd ≡ none) × (s.dolongjmp ≡ false)

  abbrev Polled : ℕ → Bool → State → Type 0
  Polled k true s = Gone s
  Polled k false s = Waiting k s

  abbrev after_call : WaitReply → State → State
  after_call r s = record s { calls = suc s.calls; trace = note_reap r s.cchild s.trace }

  -- One round of the poll, whatever waitpid answers.
  round-Polled :
      (j k : ℕ) (again : M Bool) (r : WaitReply) (os : Os) (s : State)
      → ((s : State) → Waiting j s → Ends (Polled k) (Frame b) (again os s))
      → Waiting j s
      → Ends (Polled k) (Frame b) (after_waitpid again r os (after_call r s))
  unfolding after_waitpid
  round-Polled j k again (reaped (Status.exited n)) os s go h = ground arith
  round-Polled j k again (reaped (Status.signaled n)) os s go h = ground arith
  round-Polled j k again (reaped Status.stopped) os s go h = ground arith
  round-Polled j k again not_yet os s go h = go _ h
  round-Polled j k again (failed Errno.echild) os s go h = ground arith
  round-Polled j k again (failed Errno.eintr) os s go h = go _ h
  round-Polled j k again (failed _) os s go h = ground arith

  sleep-Waiting :
      (j k : ℕ) (os : Os) (s : State)
      → j ≡ suc k
      → Waiting j s
      → Ends (λ _. Waiting k) (Frame b) (sleep 1 os s)
  sleep-Waiting j k os s e h =
      Ends-weaken (λ _ t h'. h') (λ t h'. h'.0) (sleep 1 os s)
        (sleep-keeps (Alive k) (λ t r e h'. h') (λ t h'. h') 1 os s (ground arith))

  reap_with_grace-Polled :
      (n j k : ℕ) (os : Os) (s : State)
      → j ≡ n + k
      → Waiting j s
      → Ends (Polled k) (Frame b) (reap_with_grace n os s)
  unfolding reap_with_grace
  reap_with_grace-Polled zero j k os s e h = ground arith
  reap_with_grace-Polled (suc n) j k os s e h =
      round-Polled j k (sleep 1 >> reap_with_grace n) (os.waitpid s.calls) os s
        (λ t h'.
          Ends-continue (λ _. Waiting (n + k)) (Polled k) (Frame b) os (sleep 1 os t)
            (λ _. reap_with_grace n) (sleep-Waiting j (n + k) os t (omega arith) h')
            (λ _ u h''. reap_with_grace-Polled n (n + k) k os u refl h''))
        h

  escalate-Gone :
      (dead : Bool) (os : Os) (s : State)
      → Polled 2 dead s
      → Ends (λ _. Gone) (Frame b) (escalate dead os s)
  unfolding escalate
  escalate-Gone true os s h = h
  escalate-Gone false os s h =
      Ends-continue (Polled 0) (λ _. Gone) (Frame b) os (reap_with_grace sigkill_wait os _)
        (λ dead. if dead then pure tt else modify (λ s. record s { cchild = 0 }))
        (reap_with_grace-Polled sigkill_wait 2 0 os _ (omega arith) (ground arith)) abandon
    where
      abandon :
          (dead : Bool) (t : State)
          → Polled 0 dead t
          → Ends
              (λ _. Gone)
              (Frame b)
              ((if dead then pure tt else modify (λ s. record s { cchild = 0 })) os t)
      abandon true t h' = h'
      abandon false t h' = ground arith

  kill_child-Gone :
      (os : Os) (s : State) → Waiting 4 s → Ends (λ _. Gone) (Frame b) (kill_child os s)
  unfolding kill_child
  kill_child-Gone os s h =
      Ends-continue (Polled 2) (λ _. Gone) (Frame b) os (reap_with_grace sigterm_grace os _)
        escalate (reap_with_grace-Polled sigterm_grace 4 2 os _ (omega arith) (ground arith))
        (λ dead t h'. escalate-Gone dead os t h')

  -- The pipe is closed, and the child is as it was.
  abbrev Closed : State → Type 0
  Closed s =
      Frame b s
      × Linked s
      × (s.ssh_stderr_fd ≡ none)
      × (s.dolongjmp ≡ false)
      × (slept s.trace ≡ slept b.trace)

  kill-Closed :
      (os : Os) (s : State)
      → Closed s
      → Ends (λ _. Gone) (Frame b) ((if s.cchild == 0 then pure tt else kill_child) os s)
  kill-Closed os s h = elim (Bool-cases (s.cchild == 0)) [
    | inl idle ↦ rw idle (ground arith)
    | inr busy ↦ rw busy (kill_child-Gone os s (ground arith))
  ]

-- The state in which ssh_kill is called: no jump is armed, and the trace is in order.
abbrev pub IsTidy : State → Type 0
IsTidy s = KillsLive s.trace × Linked s × (s.dolongjmp ≡ false)

close_stderr-Closed :
    (os : Os) (s : State) → IsTidy s → Ends (λ _. Closed s) (Frame s) (close_stderr os s)
unfolding close_stderr
close_stderr-Closed os s h = ground arith

-- The whole of what is known of a teardown.
pub ssh_kill-Gone : (os : Os) (s : State) → IsTidy s → Ends (λ _. Gone s) (Frame s) (ssh_kill os s)
unfolding ssh_kill
ssh_kill-Gone os s h =
    Ends-continue (λ _. Closed s) (λ _. Gone s) (Frame s) os (close_stderr os s)
      (λ _ os t. (if t.cchild == 0 then pure tt else kill_child) os t) (close_stderr-Closed os s h)
      (λ _ t h'. kill-Closed s os t h')

-- From a state with no armed jump whose child, if any, is the last one forked, ssh_kill signals
-- only the live child, and where it returns there is no child and no stderr pipe left.
pub ssh_kill_targets :
    (os : Os) (s : State)
    → IsTidy s
    → Ends
        (λ _ t. KillsLive t.trace × (t.cchild ≡ 0) × (t.ssh_stderr_fd ≡ none))
        (λ t. KillsLive t.trace)
        (ssh_kill os s)
ssh_kill_targets os s h =
    Ends-weaken (λ _ t g. (g.0.6, g.1, g.2)) (λ t f. f.6) (ssh_kill os s) (ssh_kill-Gone os s h)

-- From a state with no armed jump whose child, if any, is the last one forked, ssh_kill comes to
-- an end, whatever the kernel answers, and has slept for four seconds at most.
pub ssh_kill_four_seconds :
    (os : Os) (s : State)
    → IsTidy s
    → Ends
        (λ _ t. slept t.trace ≤ slept s.trace + 4)
        (λ t. slept t.trace ≤ slept s.trace + 4)
        (ssh_kill os s)
ssh_kill_four_seconds os s h =
    Ends-weaken (λ _ t g. g.0.5) (λ t f. f.5) (ssh_kill os s) (ssh_kill-Gone os s h)
