-- ===== src/Run/Safety.antt =====
-- The start and restart loop as a whole.
use autossh_1_4g.Base.{
  ℕ, zero, suc, ◌+◌, ◌≤◌, ◌≡◌, ◌≢◌, true, false, none, some, ◌⊎◌, arith, refl, inl, inr,
  if◌then◌else◌, ◌∷◌,
}
use autossh_1_4g.Base.Int.{ℤ, pos, negsuc, ◌≤ℤ◌}
use autossh_1_4g.Posix.{Os, Call, ForkReply, no_fork, child}
use autossh_1_4g.Settings.{Settings}
use autossh_1_4g.Process.{State, M, initial, pure, ◌>>=◌}
use autossh_1_4g.Process.Trace.{KillsLive, forks}
use autossh_1_4g.Process.Triple.{Sat, NoJump, Sat-continue, Sat-weaken, Ends-Sat, Sat-if}
use autossh_1_4g.Signals.{set_sig_handlers, set_exit_sig_handler}
use autossh_1_4g.Kill.Safety.{IsTidy}
use autossh_1_4g.Lifetime.{exceeded_lifetime}
use autossh_1_4g.Grace.{Doubles, grace_time}
use autossh_1_4g.Wait.{Policy, p_continue, p_exitok, p_exiterr}
use autossh_1_4g.Watch.{ssh_watch}
use autossh_1_4g.Watch.Safety.{ssh_watch-Watched, Watched}
use autossh_1_4g.Run.{Pipe, may_start, fork, after_watch, parent, launch, start, run_loop, ssh_run}
use autossh_1_4g.Run.Invariant.{WithinLimit, Counts, Calm, exceeded-Calm, grace_time-Calm}
use autossh_1_4g.Run.Forked.{
  IsExit, Returned, Forked, fork-Forked, after_watch-Returned, xerrlog-Ends,
}

module _ (fl : Doubles) (c : Settings) where
  Watched-Counts :
      (b : State) (p : Policy) (t : State) → Counts c 0 b → Watched b b.masked p t → Counts c 0 t
  Watched-Counts b p t h k = ground arith

  watch-Counts :
      (watch_fuel : ℕ) (sock : ℤ) (os : Os) (s : State)
      → Counts c 0 s
      → IsTidy s
      → Sat
          (λ p t. Counts c 0 t × (p ≢ p_continue))
          NoJump
          (Counts c 0)
          (ssh_watch watch_fuel sock os s)
  watch-Counts watch_fuel sock os s h tidy =
      Sat-weaken (λ p t k. (Watched-Counts s p t h k, k.1)) (λ t k. k) (λ t k. ground arith)
        (ssh_watch watch_fuel sock os s) (ssh_watch-Watched watch_fuel sock os s tidy)

  session-Returned :
      (watch_fuel : ℕ) (sock : ℤ) (rest : M Policy) (os : Os) (s : State)
      → ((t : State) → Calm c 0 t → Sat (Returned c) NoJump (Counts c 0) (rest os t))
      → Counts c 0 s
      → IsTidy s
      → Sat (Returned c) NoJump (Counts c 0) (
          (do _ ← set_sig_handlers; verdict ← ssh_watch watch_fuel sock; after_watch rest verdict)
            os s)
  unfolding set_sig_handlers
  session-Returned watch_fuel sock rest os s go h tidy =
      Sat-continue (λ p t. Counts c 0 t × (p ≢ p_continue)) (Returned c) NoJump (Counts c 0) os
        (ssh_watch watch_fuel sock os _) (after_watch rest)
        (watch-Counts watch_fuel sock os _ h tidy)
        (λ p t k. after_watch-Returned c rest p os t go k.0 k.1)

  parent-Returned :
      (watch_fuel : ℕ) (sock : ℤ) (pipe : Pipe) (rest : M Policy) (r : ForkReply) (os : Os)
      (s : State)
      → ((t : State) → Calm c 0 t → Sat (Returned c) NoJump (Counts c 0) (rest os t))
      → Forked c s
      → s.dolongjmp ≡ false
      → Sat (Returned c) NoJump (Counts c 0) (parent fl watch_fuel sock pipe rest r os s)
  unfolding parent
  parent-Returned watch_fuel sock none rest no_fork os s go h q =
      xerrlog-Ends c os s h.0 (ground arith)
  parent-Returned watch_fuel sock (some (r, w)) rest no_fork os s go h q =
      xerrlog-Ends c os
        (record s { calls = suc (suc s.calls); trace = Call.close w ∷ Call.close r ∷ s.trace }) h.0
        (h.0.3, h.1, q)
  parent-Returned watch_fuel sock none rest (child p) os s go h q =
      session-Returned watch_fuel sock rest os (record s { ssh_stderr_fd = none }) go h.0
        (h.0.3, h.1, q)
  parent-Returned watch_fuel sock (some (r, w)) rest (child p) os s go h q =
      session-Returned watch_fuel sock rest os
        (record s { calls = suc s.calls; trace = Call.close w ∷ s.trace; ssh_stderr_fd = some r })
        go h.0 (h.0.3, h.1, q)

  launch-Returned :
      (watch_fuel : ℕ) (sock : ℤ) (rest : M Policy) (os : Os) (s : State)
      → ((t : State) → Calm c 0 t → Sat (Returned c) NoJump (Counts c 0) (rest os t))
      → Calm c 1 s
      → Sat (Returned c) NoJump (Counts c 0) (launch fl watch_fuel sock rest os s)
  unfolding launch
  launch-Returned watch_fuel sock rest os s go h =
      Sat-continue (λ _ t. Forked c t × (t.dolongjmp ≡ false)) (Returned c) NoJump (Counts c 0) os
        (fork os _) (parent fl watch_fuel sock (os.pipe (suc s.calls)) rest)
        (Ends-Sat (λ _ t. Forked c t × (t.dolongjmp ≡ false)) NoJump (Counts c 0) (fork os _)
          (fork-Forked c os _ h))
        (λ r t k. parent-Returned watch_fuel sock (os.pipe (suc s.calls)) rest r os t go k.0 k.1)

  start-Returned :
      (watch_fuel : ℕ) (sock : ℤ) (rest : M Policy) (os : Os) (s : State)
      → ((t : State) → Calm c 0 t → Sat (Returned c) NoJump (Counts c 0) (rest os t))
      → Calm c 0 s
      → may_start s ≡ true
      → Sat (Returned c) NoJump (Counts c 0) (start fl watch_fuel sock rest os s)
  unfolding start
  start-Returned watch_fuel sock rest os s go h may =
      Sat-continue (λ _. Calm c 1) (Returned c) NoJump (Counts c 0) os
        (grace_time fl s.start_time os
          (record s { restart_ssh = false; start_count = s.start_count + 1 }))
        (λ _ os t.
          (if t.exit_signalled then pure p_exiterr else launch fl watch_fuel sock rest) os t)
        (Sat-weaken (λ _ t k. k) (λ t k. k) (λ t k. ground arith) (grace_time fl s.start_time os _)
          (Ends-Sat (λ _. Calm c 1) NoJump (Counts c 1) (grace_time fl s.start_time os _)
            (grace_time-Calm c fl s.start_time os _ (ground arith))))
        (λ _ t k.
          Sat-if (Returned c) NoJump (Counts c 0) t.exit_signalled (pure p_exiterr)
            (launch fl watch_fuel sock rest) os t (λ _. ground arith)
            (λ _. launch-Returned watch_fuel sock rest os t go k))

  run_loop-Returned :
      (fuel watch_fuel : ℕ) (sock : ℤ) (os : Os) (s : State)
      → Calm c 0 s
      → Sat (Returned c) NoJump (Counts c 0) (run_loop fl fuel watch_fuel sock os s)
  unfolding run_loop
  run_loop-Returned zero watch_fuel sock os s h = h.0
  run_loop-Returned (suc fuel) watch_fuel sock os s h =
      let rest = run_loop fl fuel watch_fuel sock in
      Sat-if (Returned c) NoJump (Counts c 0) (may_start s)
        (do over ← exceeded_lifetime; if over then pure p_exitok else start fl watch_fuel sock rest)
        (pure p_exitok) os s
        (λ may.
          Sat-continue (λ _ t. Calm c 0 t × (may_start t ≡ true)) (Returned c) NoJump (Counts c 0)
            os (exceeded_lifetime os s)
            (λ over. if over then pure p_exitok else start fl watch_fuel sock rest)
            (Ends-Sat (λ _ t. Calm c 0 t × (may_start t ≡ true)) NoJump (Counts c 0) _
              (exceeded-Calm c os s h may))
            (λ over t k.
              Sat-if (Returned c) NoJump (Counts c 0) over (pure p_exitok)
                (start fl watch_fuel sock rest) os t (λ _. (k.0, inl refl))
                (λ _.
                  start-Returned watch_fuel sock rest os t
                    (λ u k'. run_loop-Returned fuel watch_fuel sock os u k') k.0 k.1)))
        (λ stop. (h, inl refl))

  pub ssh_run-Returned :
      (fuel watch_fuel : ℕ) (sock : ℤ) (os : Os) (s : State)
      → Calm c 0 s
      → Sat (Returned c) NoJump (Counts c 0) (ssh_run fl fuel watch_fuel sock os s)
  unfolding ssh_run set_exit_sig_handler
  ssh_run-Returned fuel watch_fuel sock os s h = run_loop-Returned fuel watch_fuel sock os _ h

pub no_start_yet : (c : Settings) → WithinLimit c 0
no_start_yet c = go c.max_start
  where
    go : (z : ℤ) → (z ≤ℤ negsuc 0) ⊎ (pos 0 ≤ℤ z)
    go (pos n) = inr (omega arith)
    go (negsuc n) = inl (omega arith)

module _ (fl : Doubles) (c : Settings) where
  initial-Returned :
      (fuel watch_fuel : ℕ) (sock : ℤ) (os : Os)
      → Sat (Returned c) NoJump (Counts c 0) (ssh_run fl fuel watch_fuel sock os (initial c))
  initial-Returned fuel watch_fuel sock os =
      ssh_run-Returned fl c fuel watch_fuel sock os (initial c)
        ((refl, omega arith, no_start_yet c, tt), refl)

  -- With a non-negative AUTOSSH_MAXSTART of n, autossh never forks more than n children, whatever
  -- the kernel answers, whether it returns, is ended or still runs; where it returns, the verdict
  -- is P_EXITOK or P_EXITERR.
  pub ssh_run_max_start :
      (n fuel watch_fuel : ℕ) (sock : ℤ) (os : Os)
      → c.max_start ≡ pos n
      → Sat
          (λ p t. (forks t.trace ≤ n) × IsExit p)
          NoJump
          (λ t. forks t.trace ≤ n)
          (ssh_run fl fuel watch_fuel sock os (initial c))
  ssh_run_max_start n fuel watch_fuel sock os e =
      Sat-weaken (λ p t k. (limit t k.0.0, k.1)) (λ t k. k) (λ t k. limit t k)
        (ssh_run fl fuel watch_fuel sock os (initial c)) (initial-Returned fuel watch_fuel sock os)
    where
      limit : (t : State) → Counts c 0 t → forks t.trace ≤ n
      limit t k = ground arith

  -- In every run of ssh_run from the start-up state, no siglongjmp is taken outside the sigsetjmp
  -- of a watch round, and every signal that is sent goes to the child that is alive then: never to
  -- pid 0, and never to a pid that was reaped.
  pub ssh_run_signals :
      (fuel watch_fuel : ℕ) (sock : ℤ) (os : Os)
      → Sat
          (λ p t. KillsLive t.trace × (t.dolongjmp ≡ false))
          NoJump
          (λ t. KillsLive t.trace)
          (ssh_run fl fuel watch_fuel sock os (initial c))
  ssh_run_signals fuel watch_fuel sock os =
      Sat-weaken (λ p t k. (k.0.0.3, k.0.1)) (λ t k. k) (λ t k. k.3)
        (ssh_run fl fuel watch_fuel sock os (initial c)) (initial-Returned fuel watch_fuel sock os)
