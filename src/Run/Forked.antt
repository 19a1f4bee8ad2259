-- ===== src/Run/Forked.antt =====
-- What the calls around a fork leave.
use autossh_1_4g.Base.{◌≡◌, ◌≢◌, false, ◌⊎◌, arith, refl, inl, inr}
use autossh_1_4g.Posix.{Os, ForkReply, no_fork, child}
use autossh_1_4g.Settings.{Settings}
use autossh_1_4g.Process.{State, M, quit, pure, ◌>>◌}
use autossh_1_4g.Process.Triple.{
  Sat, NoJump, Ends, Sat-continue, Ends-Sat, Ends-weaken, Ends-continue,
}
use autossh_1_4g.Signals.{deliver, unset_sig_handlers}
use autossh_1_4g.Signals.Delivery.{deliver-keeps}
use autossh_1_4g.Kill.{close_stderr, ssh_kill}
use autossh_1_4g.Kill.Safety.{Linked, IsTidy, ssh_kill-Gone}
use autossh_1_4g.Lifetime.{clear_alarm_timer}
use autossh_1_4g.Log.{xerrlog, unlink_pid_file}
use autossh_1_4g.Wait.{Policy, p_continue, p_restart, p_exitok, p_exiterr}
use autossh_1_4g.Run.{note_child, fork, end_session, after_watch}
use autossh_1_4g.Run.Invariant.{Counts, Calm}

-- Only P_EXITOK and P_EXITERR end the loop.
abbrev pub IsExit : Policy → Type 0
IsExit p = (p ≡ p_exitok) ⊎ (p ≡ p_exiterr)

module _ (c : Settings) where
  abbrev pub Returned : Policy → State → Type 0
  Returned p s = Calm c 0 s × IsExit p

  -- Behind a fork: the child that was noted is the last one forked.
  abbrev pub Forked : State → Type 0
  Forked s = Counts c 0 s × Linked s

  pub note_child-Forked :
      (r : ForkReply) (s : State)
      → Calm c 1 s
      → Forked (note_child r s) × ((note_child r s).dolongjmp ≡ false)
  unfolding note_child
  note_child-Forked no_fork s h = ground arith
  note_child-Forked (child p) s h = ground arith

  pub fork-Forked :
      (os : Os) (s : State)
      → Calm c 1 s
      → Ends (λ _ t. Forked t × (t.dolongjmp ≡ false)) (Counts c 0) (fork os s)
  unfolding fork
  fork-Forked os s h =
      Ends-continue (λ _ t. Forked t × (t.dolongjmp ≡ false))
        (λ _ t. Forked t × (t.dolongjmp ≡ false)) (Counts c 0) os
        (deliver (os.arrivals s.calls) os (note_child (os.fork s.calls) s))
        (λ _. pure (os.fork s.calls))
        (Ends-weaken (λ _ t k. k) (λ t k. k.0) (deliver (os.arrivals s.calls) os _)
          (deliver-keeps Forked (λ t r e k. k) (λ t k. k) (os.arrivals s.calls) os _
            (note_child-Forked (os.fork s.calls) s h)))
        (λ _ t k. k)

  pub end_session-Calm :
      (os : Os) (s : State) → Counts c 0 s → Ends (λ _. Calm c 0) (Counts c 0) (end_session os s)
  unfolding end_session clear_alarm_timer unset_sig_handlers close_stderr
  end_session-Calm os s h = ground arith

  pub after_watch-Returned :
      (rest : M Policy) (p : Policy) (os : Os) (s : State)
      → ((t : State) → Calm c 0 t → Sat Returned NoJump (Counts c 0) (rest os t))
      → Counts c 0 s
      → p ≢ p_continue
      → Sat Returned NoJump (Counts c 0) (after_watch rest p os s)
  unfolding after_watch
  after_watch-Returned rest p_continue os s go h ne = absurd (ne refl)
  after_watch-Returned rest p_restart os s go h ne =
      Sat-continue (λ _. Calm c 0) Returned NoJump (Counts c 0) os (end_session os s) (λ _. rest)
        (Ends-Sat (λ _. Calm c 0) NoJump (Counts c 0) _ (end_session-Calm os s h)) (λ _ t k. go t k)
  after_watch-Returned rest p_exitok os s go h ne =
      Sat-continue (λ _. Calm c 0) Returned NoJump (Counts c 0) os (end_session os s)
        (λ _. pure p_exitok)
        (Ends-Sat (λ _. Calm c 0) NoJump (Counts c 0) _ (end_session-Calm os s h))
        (λ _ t k. (k, inl refl))
  after_watch-Returned rest p_exiterr os s go h ne =
      Sat-continue (λ _. Calm c 0) Returned NoJump (Counts c 0) os (end_session os s)
        (λ _. pure p_exiterr)
        (Ends-Sat (λ _. Calm c 0) NoJump (Counts c 0) _ (end_session-Calm os s h))
        (λ _ t k. (k, inr refl))

  pub unlink-Counts :
      (os : Os) (s : State)
      → Counts c 0 s
      → Ends (λ _. Counts c 0) (Counts c 0) (unlink_pid_file os s)
  unfolding unlink_pid_file
  unlink-Counts os s h = ground arith

  -- xerrlog ends the process.
  pub xerrlog-Ends :
      (os : Os) (s : State)
      → Counts c 0 s
      → IsTidy s
      → Sat Returned NoJump (Counts c 0) (xerrlog os s)
  unfolding xerrlog
  xerrlog-Ends os s h tidy = Ends-Sat Returned NoJump (Counts c 0) _ (
      Ends-continue (λ _. Counts c 0) Returned (Counts c 0) os (ssh_kill os s)
        (λ _ os t. (unlink_pid_file >> quit 1) os t)
        (Ends-weaken (λ _ t g. ground arith) (λ t f. ground arith) (ssh_kill os s)
          (ssh_kill-Gone os s tidy))
        (λ _ t k.
          Ends-continue (λ _. Counts c 0) Returned (Counts c 0) os (unlink_pid_file os t)
            (λ _. quit 1) (unlink-Counts os t k) (λ _ u k'. k')))
