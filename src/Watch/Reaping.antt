-- ===== src/Watch/Reaping.antt =====
-- A child that has exited is noticed in the first round.
use autossh_1_4g.Base.{
  ℕ, suc, ◌≡◌, ◌≢◌, refl, Bool, true, false, none, some, inl, inr, arith, Option-cases,
}
use autossh_1_4g.Base.Int.{ℤ}
use autossh_1_4g.Posix.{Os, Status, reaped}
use autossh_1_4g.Process.{State, Outcome, done, jumped, ended, running, M}
use autossh_1_4g.Process.Triple.{Ends, Ends-continue, Ends-weaken, Ends-if}
use autossh_1_4g.Kill.{note_reap}
use autossh_1_4g.Drain.{check_ssh_stderr}
use autossh_1_4g.Drain.Match.{check_ssh_stderr_finds}
use autossh_1_4g.Wait.{
  Policy, p_continue, p_restart, p_exitok, p_exiterr, judge_exit, judge, judge_status, ssh_wait,
}
use autossh_1_4g.Watch.{
  Verdict, kill_and, after_wait, try_branch, catch_branch, setjmp, watch_round, after_round,
  watch_loop, ssh_watch,
}

-- The action returns a value with Q.
abbrev Returns : {A : Type 0} → (A → State → Type 0) → Outcome A → Type 0
Returns Q o = Ends Q (λ _. ⊥) o

check_ssh_stderr-Returns : (os : Os) (s : State) → Returns (λ _ _. Unit {0}) (check_ssh_stderr os s)
unfolding check_ssh_stderr
check_ssh_stderr-Returns os s = elim (Option-cases s.ssh_stderr_fd) [
  | inl e ↦ closed e
  | inr (fd, e) ↦
      Ends-weaken (λ _ t k. tt) (λ t k. k) (check_ssh_stderr os s)
        (check_ssh_stderr_finds os s fd e)
]
  where
    closed : s.ssh_stderr_fd ≡ none → Returns (λ _ _. Unit {0}) (check_ssh_stderr os s)
    closed e = rw (e, check_ssh_stderr) tt

abbrev Final : Policy → State → Type 0
Final p s = p ≢ p_continue

judge_exit-Final : (n : ℕ) (os : Os) (s : State) → Returns Final (judge_exit n os s)
unfolding judge_exit
judge_exit-Final n os s = ground arith

judge-Final : (n : ℕ) (os : Os) (s : State) → Returns Final (judge (reaped (Status.exited n)) os s)
unfolding judge
judge-Final n os s =
    Ends-continue (λ _ _. Unit {0}) Final (λ _. ⊥) os (check_ssh_stderr os s)
      (λ _. judge_status (Status.exited n)) (check_ssh_stderr-Returns os s)
      (λ _ t _. judge_exit-Final n os t)

ssh_wait-Final :
    (n : ℕ) (os : Os) (s : State)
    → os.waitpid s.calls ≡ reaped (Status.exited n)
    → Returns Final (ssh_wait os s)
unfolding ssh_wait
ssh_wait-Final n os s e =
    rw (e, ssh_wait)
      (judge-Final n os (record s {
        calls = suc s.calls;
        trace = note_reap (reaped (Status.exited n)) s.cchild s.trace;
      }))

abbrev Decided : Verdict → State → Type 0
Decided none s = ⊥
Decided (some p) s = p ≢ p_continue

after_wait-Decided :
    (saved : Bool) (p : Policy) (os : Os) (s : State)
    → p ≢ p_continue
    → Returns Decided (after_wait saved p os s)
unfolding after_wait
after_wait-Decided saved p_continue os s ne = absurd (ne refl)
after_wait-Decided saved p_restart os s ne = ne
after_wait-Decided saved p_exitok os s ne = ne
after_wait-Decided saved p_exiterr os s ne = ne

try_branch-Decided :
    (saved : Bool) (n : ℕ) (os : Os) (s : State)
    → os.waitpid s.calls ≡ reaped (Status.exited n)
    → Returns Decided (try_branch saved os s)
unfolding try_branch
try_branch-Decided saved n os s e =
    Ends-continue Final Decided (λ _. ⊥) os (ssh_wait os s) (after_wait saved)
      (ssh_wait-Final n os s e) (λ p t ne. after_wait-Decided saved p os t ne)

setjmp-Decided :
    (saved : Bool) (sock : ℤ) (os : Os) (s : State) (o : Outcome Verdict)
    → try_branch saved os s ≡ o
    → Returns Decided o
    → Returns Decided (setjmp (try_branch saved) (catch_branch saved sock) os s)
unfolding setjmp
setjmp-Decided saved sock os s (done v t) e h = rw (e, setjmp) h
setjmp-Decided saved sock os s (jumped g t) e h = absurd h
setjmp-Decided saved sock os s (ended x t) e h = absurd h
setjmp-Decided saved sock os s (running t) e h = absurd h

watch_round-Decided :
    (saved : Bool) (sock : ℤ) (n : ℕ) (os : Os) (s : State)
    → s.restart_ssh ≡ false
    → os.waitpid s.calls ≡ reaped (Status.exited n)
    → Returns Decided (watch_round saved sock os s)
unfolding watch_round
watch_round-Decided saved sock n os s quiet e =
    Ends-if Decided (λ _. ⊥) s.restart_ssh (kill_and p_restart)
      (setjmp (try_branch saved) (catch_branch saved sock)) os _ (λ asked. cc)
      (λ _.
        setjmp-Decided saved sock os _ _ refl
          (try_branch-Decided saved n os (record s { masked = true }) e))

abbrev Left : Bool → Policy → State → Type 0
Left saved p t = (p ≢ p_continue) × (t.masked ≡ saved)

after_round-Left :
    (saved : Bool) (rest : M Policy) (v : Verdict) (os : Os) (s : State)
    → Decided v s
    → Returns (Left saved) (after_round saved rest v os s)
unfolding after_round
after_round-Left saved rest none os s h = absurd h
after_round-Left saved rest (some p) os s h = (h, refl)

-- If no restart was asked for and waitpid first answers that the child has exited, ssh_watch returns
-- from its first round, with whatever exit code: not with P_CONTINUE, and with the caller's signal
-- mask.
pub ssh_watch_reaps :
    (fuel n : ℕ) (sock : ℤ) (os : Os) (s : State)
    → s.restart_ssh ≡ false
    → os.waitpid s.calls ≡ reaped (Status.exited n)
    → Ends
        (λ p t. (p ≢ p_continue) × (t.masked ≡ s.masked))
        (λ _. ⊥)
        (ssh_watch (suc fuel) sock os s)
unfolding ssh_watch
ssh_watch_reaps fuel n sock os s quiet e =
    let began : State = record s { my_poll_time = s.first_poll_time; masked = true } in
    Ends-continue Decided (Left s.masked) (λ _. ⊥) os (watch_round s.masked sock os began)
      (after_round s.masked (watch_loop fuel s.masked sock))
      (watch_round-Decided s.masked sock n os began quiet e)
      (λ v t h. after_round-Left s.masked (watch_loop fuel s.masked sock) v os t h)
