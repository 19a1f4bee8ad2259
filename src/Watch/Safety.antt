-- ===== src/Watch/Safety.antt =====
-- The loop of ssh_watch as a whole.
use autossh_1_4g.Base.{ℕ, zero, suc, ◌≡◌, ◌≢◌, Bool, refl, none, some, arith}
use autossh_1_4g.Base.Int.{ℤ}
use autossh_1_4g.Posix.{Os}
use autossh_1_4g.Process.{State, Outcome, done, jumped, ended, running, M}
use autossh_1_4g.Process.Triple.{Sat, NoJump, Sat-continue, Sat-if, Ends-Sat}
use autossh_1_4g.Wait.{Policy, p_continue, p_restart}
use autossh_1_4g.Kill.Safety.{IsTidy}
use autossh_1_4g.Watch.{
  Verdict, kill_and, try_branch, catch_branch, setjmp, watch_round, after_round, watch_loop,
  ssh_watch,
}
use autossh_1_4g.Watch.Invariant.{Keep, Within, Left, Round, kill_and-Round}
use autossh_1_4g.Watch.Try.{try_branch-Round}
use autossh_1_4g.Watch.Catch.{catch_branch-Round}

module _ (b : State) where
  -- Whatever the attempt does, its jump is handled here.
  setjmp-Round :
      (saved : Bool) (sock : ℤ) (os : Os) (s : State) (o : Outcome Verdict)
      → try_branch saved os s ≡ o
      → Sat (Round b) (Within b) (Keep b) o
      → Sat (Round b) NoJump (Keep b) (setjmp (try_branch saved) (catch_branch saved sock) os s)
  unfolding setjmp
  setjmp-Round saved sock os s (done v t) e h = rw (e, setjmp) h
  setjmp-Round saved sock os s (jumped g t) e h =
      rw (e, setjmp) (catch_branch-Round b saved sock g os (record t { masked = s.masked }) h)
  setjmp-Round saved sock os s (ended x t) e h = rw (e, setjmp) h
  setjmp-Round saved sock os s (running t) e h = rw (e, setjmp) h

  watch_round-Round :
      (saved : Bool) (sock : ℤ) (os : Os) (s : State)
      → Within b s
      → Sat (Round b) NoJump (Keep b) (watch_round saved sock os s)
  unfolding watch_round
  watch_round-Round saved sock os s h =
      Sat-if (Round b) NoJump (Keep b) s.restart_ssh (kill_and p_restart)
        (setjmp (try_branch saved) (catch_branch saved sock)) os _
        (λ _. Ends-Sat (Round b) NoJump (Keep b) _ (kill_and-Round b p_restart os _ (λ e. cc) h))
        (λ _. setjmp-Round saved sock os _ _ refl (try_branch-Round b saved os _ h))

  -- The verdict is never P_CONTINUE, no child is left, and the caller's mask is back.
  abbrev pub Watched : Bool → Policy → State → Type 0
  Watched saved p s = Left b s × (p ≢ p_continue) × (s.masked ≡ saved)

  after_round-Watched :
      (saved : Bool) (rest : M Policy) (v : Verdict) (os : Os) (s : State)
      → ((t : State) → Within b t → Sat (Watched saved) NoJump (Keep b) (rest os t))
      → Round b v s
      → Sat (Watched saved) NoJump (Keep b) (after_round saved rest v os s)
  unfolding after_round
  after_round-Watched saved rest none os s go h = go s h
  after_round-Watched saved rest (some p) os s go h = (h.0, h.1, refl)

  watch_loop-Watched :
      (fuel : ℕ) (saved : Bool) (sock : ℤ) (os : Os) (s : State)
      → Within b s
      → Sat (Watched saved) NoJump (Keep b) (watch_loop fuel saved sock os s)
  unfolding watch_loop
  watch_loop-Watched zero saved sock os s h = h.0
  watch_loop-Watched (suc fuel) saved sock os s h =
      Sat-continue (Round b) (Watched saved) NoJump (Keep b) os (watch_round saved sock os s)
        (after_round saved (watch_loop fuel saved sock)) (watch_round-Round saved sock os s h)
        (λ v t k.
          after_round-Watched saved (watch_loop fuel saved sock) v os t
            (λ u k'. watch_loop-Watched fuel saved sock os u k') k)

pub ssh_watch-Watched :
    (fuel : ℕ) (sock : ℤ) (os : Os) (s : State)
    → IsTidy s
    → Sat (Watched s s.masked) NoJump (Keep s) (ssh_watch fuel sock os s)
unfolding ssh_watch
ssh_watch-Watched fuel sock os s h = watch_loop-Watched s fuel s.masked sock os _ (ground arith)
