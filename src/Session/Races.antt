-- ===== src/Session/Races.antt =====
-- What the order of the calls does not rule out.
use autossh_1_4g.Base.{ℕ, suc, ◌≡◌, refl, [], ◌∷◌, arith}
use autossh_1_4g.Base.Int.{pos}
use autossh_1_4g.Posix.Signal.{sigterm}
use autossh_1_4g.Session.{gone, alive, signal, reaped}
use autossh_1_4g.Session.Threads.{
  System, started, advance, enter_call, turn, call_stop, call_state, Reach, here, next,
}

-- For every positive pid there is an interleaving of one call of autossh_session_state and one of
-- autossh_session_stop in which SIGTERM is sent to the pid after the child was reaped: the kernel may
-- have given it to another process.
pub signal_after_reap :
    (p : ℕ)
    → (s : System) × Reach 2 (pos (suc p)) s
      × (s.shared.trace ≡ signal (pos (suc p)) sigterm ∷ reaped (pos (suc p)) ∷ [])
unfolding started advance enter_call
signal_after_reap p = (
  _,
  next
      (next
        (next
          (next (next (next here (call_state 0 (omega arith) refl)) (turn 0 alive (omega arith)))
            (turn 0 gone (omega arith)))
          (call_stop 1 (omega arith) refl))
        (turn 1 alive (omega arith)))
      (turn 1 alive (omega arith)),
  refl,
)
