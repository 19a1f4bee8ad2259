-- ===== src/Session/Calls.antt =====
-- src/api.rs: the other calls on a session, NULL included, where no other thread is in a call.
use autossh_1_4g.Base.{
  ℕ, zero, suc, ◌≡◌, refl, ap, true, Option, none, some, List, [], ◌∷◌, ◌==◌, arith, if◌then◌else◌,
}
use autossh_1_4g.Base.Int.{ℤ, pos, negsuc}
use autossh_1_4g.Base.Bytes.{Bytes}
use autossh_1_4g.Session.{
  SessionState, Reply, gone, alive, no_child, Event, reaped, Shared, Pc, state_returned,
  is_positive, move, clear_pid,
}
use autossh_1_4g.Session.Config.{Message}
use autossh_1_4g.Session.Teardown.{drive, stop_session, session_state}
use autossh_1_4g.Session.Start.{World, Session, Started, start_session}

abbrev returned_state : Pc → SessionState
returned_state (state_returned x) = x
returned_state _ = SessionState.error

module _ {D : Type 0} where
  -- `none` is -1, without an effect.
  unfoldable pub session_start : World → Option (Session D) → Option (Started D)
  unfolding start_session
  session_start w none = none
  session_start w (some s) = some (start_session w s)

  unfoldable pub session_stop : (ℕ → Reply) → Option (Session D) → Option (Session D) × ℤ
  unfolding stop_session
  session_stop replies none = (none, negsuc 0)
  session_stop replies (some s) =
      (some (record s { shared = stop_session replies s.shared }), pos 0)

  -- What was done to processes when the session is gone.
  unfoldable pub session_free : (ℕ → Reply) → Option (Session D) → List Event
  unfolding session_stop
  session_free replies none = []
  session_free replies (some s) = (stop_session replies s.shared).trace

  unfoldable pub poll_state : (ℕ → Reply) → Option (Session D) → Option (Session D) × SessionState
  unfolding session_state
  poll_state replies none = (none, SessionState.error)
  poll_state replies (some s) =
      let polled = session_state replies s.shared in
      (some (record s { shared = polled.0 }), returned_state polled.1)

  abbrev pub session_pid : Option (Session D) → ℤ
  session_pid none = pos 0
  session_pid (some s) = s.shared.pid

  abbrev pub session_local_port : Option (Session D) → ℕ
  session_local_port none = 0
  session_local_port (some s) = s.config.local_port

  abbrev pub session_bind_host : Option (Session D) → Option Bytes
  session_bind_host none = none
  session_bind_host (some s) = some (s.config.bind_host)

  abbrev pub session_last_error : Option (Session D) → Option Message
  session_last_error none = none
  session_last_error (some s) = some s.last_error

-- What one poll makes of the shared fields.
abbrev pub polled : Reply → Shared → Shared
polled gone s =
    if is_positive s.pid
    then record { pid = pos 0; state = SessionState.exited; trace = reaped s.pid ∷ s.trace }
    else s
polled _ s = s

==-refl : (n : ℕ) → (n == n) ≡ true
==-refl n = ground arith

session_state-polled :
    (r : Reply) (p : ℤ) (x : SessionState) (t : List Event)
    → session_state (λ n. r) (record { pid = p; state = x; trace = t }) ≡ (
      polled r (record { pid = p; state = x; trace = t }),
      state_returned (polled r (record { pid = p; state = x; trace = t })).state,
    )
unfolding session_state drive move clear_pid
session_state-polled gone (pos zero) x t = refl
session_state-polled alive (pos zero) x t = refl
session_state-polled no_child (pos zero) x t = refl
session_state-polled gone (negsuc n) x t = refl
session_state-polled alive (negsuc n) x t = refl
session_state-polled no_child (negsuc n) x t = refl
session_state-polled gone (pos (suc n)) x t = rw (==-refl (suc n)) refl
session_state-polled alive (pos (suc n)) x t = refl
session_state-polled no_child (pos (suc n)) x t = refl

-- Without another thread, autossh_session_state reports EXITED and takes the pid back exactly when the
-- session has a positive pid and waitpid reaps it; otherwise it changes nothing. In both cases it
-- returns the state that the session then has.
pub poll_state-polled :
    {D : Type 0} (r : Reply) (s : Session D)
    → poll_state (λ n. r) (some s)
      ≡ (some (record s { shared = polled r s.shared }), (polled r s.shared).state)
unfolding poll_state
poll_state-polled r s =
    ap (λ m. (some (record s { shared = m.0 }), returned_state m.1))
      (session_state-polled r s.shared.pid s.shared.state s.shared.trace)
