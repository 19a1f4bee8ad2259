-- ===== src/Session/Threads.antt =====
-- Any number of threads on one session: each calls autossh_session_stop and autossh_session_state as
-- it likes, and their steps come in any order, with any replies of waitpid.
pub mod Safety
use autossh_1_4g.Base.{ℕ, ◌<◌, ◌≡◌, Bool, true, [], ◌∷◌}
use autossh_1_4g.Base.Int.{ℤ}
use autossh_1_4g.Session.{
  SessionState, Reply, Shared, Pc, idle, swapping, loading, move, is_resting,
}
use autossh_1_4g.Family.{set_at}

pub record System : Type 0 where
  pub shared : Shared
  pub pcs : ℕ → Pc

-- autossh_session_start has returned with the pid of the supervisor.
unfoldable pub started : ℤ → System
started p = record {
  shared = record { pid = p; state = SessionState.running; trace = [] };
  pcs = λ i. idle;
}

unfoldable pub advance : ℕ → Reply → System → System
unfolding move
advance i r s =
    let moved = move r (s.pcs i) s.shared in
    record { shared = moved.0; pcs = set_at i moved.1 s.pcs }

unfoldable pub enter_call : ℕ → Pc → System → System
enter_call i pc s = record s { pcs = set_at i pc s.pcs }

pub data Step (n : ℕ) (s : System) : System → Type 0 where
  turn : (i : ℕ) (r : Reply) → i < n → Step n s (advance i r s)
  call_stop : (i : ℕ) → i < n → is_resting (s.pcs i) ≡ true → Step n s (enter_call i swapping s)
  call_state : (i : ℕ) → i < n → is_resting (s.pcs i) ≡ true → Step n s (enter_call i loading s)

pub data Reach (n : ℕ) (p : ℤ) : System → Type 0 where
  here : Reach n p (started p)
  next : {s t : System} → Reach n p s → Step n s t → Reach n p t
