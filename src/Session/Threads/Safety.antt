-- ===== src/Session/Threads/Safety.antt =====
-- Whom the threads signal, and how often.
use autossh_1_4g.Base.{
  ℕ, ◌+◌, ◌≤◌, ◌<◌, ◌≡◌, refl, ◌⊎◌, inl, inr, true, List, [], ◌∷◌, arith, ◌==◌, Bool-cases,
  if◌then◌else◌,
}
use autossh_1_4g.Base.Int.{ℤ, pos}
use autossh_1_4g.Posix.{Signal}
use autossh_1_4g.Posix.Signal.{sigterm, sigkill}
use autossh_1_4g.Session.{
  Reply, Event, signal, Shared, Pc, idle, swapping, terming, polling, napping, killing, loading,
  is_positive, move,
}
use autossh_1_4g.Family.{set_at, sum_below, sum_below-set_at, sum_below-zero}
use autossh_1_4g.Session.Threads.{
  System, started, advance, enter_call, Step, turn, call_stop, call_state, Reach, here, next,
}

-- Every signal went to p, and p is a single process.
abbrev pub SignalsOnly : ℤ → List Event → Type 0
SignalsOnly p [] = Unit
SignalsOnly p (signal q g ∷ t) = (q ≡ p) × (is_positive q ≡ true) × SignalsOnly p t
SignalsOnly p (e ∷ t) = SignalsOnly p t

abbrev is_term : Signal → ℕ
is_term sigterm = 1
is_term _ = 0

abbrev is_kill : Signal → ℕ
is_kill sigkill = 1
is_kill _ = 0

-- How often SIGTERM and SIGKILL were sent.
abbrev pub terms : List Event → ℕ
terms [] = 0
terms (signal q g ∷ t) = is_term g + terms t
terms (e ∷ t) = terms t

abbrev pub kills : List Event → ℕ
kills [] = 0
kills (signal q g ∷ t) = is_kill g + kills t
kills (e ∷ t) = kills t

-- A thread that has taken the pid, before it sends SIGTERM, and before it sends SIGKILL.
abbrev before_term : Pc → ℕ
before_term (terming p) = 1
before_term _ = 0

abbrev before_kill : Pc → ℕ
before_kill (terming p) = 1
before_kill (polling p k) = 1
before_kill (napping p k) = 1
before_kill (killing p) = 1
before_kill _ = 0

-- The pid that a thread holds is that of the supervisor.
abbrev pub Holds : ℤ → Pc → Type 0
Holds p (terming q) = q ≡ p
Holds p (polling q k) = q ≡ p
Holds p (napping q k) = q ≡ p
Holds p (killing q) = q ≡ p
Holds p _ = Unit

abbrev offered : Shared → ℕ
offered s = if is_positive s.pid then 1 else 0

-- What one step does to the shared fields, for the thread that makes it.
abbrev pub Fine : ℤ → Shared → Type 0
Fine p s = ((s.pid ≡ pos 0) ⊎ (s.pid ≡ p)) × SignalsOnly p s.trace

pub move-Fine :
    (p : ℤ) (r : Reply) (pc : Pc) (s : Shared)
    → Fine p s
    → Holds p pc
    → Fine p (move r pc s).0 × Holds p (move r pc s).1
unfolding move
move-Fine p r idle s h k = (h, tt)
move-Fine p r pc s h k = ground arith

-- No step makes more of what is left to send and what was sent.
move-terms :
    (r : Reply) (pc : Pc) (s : Shared)
    → terms (move r pc s).0.trace + before_term (move r pc s).1 + offered (move r pc s).0
      ≤ terms s.trace + before_term pc + offered s
unfolding move
move-terms r idle s = omega arith
move-terms r pc s = ground arith

move-kills :
    (r : Reply) (pc : Pc) (s : Shared)
    → kills (move r pc s).0.trace + before_kill (move r pc s).1 + offered (move r pc s).0
      ≤ kills s.trace + before_kill pc + offered s
unfolding move
move-kills r idle s = omega arith
move-kills r pc s = ground arith

-- What holds between any two steps.
record Inv (n : ℕ) (p : ℤ) (s : System) : Type 0 where
  fine : Fine p s.shared
  holds : (i : ℕ) → Holds p (s.pcs i)
  one_term : terms s.shared.trace + sum_below before_term n s.pcs + offered s.shared ≤ 1
  one_kill : kills s.shared.trace + sum_below before_kill n s.pcs + offered s.shared ≤ 1

started-Inv : (n : ℕ) (p : ℤ) → Inv n p (started p)
unfolding started
started-Inv n p = record {
  fine = (inr refl, tt);
  holds = λ i. tt;
  one_term = ground (arith, sum_below-zero before_term n idle refl);
  one_kill = ground (arith, sum_below-zero before_kill n idle refl);
}

set_at-Holds :
    (p : ℤ) (i : ℕ) (pc : Pc) (pcs : ℕ → Pc)
    → Holds p pc
    → ((j : ℕ) → Holds p (pcs j))
    → (j : ℕ) → Holds p (set_at i pc pcs j)
set_at-Holds p i pc pcs h k j = elim (Bool-cases (j == i)) [ inl e ↦ rw e h | inr e ↦ rw e (k j) ]

advance-Inv :
    (n : ℕ) (p : ℤ) (i : ℕ) (r : Reply) (s : System) → i < n → Inv n p s → Inv n p (advance i r s)
unfolding advance
advance-Inv n p i r s lt inv =
    let moved = move r (s.pcs i) s.shared in
    let kept = move-Fine p r (s.pcs i) s.shared inv.fine (inv.holds i) in
    record {
      fine = kept.0;
      holds = set_at-Holds p i moved.1 s.pcs kept.1 inv.holds;
      one_term = omega (
        arith,
        inv.one_term,
        move-terms r (s.pcs i) s.shared,
        sum_below-set_at before_term n i moved.1 s.pcs lt,
      );
      one_kill = omega (
        arith,
        inv.one_kill,
        move-kills r (s.pcs i) s.shared,
        sum_below-set_at before_kill n i moved.1 s.pcs lt,
      );
    }

-- A call that begins holds nothing yet.
enter_call-Inv :
    (n : ℕ) (p : ℤ) (i : ℕ) (pc : Pc) (s : System)
    → i < n
    → Holds p pc
    → before_term pc ≡ 0
    → before_kill pc ≡ 0
    → Inv n p s
    → Inv n p (enter_call i pc s)
unfolding enter_call
enter_call-Inv n p i pc s lt h t k inv = record {
  fine = inv.fine;
  holds = set_at-Holds p i pc s.pcs h inv.holds;
  one_term = omega (arith, inv.one_term, sum_below-set_at before_term n i pc s.pcs lt);
  one_kill = omega (arith, inv.one_kill, sum_below-set_at before_kill n i pc s.pcs lt);
}

Step-Inv : {n : ℕ} {p : ℤ} {s t : System} → Step n s t → Inv n p s → Inv n p t
Step-Inv {n} {p} {s} (turn i r lt) inv = advance-Inv n p i r s lt inv
Step-Inv {n} {p} {s} (call_stop i lt e) inv = enter_call-Inv n p i swapping s lt tt refl refl inv
Step-Inv {n} {p} {s} (call_state i lt e) inv = enter_call-Inv n p i loading s lt tt refl refl inv

Reach-Inv : {n : ℕ} {p : ℤ} {s : System} → Reach n p s → Inv n p s
Reach-Inv {n} {p} here = started-Inv n p
Reach-Inv (next r st) = Step-Inv st (Reach-Inv r)

-- However the calls of autossh_session_stop and autossh_session_state of any number of threads are
-- interleaved, and whatever waitpid answers: every signal goes to the pid with which the session was
-- started, and only if that is positive; SIGTERM is sent at most once, and so is SIGKILL.
pub Reach-SignalsOnly :
    {n : ℕ} {p : ℤ} {s : System}
    → Reach n p s
    → SignalsOnly p s.shared.trace × (terms s.shared.trace ≤ 1) × (kills s.shared.trace ≤ 1)
Reach-SignalsOnly r =
    let inv = Reach-Inv r in (inv.fine.1, omega (arith, inv.one_term), omega (arith, inv.one_kill))
