-- ===== src/Session/Reserve/Adjacent.antt =====
-- Which ports are reserved for the monitor.
use autossh_1_4g.Base.{
  ℕ, zero, suc, ◌+◌, ◌≤◌, ◌<◌, ◌≡◌, true, some, arith, ◌==◌, Bool-cases, inl, inr,
}
use autossh_1_4g.Base.Bytes.{Bytes}
use autossh_1_4g.Session.Config.{Result, ok, err, ◌>>=◌}
use autossh_1_4g.Session.Reserve.{
  Attempt, reserve_port, reserve_from, reserve_monitor_port, try_next, monitor_rounds,
}

-- The local port of a bound socket is one of 1 to 65535.
abbrev pub IsBound : Attempt → Type 0
IsBound a = (p : ℕ) → a.local_port ≡ some p → (0 < p) × (p ≤ 65535)

-- A port and the next one are ports that a round could bind.
abbrev pub Adjacent : ℕ → (ℕ → Attempt) → ℕ → Type 0
Adjacent left attempts p =
    (i : ℕ) × (i < left)
    × (attempts i).binds ≡ true
    × (attempts i).local_port ≡ some p
    × (attempts i).next_binds ≡ true
    × (0 < p)
    × (p ≤ 65534)

abbrev pub Yields : (ℕ → Type 0) → Result ℕ → Type 0
Yields P (ok p) = P p
Yields P (err e) = Unit

bind-Yields :
    (P Q : ℕ → Type 0) (r : Result ℕ) (f : ℕ → Result ℕ)
    → Yields P r
    → ((p : ℕ) → P p → Yields Q (f p))
    → Yields Q (r >>= f)
bind-Yields P Q (ok p) f h k = k p h
bind-Yields P Q (err e) f h k = tt

abbrev Took : Attempt → ℕ → Type 0
Took a p = (a.binds ≡ true) × (a.local_port ≡ some p)

reserve_port-Yields : (host : Bytes) (a : Attempt) → Yields (Took a) (reserve_port host a)
unfolding reserve_port
reserve_port-Yields host a = ground arith

grow-Adjacent :
    (left : ℕ) (attempts : ℕ → Attempt) (r : Result ℕ)
    → Yields (Adjacent left attempts) r
    → Yields (Adjacent (suc left) attempts) r
grow-Adjacent left attempts (err e) h = tt
grow-Adjacent left attempts (ok p) (i, lt, b, l, n, low, high) =
    (i, omega arith, b, l, n, low, high)

try_next-Yields :
    (left : ℕ) (host : Bytes) (attempts : ℕ → Attempt) (port : ℕ) (rest : Result ℕ)
    → IsBound (attempts left)
    → Took (attempts left) port
    → Yields (Adjacent (suc left) attempts) rest
    → Yields (Adjacent (suc left) attempts) (try_next host (attempts left) port rest)
try_next-Yields left host attempts port rest bound took h = elim (Bool-cases (port == 65535)) [
  | inl last ↦ rw last h
  | inr before ↦ rw before (elim (Bool-cases ((attempts left).resolves (port + 1))) [
    | inr unknown ↦ rw unknown tt
    | inl known ↦ rw known (elim (Bool-cases (attempts left).next_binds) [
      | inr taken ↦ rw taken h
      | inl free ↦
          let range = bound port took.1 in
          rw free (left, omega arith, took.0, took.1, free, range.0, ground (arith, range.1))
    ])
  ])
]

reserve_from-Yields :
    (left : ℕ) (host : Bytes) (attempts : ℕ → Attempt)
    → ((i : ℕ) → IsBound (attempts i))
    → Yields (Adjacent left attempts) (reserve_from left host attempts)
unfolding reserve_from
reserve_from-Yields zero host attempts bound = tt
reserve_from-Yields (suc left) host attempts bound =
    bind-Yields (Took (attempts left)) (Adjacent (suc left) attempts)
      (reserve_port host (attempts left))
      (λ port. try_next host (attempts left) port (reserve_from left host attempts))
      (reserve_port-Yields host (attempts left))
      (λ port took.
        try_next-Yields left host attempts port (reserve_from left host attempts) (bound left) took
          (grow-Adjacent left attempts (reserve_from left host attempts)
            (reserve_from-Yields left host attempts bound)))

-- A port that reserve_monitor_port gives was bound in one of its 64 rounds together with the next
-- port, and is one of 1 to 65534, so that the next one is a port, too. A bound socket has a port of 1
-- to 65535.
pub reserve_monitor_port-Adjacent :
    (host : Bytes) (attempts : ℕ → Attempt)
    → ((i : ℕ) → IsBound (attempts i))
    → Yields (Adjacent 64 attempts) (reserve_monitor_port host attempts)
unfolding reserve_monitor_port
reserve_monitor_port-Adjacent host attempts bound =
    reserve_from-Yields monitor_rounds host attempts bound
