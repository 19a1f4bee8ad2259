-- ===== src/Session/Start/Torn.antt =====
-- What autossh_session_stop does to a supervisor that was forked.
use autossh_1_4g.Base.{ℕ, zero, suc, ◌≡◌, refl, sym, subst, ◌⊎◌, inl, inr, true, List, [], ◌∷◌}
use autossh_1_4g.Base.Int.{ℤ}
use autossh_1_4g.Posix.{Signal}
use autossh_1_4g.Posix.Signal.{sigterm, sigkill}
use autossh_1_4g.Session.{
  Reply, gone, alive, no_child, Event, signal, reaped, forked, Shared, Pc, idle, swapping, terming,
  polling, napping, killing, reaping, stopping, stop_returned, is_positive, move,
}
use autossh_1_4g.Session.Teardown.{drive, stop_steps, stop_session, stop_session-finishes}

-- The signal was sent to p since the latest fork.
abbrev pub Signalled : ℤ → Signal → List Event → Type 0
Signalled p g [] = ⊥
Signalled p g (forked q ∷ t) = ⊥
Signalled p g (signal q h ∷ t) = ((q ≡ p) × (h ≡ g)) ⊎ Signalled p g t
Signalled p g (reaped q ∷ t) = Signalled p g t

-- p was reaped since the latest fork.
abbrev pub WasReaped : ℤ → List Event → Type 0
WasReaped p [] = ⊥
WasReaped p (forked q ∷ t) = ⊥
WasReaped p (signal q h ∷ t) = WasReaped p t
WasReaped p (reaped q ∷ t) = (q ≡ p) ⊎ WasReaped p t

-- Since the latest fork p was sent SIGTERM; and it was reaped, or sent SIGKILL, or waitpid answered that
-- there is no such child.
abbrev pub TornDown : ℤ → (ℕ → Reply) → List Event → Type 0
TornDown p replies t =
    Signalled p sigterm t
    × (WasReaped p t ⊎ (Signalled p sigkill t ⊎ ((k : ℕ) × (replies k ≡ no_child))))

-- How far the teardown of p is.
abbrev Tearing : ℤ → (ℕ → Reply) → Pc → Shared → Type 0
Tearing p replies swapping s = s.pid ≡ p
Tearing p replies (terming q) s = q ≡ p
Tearing p replies (polling q k) s = (q ≡ p) × Signalled p sigterm s.trace
Tearing p replies (napping q k) s = (q ≡ p) × Signalled p sigterm s.trace
Tearing p replies (killing q) s = (q ≡ p) × Signalled p sigterm s.trace
Tearing p replies (reaping q) s =
    (q ≡ p) × Signalled p sigterm s.trace × Signalled p sigkill s.trace
Tearing p replies stopping s = TornDown p replies s.trace
Tearing p replies stop_returned s = TornDown p replies s.trace
Tearing p replies _ s = ⊥

module _ (p : ℤ) (positive : is_positive p ≡ true) (replies : ℕ → Reply) where
  move-Tearing :
      (n : ℕ) (r : Reply) (pc : Pc) (s : Shared)
      → replies n ≡ r
      → Tearing p replies pc s
      → Tearing p replies (move r pc s).1 (move r pc s).0
  unfolding move
  move-Tearing n r idle s e h = absurd h
  move-Tearing n r swapping s e h =
      let owns : is_positive s.pid ≡ true = subst (λ q. is_positive q ≡ true) (sym h) positive in
      rw owns h
  move-Tearing n r (terming q) s e h =
      let sends : is_positive q ≡ true = subst (λ x. is_positive x ≡ true) (sym h) positive in
      rw sends (h, inl (h, refl))
  move-Tearing n r (polling q zero) s e h = h
  move-Tearing n gone (polling q (suc k)) s e h = (h.1, inl (inl h.0))
  move-Tearing n alive (polling q (suc k)) s e h = h
  move-Tearing n no_child (polling q (suc k)) s e h = (h.1, inr (inr (n, e)))
  move-Tearing n r (napping q k) s e h = h
  move-Tearing n r (killing q) s e h =
      let sends : is_positive q ≡ true = subst (λ x. is_positive x ≡ true) (sym h.0) positive in
      rw sends (h.0, inr h.1, inl (h.0, refl))
  move-Tearing n gone (reaping q) s e h = (h.1, inr (inl h.2))
  move-Tearing n alive (reaping q) s e h = (h.1, inr (inl h.2))
  move-Tearing n no_child (reaping q) s e h = (h.1, inr (inl h.2))
  move-Tearing n r stopping s e h = h
  move-Tearing n r stop_returned s e h = h
  move-Tearing n r pc s e h = absurd h

  drive-Tearing :
      (n : ℕ) (pc : Pc) (s : Shared)
      → Tearing p replies pc s
      → Tearing p replies (drive n replies pc s).1 (drive n replies pc s).0
  unfolding drive
  drive-Tearing zero pc s h = h
  drive-Tearing (suc n) pc s h =
      drive-Tearing n (move (replies n) pc s).1 (move (replies n) pc s).0
        (move-Tearing n (replies n) pc s refl h)

  pub stop_session-TornDown :
      (s : Shared) → s.pid ≡ p → TornDown p replies (stop_session replies s).trace
  unfolding stop_session
  stop_session-TornDown s e =
      subst (λ pc. Tearing p replies pc (drive stop_steps replies swapping s).0)
        (stop_session-finishes replies s).0 (drive-Tearing stop_steps swapping s e)
