-- ===== src/Session/Teardown.antt =====
-- One call of autossh_session_stop, autossh_session_state or autossh_session_free on its own thread.
use autossh_1_4g.Base.{
  ℕ, zero, suc, ◌+◌, ◌*◌, ◌≤◌, ◌<◌, ◌≡◌, refl, true, false, arith, ap, ◌∙◌, Bool-cases, inl, inr,
}
use autossh_1_4g.Base.Int.{pos}
use autossh_1_4g.Session.{
  SessionState, Reply, Shared, Pc, idle, swapping, terming, polling, napping, killing, reaping,
  stopping, stop_returned, loading, checking, clearing, exiting, reading, state_returned,
  is_positive, move, is_resting,
}

-- The steps of a thread with no other in between; `replies` answers by the steps that are left.
unfoldable pub drive : ℕ → (ℕ → Reply) → Pc → Shared → Shared × Pc
unfolding move
drive zero replies pc s = (s, pc)
drive (suc n) replies pc s = let moved = move (replies n) pc s in drive n replies moved.1 moved.0

-- The steps that a call can still make.
abbrev pub rank : Pc → ℕ
rank idle = 0
rank swapping = 106
rank (terming p) = 105
rank (polling p k) = 2 * k + 4
rank (napping p k) = 2 * k + 5
rank (killing p) = 3
rank (reaping p) = 2
rank stopping = 1
rank stop_returned = 0
rank loading = 5
rank (checking p) = 4
rank (clearing p) = 3
rank exiting = 2
rank reading = 1
rank (state_returned x) = 0

abbrev pub stop_steps : ℕ
stop_steps = 106

unfoldable pub stop_session : (ℕ → Reply) → Shared → Shared
unfolding drive
stop_session replies s = (drive stop_steps replies swapping s).0

unfoldable pub session_state : (ℕ → Reply) → Shared → Shared × Pc
unfolding drive
session_state replies s = drive 5 replies loading s

-- Every step of a call brings it nearer to its end.
move-rank :
    (r : Reply) (pc : Pc) (s : Shared) → is_resting pc ≡ false → rank (move r pc s).1 < rank pc
unfolding move
move-rank r idle s h = cc
move-rank r pc s h = ground arith

-- Behind the swap, the session has no pid; at the end of stop its state is STOPPED.
abbrev Stopping : Pc → Shared → Type 0
Stopping swapping s = Unit
Stopping (terming p) s = s.pid ≡ pos 0
Stopping (polling p k) s = s.pid ≡ pos 0
Stopping (napping p k) s = s.pid ≡ pos 0
Stopping (killing p) s = s.pid ≡ pos 0
Stopping (reaping p) s = s.pid ≡ pos 0
Stopping stopping s = s.pid ≡ pos 0
Stopping stop_returned s = (s.pid ≡ pos 0) × (s.state ≡ SessionState.stopped)
Stopping _ s = ⊥

move-Stopping :
    (r : Reply) (pc : Pc) (s : Shared) → Stopping pc s → Stopping (move r pc s).1 (move r pc s).0
unfolding move
move-Stopping r idle s h = absurd h
move-Stopping r pc s h = ground arith

move-resting : (r : Reply) (pc : Pc) (s : Shared) → is_resting pc ≡ true → move r pc s ≡ (s, pc)
unfolding move
move-resting r idle s h = refl
move-resting r stop_returned s h = refl
move-resting r (state_returned x) s h = refl
move-resting r pc s h = cc

resting-rank : (pc : Pc) → is_resting pc ≡ true → rank pc ≡ 0
resting-rank idle h = refl
resting-rank pc h = ground arith

rank-move_le :
    (n : ℕ) (r : Reply) (pc : Pc) (s : Shared) → rank pc ≤ suc n → rank (move r pc s).1 ≤ n
rank-move_le n r pc s le = elim (Bool-cases (is_resting pc)) [
  | inl e ↦ rw (move-resting r pc s e) (omega (arith, resting-rank pc e))
  | inr e ↦ omega (arith, move-rank r pc s e)
]

drive-Stopping :
    (n : ℕ) (replies : ℕ → Reply) (pc : Pc) (s : Shared)
    → Stopping pc s
    → rank pc ≤ n
    → Stopping stop_returned (drive n replies pc s).0 × ((drive n replies pc s).1 ≡ stop_returned)
unfolding drive
drive-Stopping zero replies stop_returned s h le = (h, refl)
drive-Stopping zero replies pc s h le = ground arith
drive-Stopping (suc n) replies pc s h le =
    drive-Stopping n replies (move (replies n) pc s).1 (move (replies n) pc s).0
      (move-Stopping (replies n) pc s h) (rank-move_le n (replies n) pc s le)

drive-resting :
    (n : ℕ) (replies : ℕ → Reply) (pc : Pc) (s : Shared)
    → is_resting pc ≡ true
    → drive n replies pc s ≡ (s, pc)
unfolding drive
drive-resting zero replies pc s h = refl
drive-resting (suc n) replies pc s h =
    rw (move-resting (replies n) pc s h) (drive-resting n replies pc s h)

move-unowned :
    (r : Reply) (s : Shared)
    → is_positive s.pid ≡ false
    → move r swapping s ≡ (record s { pid = pos 0 }, stopping)
unfolding move
move-unowned r s h = rw h

-- A thread in stop that owns no pid makes two more steps, which signal nobody.
drive-unowned :
    (n : ℕ) (replies : ℕ → Reply) (s : Shared)
    → is_positive s.pid ≡ false
    → (drive (suc (suc n)) replies swapping s).0.trace ≡ s.trace
unfolding drive
drive-unowned n replies s h =
    ap (λ m. (drive (suc n) replies m.1 m.0).0.trace) (move-unowned (replies (suc n)) s h)
    ∙ ap (λ d. d.0.trace)
        (drive-resting n replies stop_returned
          (record s { pid = pos 0; state = SessionState.stopped }) refl)

-- A call of autossh_session_stop comes to its end within 106 steps (one swap, two signals, and at most
-- fifty rounds of polling with a pause each), whatever waitpid answers, and leaves no pid and the state
-- STOPPED. Every system call returns, also the last waitpid, which blocks.
pub stop_session-finishes :
    (replies : ℕ → Reply) (s : Shared)
    → ((drive stop_steps replies swapping s).1 ≡ stop_returned)
      × ((stop_session replies s).pid ≡ pos 0)
      × ((stop_session replies s).state ≡ SessionState.stopped)
unfolding stop_session
stop_session-finishes replies s =
    let ended = drive-Stopping stop_steps replies swapping s tt (omega arith) in
    (ended.1, ended.0.0, ended.0.1)

-- After one call of autossh_session_stop, another one signals and reaps nobody, whatever waitpid
-- answers.
pub stop_session-unowned :
    (replies again : ℕ → Reply) (s : Shared)
    → (stop_session again (stop_session replies s)).trace ≡ (stop_session replies s).trace
unfolding stop_session
stop_session-unowned replies again s =
    let ended = drive-Stopping stop_steps replies swapping s tt (omega arith) in
    drive-unowned 104 again (stop_session replies s) (ap is_positive ended.0.0)
