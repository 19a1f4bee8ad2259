-- ===== src/Detector/Threads/Alarms.antt =====
-- Every alarm is about a call that is in flight.
use autossh_1_4g.Base.{
  ℕ, zero, suc, ◌+◌, ◌*◌, ◌≤◌, ◌<◌, ◌≡◌, refl, sym, ◌∙◌, subst, ◌⊎◌, inl, inr, true, arith, ◌==◌,
  Bool-cases,
}
use autossh_1_4g.Base.Bytes.{Bytes}
use autossh_1_4g.Family.{set_at}
use autossh_1_4g.Detector.{Tracker, aborts}
use autossh_1_4g.Detector.Threads.{
  Hook, outside, entering, loaded, timed, tracking, untracked, finished, resetting, hook_step, Ssh,
  hook_turn, warned, HookStep, hook, tick, warn, HookReach, idle, then_step,
}

-- The thread is between the store of enter and that of leave, for a call that began then.
abbrev pub InFlight : ℕ → Hook → Type 0
InFlight began (tracking b) = b ≡ began
InFlight began (finished b) = b ≡ began
InFlight began h = ⊥

-- The tracker is idle, or tracks a call of one of the threads.
abbrev Tracks : ℕ → Ssh → Type 0
Tracks n s =
    (s.tracker.start_sec ≡ 0) ⊎ ((i : ℕ) × (i < n) × InFlight s.tracker.start_sec (s.hooks i))

set_at-same : (i : ℕ) (h : Hook) (hooks : ℕ → Hook) → set_at i h hooks i ≡ h
set_at-same i h hooks = ground arith

-- A step stores the second of the call that it then tracks, or makes the tracker idle, or leaves the
-- tracker's second, and stays in flight where it was.
abbrev Moves : Tracker → Hook → Tracker → Hook → Type 0
Moves t h u k =
    (u.start_sec ≡ 0)
    ⊎ (InFlight u.start_sec k
        ⊎ ((u.start_sec ≡ t.start_sec) × (InFlight t.start_sec h → InFlight t.start_sec k)))

hook_step-Moves :
    (now : ℕ) (h : Hook) (t : Tracker) → Moves t h (hook_step now h t).0 (hook_step now h t).1
unfolding hook_step
hook_step-Moves now outside t = inr (inr (refl, λ x. x))
hook_step-Moves now entering t = inr (inr (refl, λ x. absurd x))
hook_step-Moves now (loaded zero) t = inr (inr (refl, λ x. absurd x))
hook_step-Moves now (loaded (suc prev)) t = inr (inr (refl, λ x. absurd x))
hook_step-Moves now (timed began) t = inr (inl refl)
hook_step-Moves now (tracking began) t = inr (inr (refl, λ x. x))
hook_step-Moves now untracked t = inr (inr (refl, λ x. absurd x))
hook_step-Moves now (finished began) t = inl refl
hook_step-Moves now resetting t = inr (inr (refl, λ x. absurd x))

at-InFlight :
    (i j began : ℕ) (k : Hook) (hooks : ℕ → Hook)
    → (InFlight began (hooks i) → InFlight began k)
    → InFlight began (hooks j)
    → InFlight began (set_at i k hooks j)
at-InFlight i j began k hooks keep h = elim (Bool-cases (j == i)) [
  | inl e ↦
      let same : j ≡ i = (ground arith) in
      rw e (keep (subst (λ x. InFlight began (hooks x)) same h))
  | inr e ↦ rw e h
]

module _ (n : ℕ) where
  moved-Tracks :
      (i : ℕ) (s : Ssh) (u : Tracker) (k : Hook)
      → i < n
      → Tracks n s
      → Moves s.tracker (s.hooks i) u k
      → Tracks n (record s { tracker = u; hooks = set_at i k s.hooks })
  moved-Tracks i s u k lt h (inl z) = inl z
  moved-Tracks i s u k lt h (inr (inl f)) =
      inr (i, lt, subst (InFlight u.start_sec) (sym (set_at-same i k s.hooks)) f)
  moved-Tracks i s u k lt (inl z) (inr (inr (e, keep))) = inl (e ∙ z)
  moved-Tracks i s u k lt (inr (j, ltj, f)) (inr (inr (e, keep))) = inr (
    j,
    ltj,
    subst (λ b. InFlight b (set_at i k s.hooks j)) (sym e)
        (at-InFlight i j s.tracker.start_sec k s.hooks keep f),
  )

  HookStep-Tracks : {s t : Ssh} → HookStep n s t → Tracks n s → Tracks n t
  unfolding hook_turn warned
  HookStep-Tracks {s} (hook i lt) h =
      moved-Tracks i s (hook_step s.clock (s.hooks i) s.tracker).0
        (hook_step s.clock (s.hooks i) s.tracker).1 lt h
        (hook_step-Moves s.clock (s.hooks i) s.tracker)
  HookStep-Tracks tick h = h
  HookStep-Tracks (warn now) h = h

  HookReach-Tracks : {name : Bytes} {s : Ssh} → HookReach n name s → Tracks n s
  HookReach-Tracks idle = inl refl
  HookReach-Tracks (then_step r st) = HookStep-Tracks st (HookReach-Tracks r)

  -- However the steps of the threads of ssh are interleaved, the monitor, with a threshold that is
  -- positive, ends the process at a second `now` only when a hooked call is in flight on some thread that
  -- began at least twice the threshold before: no call that is over, and no shorter one of another
  -- thread, is held against it. The threads make no hooked call within another one.
  pub aborts-InFlight :
      {name : Bytes} {s : Ssh} (now threshold : ℕ)
      → 0 < threshold
      → HookReach n name s
      → aborts now threshold s.tracker ≡ true
      → (i : ℕ) × (i < n)
        × InFlight s.tracker.start_sec (s.hooks i)
        × (s.tracker.start_sec + threshold * 2 ≤ now)
  unfolding aborts
  aborts-InFlight {name} {s} now threshold h r a = found (HookReach-Tracks r)
    where
      found :
          Tracks n s
          → (i : ℕ) × (i < n)
            × InFlight s.tracker.start_sec (s.hooks i)
            × (s.tracker.start_sec + threshold * 2 ≤ now)
      found (inl z) = absurd (ground arith)
      found (inr (i, lt, f)) = (i, lt, f, ground arith)
