-- ===== src/Signals/Armed.antt =====
-- Delivery at any time: whether or not a jump is armed, only the flags of sig_catch change, and a
-- jump disarms itself; a signal to end is noted in the record of calls. `I` is any condition that does
-- not read those.
use autossh_1_4g.Base.{◌≡◌, Bool, true, false, ◌&&◌, List, [], ◌∷◌, inl, inr, arith, Bool-cases}
use autossh_1_4g.Posix.{Signal, Disposition, dfl, ign, catcher, Os, Call}
use autossh_1_4g.Posix.Signal.{sigint, sigusr1, sigterm, sigchld}
use autossh_1_4g.Process.{State}
use autossh_1_4g.Process.Triple.{Sat, Sat-continue}
use autossh_1_4g.Signals.{sig_catch, dispose, deliver_one, deliver, in_blockmask}

module _ (I : State → Type 0)
    (flags : (s : State) (r e d : Bool)
      → I s
      → I (record s { restart_ssh = r; exit_signalled = e; dolongjmp = d }))
    (noted : (s : State) → I s → I (record s { trace = Call.end_signal ∷ s.trace })) where
  abbrev pub Landed : State → Type 0
  Landed s = I s × (s.dolongjmp ≡ false)

  pub sig_catch-lands :
      (g : Signal) (os : Os) (s : State) → I s → Sat (λ _. I) Landed I (sig_catch g os s)
  unfolding sig_catch
  sig_catch-lands sigusr1 os s h =
      ground (arith, flags s true s.exit_signalled false, flags s true s.exit_signalled s.dolongjmp)
  sig_catch-lands sigterm os s h =
      let t = record s { trace = Call.end_signal ∷ s.trace } in
      ground
        (arith, noted s, flags t s.restart_ssh true false, flags t s.restart_ssh true s.dolongjmp)
  sig_catch-lands sigint os s h =
      let t = record s { trace = Call.end_signal ∷ s.trace } in
      ground
        (arith, noted s, flags t s.restart_ssh true false, flags t s.restart_ssh true s.dolongjmp)
  sig_catch-lands g os s h = ground (arith, flags s s.restart_ssh s.exit_signalled false)

  dispose-lands :
      (d : Disposition) (g : Signal) (os : Os) (s : State)
      → I s
      → Sat (λ _. I) Landed I (dispose d g os s)
  unfolding dispose
  dispose-lands dfl sigchld os s h = h
  dispose-lands dfl g os s h = h
  dispose-lands ign g os s h = h
  dispose-lands catcher g os s h = sig_catch-lands g os s h

  deliver_one-lands :
      (g : Signal) (os : Os) (s : State) → I s → Sat (λ _. I) Landed I (deliver_one g os s)
  unfolding deliver_one
  deliver_one-lands g os s h = elim (Bool-cases (s.masked && in_blockmask g)) [
    | inl held ↦ rw held h
    | inr free ↦ rw free (dispose-lands (s.handlers g) g os s h)
  ]

  pub deliver-lands :
      (gs : List Signal) (os : Os) (s : State) → I s → Sat (λ _. I) Landed I (deliver gs os s)
  unfolding deliver
  deliver-lands [] os s h = h
  deliver-lands (g ∷ gs) os s h =
      Sat-continue (λ _. I) (λ _. I) Landed I os (deliver_one g os s) (λ _. deliver gs)
        (deliver_one-lands g os s h) (λ _ s' h'. deliver-lands gs os s' h')
