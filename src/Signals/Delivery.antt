-- ===== src/Signals/Delivery.antt =====
-- Delivery outside the armed window: with dolongjmp clear nothing jumps, and only the two flags
-- that sig_catch sets can change, and the record of calls, where it notes a signal to end. `I` is any
-- condition that does not read those.
use autossh_1_4g.Base.{
  ℕ, suc, ◌≡◌, Bool, true, false, ◌&&◌, List, [], ◌∷◌, inl, inr, arith, Bool-cases,
}
use autossh_1_4g.Posix.{Signal, Disposition, dfl, ign, catcher, Os, Call}
use autossh_1_4g.Posix.Signal.{sigint, sigusr1, sigterm, sigchld}
use autossh_1_4g.Process.{State}
use autossh_1_4g.Process.Triple.{Ends, Ends-continue}
use autossh_1_4g.Signals.{sig_catch, dispose, deliver_one, deliver, sleep, in_blockmask}

module _ (I : State → Type 0)
    (flags : (s : State) (r e : Bool) → I s → I (record s { restart_ssh = r; exit_signalled = e }))
    (noted : (s : State) → I s → I (record s { trace = Call.end_signal ∷ s.trace })) where
  abbrev pub Quiet : State → Type 0
  Quiet s = I s × (s.dolongjmp ≡ false)

  pub sig_catch-keeps :
      (g : Signal) (os : Os) (s : State) → Quiet s → Ends (λ _. Quiet) I (sig_catch g os s)
  unfolding sig_catch
  sig_catch-keeps sigusr1 os s h = ground (arith, flags s true s.exit_signalled)
  sig_catch-keeps sigterm os s h =
      ground
        (arith, noted s, flags (record s { trace = Call.end_signal ∷ s.trace }) s.restart_ssh true)
  sig_catch-keeps sigint os s h =
      ground
        (arith, noted s, flags (record s { trace = Call.end_signal ∷ s.trace }) s.restart_ssh true)
  sig_catch-keeps g os s h = ground arith

  dispose-keeps :
      (d : Disposition) (g : Signal) (os : Os) (s : State)
      → Quiet s
      → Ends (λ _. Quiet) I (dispose d g os s)
  unfolding dispose
  dispose-keeps dfl sigchld os s h = h
  dispose-keeps dfl g os s h = h.0
  dispose-keeps ign g os s h = h
  dispose-keeps catcher g os s h = sig_catch-keeps g os s h

  deliver_one-keeps :
      (g : Signal) (os : Os) (s : State) → Quiet s → Ends (λ _. Quiet) I (deliver_one g os s)
  unfolding deliver_one
  deliver_one-keeps g os s h = elim (Bool-cases (s.masked && in_blockmask g)) [
    | inl held ↦ rw held h
    | inr free ↦ rw free (dispose-keeps (s.handlers g) g os s h)
  ]

  pub deliver-keeps :
      (gs : List Signal) (os : Os) (s : State) → Quiet s → Ends (λ _. Quiet) I (deliver gs os s)
  unfolding deliver
  deliver-keeps [] os s h = h
  deliver-keeps (g ∷ gs) os s h =
      Ends-continue (λ _. Quiet) (λ _. Quiet) I os (deliver_one g os s) (λ _. deliver gs)
        (deliver_one-keeps g os s h) (λ _ s' h'. deliver-keeps gs os s' h')

  pub sleep-keeps :
      (n : ℕ) (os : Os) (s : State)
      → Quiet (record s { calls = suc s.calls; trace = Call.sleep n ∷ s.trace })
      → Ends (λ _. Quiet) I (sleep n os s)
  unfolding sleep
  sleep-keeps n os s h = deliver-keeps (os.arrivals s.calls) os _ h
