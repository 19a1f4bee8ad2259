-- ===== src/Detector/Hooks/Once.antt =====
-- The hooks of one thread: one monitor, one look-up for each function, and the real functions behind
-- them.
use autossh_1_4g.Base.{ℕ, ◌≡◌, ◌≢◌, refl, sym, ap, subst, ◌∙◌, Bool, Option, none, some}
use autossh_1_4g.Base.Int.{ℤ}
use autossh_1_4g.Base.Bytes.{Bytes}
use autossh_1_4g.Detector.{read_threshold}
use autossh_1_4g.Detector.Hooks.{
  Function, connect_t, getaddrinfo_t, recv_t, recvfrom_t, recvmsg_t, name_of, Library,
  fresh_library, Activity, over, call_of, hooked, hook_of, run, ◌>>=◌,
}
use autossh_1_4g.Detector.Hooks.Invariant.{
  spawns, IsOrderly, IsFound, AreLate, Inv, StartedOnce, loaded-Inv,
}
use autossh_1_4g.Detector.Hooks.Nested.{Does, Running, hooked-Does}

module _ (dlsym : Bytes → Option ℕ) (getenv_threshold : Option (ℤ × Bool)) where
  -- When the monitor runs behind an activity: always, where it calls anything.
  abbrev Monitors : Activity → Library → Type 0
  Monitors over l = Running dlsym getenv_threshold l
  Monitors (call_of f now inner next) l = Unit

  still :
      (F : Type 0) (a : Activity) (l : Library) (o : Option Library)
      → Does dlsym getenv_threshold F (Monitors a l) l o
      → Does dlsym getenv_threshold F (Running dlsym getenv_threshold l) l o
  still F a l none d = d
  still F over l (some l') d = d
  still F (call_of f now inner next) l (some l') d = (d.0, d.1, d.2, λ _. d.3 tt)

  hook_of-eq-hooked :
      (f : Function) → hook_of dlsym getenv_threshold f ≡ hooked dlsym getenv_threshold f
  unfolding hook_of
  hook_of-eq-hooked connect_t = refl
  hook_of-eq-hooked getaddrinfo_t = refl
  hook_of-eq-hooked recv_t = refl
  hook_of-eq-hooked recvfrom_t = refl
  hook_of-eq-hooked recvmsg_t = refl

  run-Does :
      (a : Activity) (l : Library)
      → AreLate a
      → Inv dlsym getenv_threshold l
      → Does dlsym getenv_threshold
          (IsFound dlsym a)
          (Monitors a l)
          l
          (run dlsym getenv_threshold a l)
  unfolding run
  run-Does over l late i = (tt, i, λ k. refl, λ s. s)
  run-Does (call_of f now inner next) l late i =
      ran (hook_of dlsym getenv_threshold f now (run dlsym getenv_threshold inner) l)
        (subst
          (λ h.
            Does dlsym getenv_threshold ((dlsym (name_of f) ≢ none) × IsFound dlsym inner) Unit l
              (h now (run dlsym getenv_threshold inner) l))
          (sym (hook_of-eq-hooked f))
          (hooked-Does dlsym getenv_threshold (IsFound dlsym inner) f now
            (run dlsym getenv_threshold inner) l late.0
            (λ l' j.
              still (IsFound dlsym inner) inner l' (run dlsym getenv_threshold inner l')
                (run-Does inner l' late.1 j))
            i))
        (λ l' j.
          still (IsFound dlsym next) next l' (run dlsym getenv_threshold next l')
            (run-Does next l' late.2 j))
    where
      ended :
          (l' : Library)
          → Does dlsym getenv_threshold
              ((dlsym (name_of f) ≢ none) × IsFound dlsym inner)
              Unit
              l
              (some l')
          → (o : Option Library)
          → Does dlsym getenv_threshold
              (IsFound dlsym next)
              (Running dlsym getenv_threshold l')
              l'
              o
          → Does dlsym getenv_threshold (IsFound dlsym (call_of f now inner next)) Unit l o
      ended l' d none n = λ all. n all.2
      ended l' d (some l'') (g, j, same, s) =
          ((d.0.0, d.0.1, g), j, λ k. same k ∙ d.2 k, λ _. s (d.3 tt))

      ran :
          (o : Option Library)
          → Does dlsym getenv_threshold ((dlsym (name_of f) ≢ none) × IsFound dlsym inner) Unit l o
          → ((l' : Library)
              → Inv dlsym getenv_threshold l'
              → Does dlsym getenv_threshold
                  (IsFound dlsym next)
                  (Running dlsym getenv_threshold l')
                  l'
                  (run dlsym getenv_threshold next l'))
          → Does dlsym getenv_threshold
              (IsFound dlsym (call_of f now inner next))
              Unit
              l
              (o >>= run dlsym getenv_threshold next)
      ran none d go = λ all. d (all.0, all.1)
      ran (some l') d go = ended l' d (run dlsym getenv_threshold next l') (go l' d.1)

  -- One monitor where anything was called, with the threshold of the environment.
  abbrev pub HasMonitor : Activity → Library → Type 0
  HasMonitor over l = spawns l.events ≡ 0
  HasMonitor (call_of f now inner next) l =
      (spawns l.events ≡ 1) × (l.threshold_secs ≡ read_threshold getenv_threshold)

  abbrev pub Served : Activity → Option Library → Type 0
  Served a none = ¬ IsFound dlsym a
  Served a (some l) =
      IsFound dlsym a
      × IsOrderly dlsym l.events
      × HasMonitor a l
      × ((f : Function) → (l.tracked f).start_sec ≡ 0)

  spawned_by : Option Library → ℕ
  spawned_by none = 0
  spawned_by (some l) = spawns l.events

  Does-Served :
      (a : Activity) (o : Option Library)
      → Does dlsym getenv_threshold (IsFound dlsym a) (Monitors a fresh_library) fresh_library o
      → run dlsym getenv_threshold a fresh_library ≡ o
      → Served a o
  unfolding run spawned_by
  Does-Served a none d e = d
  Does-Served over (some l) d e = (tt, d.1.orderly, ap spawned_by (sym e), d.2)
  Does-Served (call_of f now inner next) (some l) d e = (
    d.0,
    d.1.orderly,
    subst (λ b. StartedOnce dlsym getenv_threshold b l.threshold_secs (spawns l.events)) (d.3 tt)
        d.1.started,
    d.2,
  )

  -- From the loading of the library on, whatever hooked calls one thread makes, one after another and
  -- within one another, at positive seconds: the hooks go on exactly if dlsym finds every function that
  -- is called. Every real function is then called by the pointer that dlsym gives for its name, which is
  -- looked up once, and behind the start of the monitor; if anything is called, the monitor is started
  -- once, with the threshold of the environment; and in the end no tracker is in flight.
  pub run-Served :
      (a : Activity) → AreLate a → Served a (run dlsym getenv_threshold a fresh_library)
  run-Served a late =
      Does-Served a (run dlsym getenv_threshold a fresh_library)
        (run-Does a fresh_library late (loaded-Inv dlsym getenv_threshold)) refl
