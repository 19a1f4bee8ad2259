-- ===== src/Detector/Hooks/Nested.antt =====
-- A hook around a real function that makes hooked calls itself.
use autossh_1_4g.Base.{
  ℕ, ◌<◌, ◌≡◌, ◌≢◌, refl, sym, ap, subst, ◌∙◌, Bool, true, false, Option, none, some, ◌∷◌, ◌==◌,
  ==_iff, arith, if◌then◌else◌,
}
use autossh_1_4g.Base.Int.{ℤ}
use autossh_1_4g.Base.Bytes.{Bytes}
use autossh_1_4g.Detector.{Tracker, enter, leave}
use autossh_1_4g.Detector.Hooks.{
  Function, number, name_of, called, Library, set_at, resolve, ensure_monitor, call_real, hooked,
  ◌>>=◌,
}
use autossh_1_4g.Detector.Hooks.Invariant.{
  lookups, spawns, number-injective, Inv, Resolved, resolve-Resolved, Watched,
  ensure_monitor-Watched,
}

module _ (dlsym : Bytes → Option ℕ) (getenv_threshold : Option (ℤ × Bool)) where
  abbrev pub began : Library → Function → ℕ
  began l k = (l.tracked k).start_sec

  -- What hooked calls do to a library, where F says that dlsym finds what they
  -- call, and B that the monitor runs in the end.
  abbrev pub Does : Type 0 → Type 0 → Library → Option Library → Type 0
  Does F B l none = ¬ F
  Does F B l (some l') =
      F
      × Inv dlsym getenv_threshold l'
      × ((k : Function) → began l' k ≡ began l k)
      × (B → l'.monitor_started ≡ true)

  called-Inv :
      (f : Function) (p : ℕ) (w : Library) (tracked : Function → Tracker)
      → Inv dlsym getenv_threshold w
      → dlsym (name_of f) ≡ some p
      → lookups f w.events ≡ 1
      → spawns w.events ≡ 1
      → Inv dlsym getenv_threshold (record w { tracked = tracked; events = called f p ∷ w.events })
  called-Inv f p w tracked i d one alone = record {
    cached = i.cached;
    started = i.started;
    orderly = (d, one, alone, i.orderly);
  }

  retracked-Inv :
      (l : Library) (tracked : Function → Tracker)
      → Inv dlsym getenv_threshold l
      → Inv dlsym getenv_threshold (record l { tracked = tracked })
  retracked-Inv l tracked i = record { cached = i.cached; started = i.started; orderly = i.orderly }

  -- A tracker behind its call, where the calls within left its start second alone.
  leave-start_sec :
      (now : ℕ) (before during : Tracker)
      → 0 < now
      → during.start_sec ≡ (enter now before).1.start_sec
      → (leave before.start_sec during).start_sec ≡ before.start_sec
  unfolding enter leave
  leave-start_sec now before during h e = ground arith

  began_again :
      (f k : Function) (now : ℕ) (before during : Function → Tracker)
      → 0 < now
      → ((k : Function)
          → (during k).start_sec ≡ (set_at f (enter now (before f)).1 before k).start_sec)
      → (set_at f (leave (before f).start_sec (during f)) during k).start_sec ≡ (before k).start_sec
  began_again f k now before during h e =
      by_case (number k == number f) (number-injective k f) (e k)
    where
      at_f : (leave (before f).start_sec (during f)).start_sec ≡ (before f).start_sec
      at_f = leave-start_sec now (before f) (during f) h (
          subst
            (λ c.
              (during f).start_sec ≡ (if c then (enter now (before f)).1 else before f).start_sec)
            ((==_iff (number f) (number f)).1 refl) (e f))

      by_case :
          (same : Bool)
          → (same ≡ true → k ≡ f)
          → (during k).start_sec ≡ (if same then (enter now (before f)).1 else before k).start_sec
          → (if same then leave (before f).start_sec (during f) else during k).start_sec
            ≡ (before k).start_sec
      by_case true is_f _ = at_f ∙ ap (λ g. (before g).start_sec) (sym (is_f refl))
      by_case false is_f e = e

  abbrev pub Running : Library → Type 0
  Running l = l.monitor_started ≡ true

  call_real-Does :
      (F : Type 0) (f : Function) (now : ℕ) (real : Library → Option Library) (p : ℕ) (w : Library)
      → 0 < now
      → ((l : Library) → Inv dlsym getenv_threshold l → Does F (Running l) l (real l))
      → Inv dlsym getenv_threshold w
      → dlsym (name_of f) ≡ some p
      → lookups f w.events ≡ 1
      → spawns w.events ≡ 1
      → Does F (Running w) w (call_real f now real p w)
  unfolding call_real
  call_real-Does F f now real p w h go i d one alone =
      returned (real inside) (go inside (called-Inv f p w during i d one alone))
    where
      during : Function → Tracker
      during = set_at f (enter now (w.tracked f)).1 w.tracked

      inside : Library
      inside = record w { tracked = during; events = called f p ∷ w.events }

      returned :
          (o : Option Library)
          → Does F (Running inside) inside o
          → Does F (Running w) w (
              o >>= λ back. some (record back {
                tracked = set_at f (leave (w.tracked f).start_sec (back.tracked f)) back.tracked;
              }))
      returned none n = n
      returned (some back) (found, j, same, started) = (
        found,
        retracked-Inv back _ j,
        λ k. began_again f k now w.tracked back.tracked h same,
        started,
      )

  -- A hook around a real function that makes hooked calls.
  pub hooked-Does :
      (F : Type 0) (f : Function) (now : ℕ) (real : Library → Option Library) (l : Library)
      → 0 < now
      → ((l : Library) → Inv dlsym getenv_threshold l → Does F (Running l) l (real l))
      → Inv dlsym getenv_threshold l
      → Does ((dlsym (name_of f) ≢ none) × F) Unit l (hooked dlsym getenv_threshold f now real l)
  unfolding hooked
  hooked-Does F f now real l h go i =
      looked (resolve dlsym f l) (resolve-Resolved dlsym getenv_threshold f l i)
    where
      looked :
          (o : Option (ℕ × Library))
          → Resolved dlsym getenv_threshold f l o
          → Does ((dlsym (name_of f) ≢ none) × F) Unit l (
              o >>= λ found. call_real f now real found.0 (ensure_monitor getenv_threshold found.1))
      looked none r = λ both. both.0 r
      looked (some (p, l')) (d, one, j, same) =
          let w : Library = ensure_monitor getenv_threshold l' in
          let v : Watched dlsym getenv_threshold l' w =
            ensure_monitor-Watched dlsym getenv_threshold l' j in
          watched w (v.3 ∙ same) v.2 (λ n. cc) (call_real f now real p w)
            (call_real-Does F f now real p w h go v.0 d (v.4 f ∙ one) v.1)
        where
          watched :
              (w : Library)
              → w.tracked ≡ l.tracked
              → Running w
              → dlsym (name_of f) ≢ none
              → (o : Option Library) → Does F (Running w) w o
              → Does ((dlsym (name_of f) ≢ none) × F) Unit l o
          watched w e s ne none n = λ both. n both.1
          watched w e s ne (some l'') (g, k, a, b) =
              ((ne, g), k, λ m. a m ∙ ap (λ t. (t m).start_sec) e, λ _. b s)
