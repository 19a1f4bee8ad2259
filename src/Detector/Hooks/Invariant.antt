-- ===== src/Detector/Hooks/Invariant.antt =====
-- What the hooks keep: each function is looked up once, and the monitor is started once.
use autossh_1_4g.Base.{
  ℕ, zero, suc, ◌<◌, ◌≡◌, ◌≢◌, refl, sym, ap, subst, ◌∙◌, Bool, true, false, Option, none, some,
  List, [], ◌∷◌, ◌==◌, ==_iff, if◌then◌else◌,
}
use autossh_1_4g.Base.Int.{ℤ}
use autossh_1_4g.Base.Bytes.{Bytes}
use autossh_1_4g.Detector.{default_threshold_secs, read_threshold}
use autossh_1_4g.Detector.Hooks.{
  Function, connect_t, getaddrinfo_t, recv_t, recvfrom_t, recvmsg_t, number, name_of, Event,
  looked_up, spawned, called, Library, fresh_library, set_at, Activity, over, call_of, next_fn,
  resolve, ensure_monitor, ◌>>=◌,
}

abbrev pub lookups : Function → List Event → ℕ
lookups f [] = 0
lookups f (looked_up g ∷ es) = if number f == number g then suc (lookups f es) else lookups f es
lookups f (spawned ∷ es) = lookups f es
lookups f (called g p ∷ es) = lookups f es

abbrev pub spawns : List Event → ℕ
spawns [] = 0
spawns (spawned ∷ es) = suc (spawns es)
spawns (looked_up g ∷ es) = spawns es
spawns (called g p ∷ es) = spawns es

module _ (dlsym : Bytes → Option ℕ) where
  -- A real function is called by the pointer that dlsym gives for its name, behind its one look-up
  -- and behind the start of the one monitor.
  abbrev pub IsOrderly : List Event → Type 0
  IsOrderly [] = Unit
  IsOrderly (looked_up f ∷ es) = (lookups f es ≡ 0) × IsOrderly es
  IsOrderly (spawned ∷ es) = (spawns es ≡ 0) × IsOrderly es
  IsOrderly (called f p ∷ es) =
      (dlsym (name_of f) ≡ some p) × (lookups f es ≡ 1) × (spawns es ≡ 1) × IsOrderly es

  -- dlsym finds every function that the activity calls.
  abbrev pub IsFound : Activity → Type 0
  IsFound over = Unit
  IsFound (call_of f now inner next) = (dlsym (name_of f) ≢ none) × IsFound inner × IsFound next

  -- The pointer that is kept, and how often it was looked up.
  abbrev pub Cached : Function → Option ℕ → ℕ → Type 0
  Cached f none times = times ≡ 0
  Cached f (some p) times = (dlsym (name_of f) ≡ some p) × (times ≡ 1)

abbrev pub AreLate : Activity → Type 0
AreLate over = Unit
AreLate (call_of f now inner next) = (0 < now) × AreLate inner × AreLate next

of_number : ℕ → Function
of_number zero = connect_t
of_number (suc zero) = getaddrinfo_t
of_number (suc (suc zero)) = recv_t
of_number (suc (suc (suc zero))) = recvfrom_t
of_number _ = recvmsg_t

of_number-number : (f : Function) → of_number (number f) ≡ f
unfolding of_number
of_number-number connect_t = refl
of_number-number getaddrinfo_t = refl
of_number-number recv_t = refl
of_number-number recvfrom_t = refl
of_number-number recvmsg_t = refl

-- Two functions with one number are one function.
pub number-injective : (f g : Function) → (number f == number g) ≡ true → f ≡ g
number-injective f g e =
    sym (of_number-number f) ∙ ap of_number ((==_iff _ _).0 e) ∙ of_number-number g

module _ (dlsym : Bytes → Option ℕ) (getenv_threshold : Option (ℤ × Bool)) where
  -- The Once, the threshold, and how often the monitor was started.
  abbrev pub StartedOnce : Bool → ℕ → ℕ → Type 0
  StartedOnce false threshold times = (times ≡ 0) × (threshold ≡ default_threshold_secs)
  StartedOnce true threshold times = (times ≡ 1) × (threshold ≡ read_threshold getenv_threshold)

  pub record Inv (l : Library) : Type 0 where
    pub cached : (f : Function) → Cached dlsym f (l.real f) (lookups f l.events)
    pub started : StartedOnce l.monitor_started l.threshold_secs (spawns l.events)
    pub orderly : IsOrderly dlsym l.events

  pub loaded-Inv : Inv fresh_library
  loaded-Inv = record { cached = λ f. refl; started = (refl, refl); orderly = tt }

  -- The look-up of f changes nothing for another function.
  looked_up-Cached :
      (f k : Function) (p : ℕ) (real : Function → Option ℕ) (es : List Event)
      → dlsym (name_of f) ≡ some p
      → lookups f es ≡ 0
      → Cached dlsym k (real k) (lookups k es)
      → Cached dlsym k (set_at f (some p) real k) (lookups k (looked_up f ∷ es))
  looked_up-Cached f k p real es e z c = by_case (number k == number f) (number-injective k f)
    where
      by_case :
          (same : Bool)
          → (same ≡ true → k ≡ f)
          → Cached dlsym k
              (if same then some p else real k)
              (if same then suc (lookups k es) else lookups k es)
      by_case true is_f = (
        subst (λ g. dlsym (name_of g) ≡ some p) (sym (is_f refl)) e,
        ap suc (subst (λ g. lookups g es ≡ 0) (sym (is_f refl)) z),
      )
      by_case false is_f = c

  -- What resolve gives: the pointer of f, looked up once by now.
  abbrev pub Resolved : Function → Library → Option (ℕ × Library) → Type 0
  Resolved f l none = dlsym (name_of f) ≡ none
  Resolved f l (some (p, l')) =
      (dlsym (name_of f) ≡ some p) × (lookups f l'.events ≡ 1) × Inv l' × (l'.tracked ≡ l.tracked)

  looked-Resolved :
      (f : Function) (l : Library)
      → Inv l
      → l.real f ≡ none
      → (r : Option ℕ) → dlsym (name_of f) ≡ r
      → Resolved f l (
          r >>= λ p.
          some (p, record l { real = set_at f (some p) l.real; events = looked_up f ∷ l.events }))
  looked-Resolved f l i e none d = d
  looked-Resolved f l i e (some p) d =
      let first : lookups f l.events ≡ 0 =
        subst (λ r. Cached dlsym f r (lookups f l.events)) e (i.cached f) in
      (
        d,
        once first,
        record {
          cached = λ k. looked_up-Cached f k p l.real l.events d first (i.cached k);
          started = i.started;
          orderly = (first, i.orderly);
        },
        refl,
      )
    where
      once : lookups f l.events ≡ 0 → lookups f (looked_up f ∷ l.events) ≡ 1
      once z = rw ((==_iff (number f) (number f)).1 refl) (ap suc z)

  pub resolve-Resolved : (f : Function) (l : Library) → Inv l → Resolved f l (resolve dlsym f l)
  unfolding resolve next_fn
  resolve-Resolved f l i = by_cache (l.real f) refl
    where
      by_cache :
          (r : Option ℕ)
          → l.real f ≡ r
          → Resolved f l (elim r [ some p ↦ some (p, l) | none ↦ next_fn dlsym f l ])
      by_cache none e = looked-Resolved f l i e (dlsym (name_of f)) refl
      by_cache (some p) e =
          let kept : Cached dlsym f (some p) (lookups f l.events) =
            subst (λ r. Cached dlsym f r (lookups f l.events)) e (i.cached f) in
          (kept.0, kept.1, i, refl)

  -- Behind ensure_monitor there is one monitor.
  abbrev pub Watched : Library → Library → Type 0
  Watched l w =
      Inv w
      × (spawns w.events ≡ 1)
      × (w.monitor_started ≡ true)
      × (w.tracked ≡ l.tracked)
      × ((f : Function) → lookups f w.events ≡ lookups f l.events)

  pub ensure_monitor-Watched : (l : Library) → Inv l → Watched l (ensure_monitor getenv_threshold l)
  unfolding ensure_monitor
  ensure_monitor-Watched l i = by_start l.monitor_started refl
    where
      by_start :
          (b : Bool)
          → l.monitor_started ≡ b
          → Watched l (
              if b then l else record l {
                monitor_started = true;
                threshold_secs = read_threshold getenv_threshold;
                events = spawned ∷ l.events;
              })
      by_start true e =
          let s : StartedOnce true l.threshold_secs (spawns l.events) =
            subst (λ b. StartedOnce b l.threshold_secs (spawns l.events)) e i.started in
          (i, s.0, e, refl, λ f. refl)
      by_start false e =
          let s : StartedOnce false l.threshold_secs (spawns l.events) =
            subst (λ b. StartedOnce b l.threshold_secs (spawns l.events)) e i.started in
          (
            record { cached = i.cached; started = (ap suc s.0, refl); orderly = (s.0, i.orderly) },
            ap suc s.0,
            refl,
            refl,
            λ f. refl,
          )
