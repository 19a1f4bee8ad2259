-- ===== src/Detector/Hooks.antt =====
-- ssh-stuck-detector/src/lib.rs: the five hooked functions, with the pointers to the real functions that
-- they keep, and the start of the monitor. What dlsym and getenv answer are arguments; `none` is a call
-- through NULL, with which the process is lost. The hooks run on one thread here.
pub mod Invariant
pub mod Nested
pub mod Once
use autossh_1_4g.Base.{
  ℕ, suc, ◌≡◌, refl, Bool, true, false, Option, none, some, List, [], ◌∷◌, ◌==◌, if◌then◌else◌,
}
use autossh_1_4g.Base.Int.{ℤ}
use autossh_1_4g.Base.Bytes.{Bytes, codes}
use autossh_1_4g.Detector.{Tracker, enter, leave, default_threshold_secs, read_threshold}

pub data Function : Type 0 where
  connect_t getaddrinfo_t recv_t recvfrom_t recvmsg_t : Function

-- Their trackers' places in TRACKERS.
abbrev pub number : Function → ℕ
number connect_t = 0
number getaddrinfo_t = 1
number recv_t = 2
number recvfrom_t = 3
number recvmsg_t = 4

abbrev pub name_of : Function → Bytes
name_of connect_t = codes "connect"
name_of getaddrinfo_t = codes "getaddrinfo"
name_of recv_t = codes "recv"
name_of recvfrom_t = codes "recvfrom"
name_of recvmsg_t = codes "recvmsg"

-- A call of dlsym, a new monitor thread, and a call of a real function by its pointer.
pub data Event : Type 0 where
  looked_up : Function → Event
  spawned : Event
  called : Function → ℕ → Event

-- The statics of the library, and what it did, the latest first. A pointer is `none` while it is NULL.
pub record Library : Type 0 where
  pub real : Function → Option ℕ
  pub monitor_started : Bool
  pub threshold_secs : ℕ
  pub tracked : Function → Tracker
  pub events : List Event

abbrev pub fresh_library : Library
fresh_library = record {
  real = λ f. none;
  monitor_started = false;
  threshold_secs = default_threshold_secs;
  tracked = λ f. record { name = name_of f; start_sec = 0; last_warn_sec = 0 };
  events = [];
}

abbrev pub set_at : {A : Type 0} → Function → A → (Function → A) → Function → A
set_at f a fs k = if number k == number f then a else fs k

infixl 5 ◌>>=◌
abbrev pub ◌>>=◌ : {A B : Type 0} → Option A → (A → Option B) → Option B
none >>= f = none
some a >>= f = f a

-- The hooked calls of a thread, each at a second, with those that the real function makes itself,
-- and those that come after it.
pub data Activity : Type 0 where
  over : Activity
  call_of : Function → ℕ → Activity → Activity → Activity

module _ (dlsym : Bytes → Option ℕ) where
  -- The pointer that dlsym gave is kept; NULL is not called.
  unfoldable pub next_fn : Function → Library → Option (ℕ × Library)
  next_fn f l = do
    p ← dlsym (name_of f)
    some (p, record l { real = set_at f (some p) l.real; events = looked_up f ∷ l.events })

  unfoldable pub resolve : Function → Library → Option (ℕ × Library)
  unfolding next_fn
  resolve f l = elim (l.real f) [ some p ↦ some (p, l) | none ↦ next_fn f l ]

unfoldable pub ensure_monitor : Option (ℤ × Bool) → Library → Library
ensure_monitor getenv_threshold l = if l.monitor_started then l else record l {
  monitor_started = true;
  threshold_secs = read_threshold getenv_threshold;
  events = spawned ∷ l.events;
}

-- The real function p of f under its tracker; `real` is what it does to the library, by hooked calls
-- that it makes itself.
unfoldable pub call_real : Function → ℕ → (Library → Option Library) → ℕ → Library → Option Library
unfolding enter leave
call_real f now real p l = do
  let entered = enter now (l.tracked f)
  back ← real (record l { tracked = set_at f entered.1 l.tracked; events = called f p ∷ l.events })
  some (record back { tracked = set_at f (leave entered.0 (back.tracked f)) back.tracked })

module _ (dlsym : Bytes → Option ℕ) (getenv_threshold : Option (ℤ × Bool)) where
  unfoldable pub hooked : Function → ℕ → (Library → Option Library) → Library → Option Library
  unfolding resolve ensure_monitor call_real
  hooked f now real l = do
    found ← resolve dlsym f l
    call_real f now real found.0 (ensure_monitor getenv_threshold found.1)

  unfoldable pub connect : ℕ → (Library → Option Library) → Library → Option Library
  unfolding hooked
  connect = hooked connect_t

  unfoldable pub getaddrinfo : ℕ → (Library → Option Library) → Library → Option Library
  unfolding hooked
  getaddrinfo = hooked getaddrinfo_t

  unfoldable pub recv : ℕ → (Library → Option Library) → Library → Option Library
  unfolding hooked
  recv = hooked recv_t

  unfoldable pub recvfrom : ℕ → (Library → Option Library) → Library → Option Library
  unfolding hooked
  recvfrom = hooked recvfrom_t

  unfoldable pub recvmsg : ℕ → (Library → Option Library) → Library → Option Library
  unfolding hooked
  recvmsg = hooked recvmsg_t

  unfoldable pub hook_of : Function → ℕ → (Library → Option Library) → Library → Option Library
  unfolding connect getaddrinfo recv recvfrom recvmsg
  hook_of connect_t = connect
  hook_of getaddrinfo_t = getaddrinfo
  hook_of recv_t = recv
  hook_of recvfrom_t = recvfrom
  hook_of recvmsg_t = recvmsg

  unfoldable pub run : Activity → Library → Option Library
  unfolding hook_of
  run over l = some l
  run (call_of f now inner next) l = do after ← hook_of f now (run inner) l; run next after
