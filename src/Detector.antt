-- ===== src/Detector.antt =====
-- ssh-stuck-detector/src/lib.rs: the library that is preloaded into ssh. Each hooked call is
-- tracked, and a thread looks at the trackers once a second. The clock is monotonic and positive,
-- times are natural numbers, and a difference that would be negative is 0: read_threshold lets only
-- a positive threshold through, so both are below it.
pub mod Lines
pub mod Nesting
pub mod Monitor
pub mod Threads
pub mod Hooks
use autossh_1_4g.Base.{
  ℕ, zero, suc, ◌+◌, ◌-◌, ◌*◌, ◌/◌, ◌%◌, Bool, true, false, not, ◌&&◌, Option, none, some, List, [],
  ◌∷◌, ◌++◌, ltb, leb, ◌==◌, length, if◌then◌else◌,
}
use autossh_1_4g.Base.Int.{ℤ, pos, negsuc}
use autossh_1_4g.Base.Bytes.{Bytes, codes}

abbrev pub default_threshold_secs : ℕ
default_threshold_secs = 30

-- start_sec is 0 when no call is tracked.
pub record Tracker : Type 0 where
  pub name : Bytes
  pub start_sec : ℕ
  pub last_warn_sec : ℕ

abbrev tracker : Bytes → Tracker
tracker name = record { name = name; start_sec = 0; last_warn_sec = 0 }

abbrev pub trackers : List Tracker
trackers =
    tracker (codes "connect")
    ∷ tracker (codes "getaddrinfo")
    ∷ tracker (codes "recv")
    ∷ tracker (codes "recvfrom")
    ∷ tracker (codes "recvmsg")
    ∷ []

-- Returns the start second that was there before.
unfoldable pub enter : ℕ → Tracker → ℕ × Tracker
enter now t = (t.start_sec, if t.start_sec == 0 then record t { start_sec = now } else t)

unfoldable pub leave : ℕ → Tracker → Tracker
leave prev t = if prev == 0 then record t { start_sec = 0; last_warn_sec = 0 } else t

-- What the real function does while a hooked call is in flight, on the same thread: more hooked
-- calls on the same tracker, one after the other, each at the second at which it begins.
pub data Calls : Type 0 where
  none_left : Calls
  call : ℕ → Calls → Calls → Calls

-- connect, getaddrinfo, recv, recvfrom and recvmsg: enter, the real function, leave.
unfoldable pub intercept : Calls → Tracker → Tracker
unfolding enter leave
intercept none_left t = t
intercept (call now inner next) t =
    let prev_entered = enter now t in
    let returned = intercept inner prev_entered.1 in intercept next (leave prev_entered.0 returned)

-- read_threshold: what strtol made of SSH_STUCK_THRESHOLD, and whether it read all of it.
unfoldable pub read_threshold : Option (ℤ × Bool) → ℕ
read_threshold none = default_threshold_secs
read_threshold (some (pos v, whole)) = if ltb 0 v && whole then v else default_threshold_secs
read_threshold (some (negsuc v, whole)) = default_threshold_secs

-- One byte goes into the buffer of warn_stderr if there is room.
abbrev pub buffer_size : ℕ
buffer_size = 128

unfoldable pub put_byte : Bytes → ℕ → Bytes
put_byte buf b = if ltb (length buf) buffer_size then buf ++ (b ∷ []) else buf

unfoldable pub put : Bytes → Bytes → Bytes
unfolding put_byte
put buf [] = buf
put buf (b ∷ bs) = put (put_byte buf b) bs

-- The digits, written from the last one on and read from the other end; the fuel is more than
-- their number.
unfoldable pub digits : ℕ → ℕ → Bytes → Bytes
digits zero s acc = acc
digits (suc fuel) s acc =
    let rest = digits fuel (s / 10) ((48 + s % 10) ∷ acc) in if s == 0 then acc else rest

unfoldable pub itoa : ℕ → Bytes
unfolding digits
itoa s = if s == 0 then 48 ∷ [] else digits 20 s []

unfoldable pub put_all : Bytes → List Bytes → Bytes
unfolding put
put_all buf [] = buf
put_all buf (piece ∷ pieces) = put_all (put buf piece) pieces

abbrev pub pieces : Bytes → ℕ → List Bytes
pieces name secs =
    codes "ssh-stuck-detector: STUCK in "
    ∷ name
    ∷ codes "() for "
    ∷ itoa secs
    ∷ (codes " secs" ++ 10 ∷ [])
    ∷ []

unfoldable pub warn_stderr : Bytes → ℕ → Bytes
unfolding put_all itoa
warn_stderr name secs = put_all [] (pieces name secs)

abbrev pub abort_message : Bytes
abort_message = codes "ssh-stuck-detector: aborting stuck process" ++ 10 ∷ []

-- One look at a tracker: what is written, and whether the process is ended.
unfoldable pub warns : ℕ → ℕ → Tracker → Bool
warns now threshold t =
    not (t.start_sec == 0)
    && (leb threshold (now - t.start_sec) && leb threshold (now - t.last_warn_sec))

unfoldable pub aborts : ℕ → ℕ → Tracker → Bool
aborts now threshold t =
    not (t.start_sec == 0)
    && (leb threshold (now - t.start_sec) && leb (threshold * 2) (now - t.start_sec))

unfoldable pub look : ℕ → ℕ → Tracker → Tracker × List Bytes
unfolding warns warn_stderr
look now threshold t =
    if warns now threshold t
    then (record t { last_warn_sec = now }, warn_stderr t.name (now - t.start_sec) ∷ [])
    else (t, [])

-- What a second of the monitor leaves: the trackers, the lines written, and whether the process
-- was ended.
pub record Scan : Type 0 where
  pub seen : List Tracker
  pub lines : List Bytes
  pub aborted : Bool

-- The trackers in order, up to one that ends the process.
unfoldable pub scan : ℕ → ℕ → List Tracker → Scan
unfolding look aborts
scan now threshold [] = record { seen = []; lines = []; aborted = false }
scan now threshold (t ∷ ts) =
    let looked = look now threshold t in
    let rest = scan now threshold ts in
    if aborts now threshold t
    then record { seen = looked.0 ∷ ts; lines = looked.1 ++ (abort_message ∷ []); aborted = true }
    else record {
      seen = looked.0 ∷ rest.seen;
      lines = looked.1 ++ rest.lines;
      aborted = rest.aborted;
    }
