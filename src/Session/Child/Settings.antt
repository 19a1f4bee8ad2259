-- ===== src/Session/Child/Settings.antt =====
-- The settings of a session go through the environment of the supervisor and come back.
use autossh_1_4g.Base.{
  ℕ, zero, suc, ◌≤◌, ◌<◌, ◌≡◌, refl, sym, ◌⊎◌, inl, inr, Bool, true, false, Option, none, some, [],
  ◌++◌, arith, if◌then◌else◌,
}
use autossh_1_4g.Base.Int.{ℤ, pos, negsuc, pos_part, neg_part, c_int, c_int_of_ℕ}
use autossh_1_4g.Base.Bytes.{Bytes, codes, decimal, decimal_int}
use autossh_1_4g.Base.Digits.{decimal-nonempty}
use autossh_1_4g.Settings.{Settings}
use autossh_1_4g.Env.{
  Var, poll_of, set_poll, set_first_poll, set_gate_time, set_max_start, set_session,
}
use autossh_1_4g.Env.Read.{Numbers, is_empty_cstr, parse_ul, parse_l}
use autossh_1_4g.Session.{is_positive}
use autossh_1_4g.Session.Child.{Environment, is_nonzero}

-- strtoul and strtol read the decimal digits of every c_int, and stop at their end.
abbrev pub ReadsDecimals : Numbers → Type 0
ReadsDecimals num =
    ((n : ℕ) → n < 2147483648 → num.strtoul (decimal n) ≡ (n, []))
    × ((z : ℤ)
        → pos_part z < 2147483648
        → neg_part z ≤ 2147483648
        → num.strtol (decimal_int z) ≡ (z, []))

-- No AUTOSSH_ variable is set.
abbrev pub IsClean : Environment → Type 0
IsClean env = (k : Bytes) → env (codes "AUTOSSH_" ++ k) ≡ none

-- A number of seconds that is set and shown as the whole number n, or that is not set: then n is the
-- default.
abbrev pub Seconds : Bool → Bytes → ℕ → ℕ → Type 0
Seconds set text default n =
    ((set ≡ false) × (n ≡ default)) ⊎ ((set ≡ true) × (text ≡ decimal n) × (n < 2147483648))

abbrev pub positive_or : ℕ → ℤ → ℕ
positive_or d (pos (suc n)) = suc n
positive_or d z = d

abbrev pub starts_or_unlimited : ℤ → ℤ
starts_or_unlimited (pos zero) = negsuc 0
starts_or_unlimited z = z

abbrev pub path_or : Bytes → Option Bytes → Bytes
path_or d none = d
path_or d (some p) = p

is_empty-decimal : (n : ℕ) → is_empty_cstr (decimal n) ≡ false
is_empty-decimal n = ground (arith, decimal-nonempty n)

-- A variable that holds a number.
abbrev pub read_as : {A : Type 0} → A → Option (Var A)
read_as v = some (record { is_empty = false; value = v; whole = true })

abbrev pub poll_var : ℤ → Option (Var ℕ)
poll_var (pos (suc n)) = read_as (suc n)
poll_var z = none

abbrev pub given : Bool → Bytes → Option Bytes
given set text = if set then some text else none

is_empty-decimal_int : (z : ℤ) → is_empty_cstr (decimal_int z) ≡ false
unfolding decimal_int
is_empty-decimal_int (pos n) = is_empty-decimal n
is_empty-decimal_int (negsuc n) = refl

decimal_int-pos : (n : ℕ) → decimal_int (pos n) ≡ decimal n
unfolding decimal_int
decimal_int-pos n = refl

abbrev pub seconds_var : Bool → ℤ → Option (Var ℤ)
seconds_var set z = if set then read_as z else none

abbrev pub session_var : Bool → ℕ → Option (Var ℕ)
session_var set n = if set then read_as n else none

abbrev pub start_var : ℤ → Option (Var ℤ)
start_var (pos zero) = none
start_var z = read_as z

module _ (num : Numbers) (reads : ReadsDecimals num) where
  parse_ul-decimal : (n : ℕ) → n < 2147483648 → parse_ul num (some (decimal n)) ≡ read_as n
  parse_ul-decimal n h = rw (reads.0 n h, is_empty-decimal n) refl

  parse_l-decimal_int :
      (z : ℤ)
      → pos_part z < 2147483648
      → neg_part z ≤ 2147483648
      → parse_l num (some (decimal_int z)) ≡ read_as z
  parse_l-decimal_int z h k = rw (reads.1 z h k, is_empty-decimal_int z) refl

  pub poll_lookup :
      (z : ℤ)
      → pos_part z < 2147483648
      → parse_ul num (given (is_positive z) (decimal_int z)) ≡ poll_var z
  poll_lookup (pos zero) h = refl
  poll_lookup (pos (suc n)) h = rw (decimal_int-pos (suc n)) (parse_ul-decimal (suc n) h)
  poll_lookup (negsuc n) h = refl

  pub start_lookup :
      (z : ℤ)
      → pos_part z < 2147483648
      → neg_part z ≤ 1
      → parse_l num (given (is_nonzero z) (decimal_int z)) ≡ start_var z
  start_lookup (pos zero) h k = refl
  start_lookup (pos (suc n)) h k = parse_l-decimal_int (pos (suc n)) h (omega arith)
  start_lookup (negsuc n) h k = parse_l-decimal_int (negsuc n) h (omega arith)

  pub gate_lookup :
      (set : Bool) (text : Bytes) (d n : ℕ)
      → Seconds set text d n
      → parse_l num (given set text) ≡ seconds_var set (pos n)
  gate_lookup set text d n (inl (e, f)) = rw e refl
  gate_lookup set text d n (inr (e, t, h)) =
      rw (e, t, sym (decimal_int-pos n)) (parse_l-decimal_int (pos n) h (omega arith))

  pub session_lookup :
      (set : Bool) (text : Bytes) (d n : ℕ)
      → Seconds set text d n
      → parse_ul num (given set text) ≡ session_var set n
  session_lookup set text d n (inl (e, f)) = rw e refl
  session_lookup set text d n (inr (e, t, h)) = rw (e, t) (parse_ul-decimal n h)

poll_of-c_int : (n : ℕ) → n < 2147483647 → poll_of (c_int_of_ℕ (suc n)) ≡ suc n
poll_of-c_int n h = ground arith

c_int-start : (z : ℤ) → pos_part z < 2147483648 → neg_part z ≤ 1 → c_int z ≡ z
c_int-start z h k = ground arith

pub set_poll-var :
    (z : ℤ) (s : Settings)
    → pos_part z < 2147483648
    → set_poll (poll_var z) s ≡ some (record s { poll_time = positive_or s.poll_time z })
unfolding set_poll
set_poll-var (pos zero) s h = refl
set_poll-var (pos (suc n)) s h = ground (arith, poll_of-c_int n (omega arith))
set_poll-var (negsuc n) s h = refl

pub set_first_poll-var :
    (z : ℤ) (s : Settings)
    → pos_part z < 2147483648
    → set_first_poll (poll_var z) s
      ≡ some (record s { first_poll_time = positive_or s.poll_time z })
unfolding set_first_poll
set_first_poll-var (pos zero) s h = refl
set_first_poll-var (pos (suc n)) s h = ground (arith, poll_of-c_int n (omega arith))
set_first_poll-var (negsuc n) s h = refl

pub set_gate_time-var :
    (set : Bool) (text : Bytes) (n : ℕ) (s : Settings)
    → Seconds set text s.gate_time n
    → set_gate_time (seconds_var set (pos n)) s ≡ some (record s { gate_time = n })
unfolding set_gate_time
set_gate_time-var set text n s (inl (e, f)) = rw (e, f) refl
set_gate_time-var set text n s (inr (e, t, h)) = rw e (ground arith)

pub set_max_start-var :
    (z : ℤ) (s : Settings)
    → s.max_start ≡ negsuc 0
    → pos_part z < 2147483648
    → neg_part z ≤ 1
    → set_max_start (start_var z) s ≡ some (record s { max_start = starts_or_unlimited z })
unfolding set_max_start
set_max_start-var (pos zero) s e h k = rw (sym e) refl
set_max_start-var (pos (suc n)) s e h k = ground (arith, c_int-start (pos (suc n)) h k)
set_max_start-var (negsuc n) s e h k = ground (arith, c_int-start (negsuc n) h k)

pub set_session-var :
    (set : Bool) (text : Bytes) (n : ℕ) (s : Settings)
    → Seconds set text s.max_session n
    → set_session (session_var set n) s ≡ some (record s { max_session = n })
unfolding set_session
set_session-var set text n s (inl (e, f)) = rw (e, f) refl
set_session-var set text n s (inr (e, t, h)) = rw e refl
