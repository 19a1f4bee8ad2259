-- ===== src/Log/Lines/Reaches.antt =====
-- Which messages reach the log.
use autossh_1_4g.Base.{
  ℕ, ◌≡◌, ◌⊎◌, inl, inr, refl, sym, subst, Bool, true, false, Option, none, some, List, [], ◌∷◌,
  ◌++◌, arith, if◌then◌else◌,
}
use autossh_1_4g.Base.Int.{ℤ, ◌≤ℤ◌}
use autossh_1_4g.Base.Bytes.{Bytes, codes, cstring_new, decimal}
use autossh_1_4g.Settings.{LogType}
use autossh_1_4g.Log.Lines.{
  logs_to_syslog, stream, syslog, log_file, to_stderr, Logger, LogOutput, write_message, log_line,
  errlog_str, log_with, xlog_with, text_or_failed, timestr, progname_or,
}

-- The byte stands in the text.
abbrev pub Has : ℕ → Bytes → Type 0
Has b [] = ⊥
Has b (x ∷ xs) = (x ≡ b) ⊎ Has b xs

-- What stands for an optional text.
abbrev StandsFor : Option Bytes → Bytes → Bytes → Type 0
StandsFor none fallback text = text ≡ fallback
StandsFor (some given) fallback text = text ≡ given

abbrev joined : List Bytes → Bytes
joined [] = []
joined (part ∷ parts) = part ++ joined parts

-- One line: the local time if it is known, the name of the program, its pid, and the whole message.
abbrev pub IsLine : Logger → Bytes → Bytes → Type 0
IsLine g msg line =
    (stamp : Bytes) × (name : Bytes) × StandsFor g.local_time [] stamp
    × StandsFor g.progname (codes "autossh") name
    × (line
        ≡ joined (
            stamp
            ∷ codes " "
            ∷ name
            ∷ codes "["
            ∷ decimal g.pid
            ∷ codes "]: "
            ∷ msg
            ∷ (10 ∷ [])
            ∷ []))

-- A message is written once: to syslog as it is, or as a line to the file or to stderr.
abbrev pub IsWritten : Logger → Bytes → LogOutput → Type 0
IsWritten g msg [] = ⊥
IsWritten g msg ((syslog, text) ∷ rest) =
    (g.logtype ≡ LogType.to_syslog) × (text ≡ msg) × (rest ≡ [])
IsWritten g msg ((log_file, text) ∷ rest) =
    (g.logtype ≡ LogType.to_file) × (g.has_flog ≡ true) × IsLine g msg text × (rest ≡ [])
IsWritten g msg ((to_stderr, text) ∷ rest) =
    (g.logtype ≡ LogType.to_file) × (g.has_flog ≡ false) × IsLine g msg text × (rest ≡ [])

-- The level is above that of the log.
abbrev pub IsAbove : Logger → ℤ → Type 0
IsAbove g level = ¬ (level ≤ℤ g.loglevel)

-- errlog! is silent only about a message above the level of the log, or with a NUL byte.
abbrev pub Logs : Logger → ℤ → Bytes → LogOutput → Type 0
Logs g level text [] = IsAbove g level ⊎ Has 0 text
Logs g level text (entry ∷ rest) =
    (level ≤ℤ g.loglevel) × (¬ Has 0 text) × IsWritten g text (entry ∷ rest)

-- xerrlog! is silent only about a message above the level of the log.
abbrev pub LogsAnyway : Logger → ℤ → Bytes → LogOutput → Type 0
LogsAnyway g level text [] = IsAbove g level
LogsAnyway g level text (entry ∷ rest) =
    (level ≤ℤ g.loglevel)
    × (((¬ Has 0 text) × IsWritten g text (entry ∷ rest))
        ⊎ (Has 0 text × IsWritten g (codes "autossh: log formatting failed") (entry ∷ rest)))

-- What CString::new makes of a text.
abbrev IsCString : Bytes → Option Bytes → Type 0
IsCString text none = Has 0 text
IsCString text (some s) = (¬ Has 0 text) × (s ≡ text)

cstring_new-IsCString : (text : Bytes) → IsCString text (cstring_new text)
unfolding cstring_new
cstring_new-IsCString [] = (λ h. h, refl)
cstring_new-IsCString (b ∷ bs) = ground (arith, cstring_new-IsCString bs)

timestr-StandsFor : (t : Option Bytes) → StandsFor t [] (timestr t)
unfolding timestr
timestr-StandsFor none = refl
timestr-StandsFor (some text) = refl

progname_or-StandsFor : (t : Option Bytes) → StandsFor t (codes "autossh") (progname_or t)
progname_or-StandsFor none = refl
progname_or-StandsFor (some name) = refl

log_line-IsLine : (g : Logger) (msg : Bytes) → IsLine g msg (log_line g msg)
unfolding log_line
log_line-IsLine g msg = (
  timestr g.local_time,
  progname_or g.progname,
  timestr-StandsFor g.local_time,
  progname_or-StandsFor g.progname,
  refl,
)

write_message-IsWritten : (g : Logger) (msg : Bytes) → IsWritten g msg (write_message g msg)
unfolding write_message
write_message-IsWritten g msg = by_kind g.logtype g.has_flog refl refl
  where
    by_kind :
        (kind : LogType) (flog : Bool)
        → g.logtype ≡ kind
        → g.has_flog ≡ flog
        → IsWritten g msg
            (if logs_to_syslog kind then (syslog, msg) ∷ [] else (stream flog, log_line g msg) ∷ [])
    by_kind LogType.to_syslog flog e e' = (e, refl, refl)
    by_kind LogType.to_file true e e' = (e, e', log_line-IsLine g msg, refl)
    by_kind LogType.to_file false e e' = (e, e', log_line-IsLine g msg, refl)

errlog_str-IsWritten :
    (g : Logger) (level : ℤ) (msg : Bytes)
    → ((IsAbove g level) × (errlog_str g level (some msg) ≡ []))
      ⊎ ((level ≤ℤ g.loglevel) × (errlog_str g level (some msg) ≡ write_message g msg))
unfolding errlog_str
errlog_str-IsWritten g level msg = ground arith

module _ (g : Logger) (level : ℤ) (text : Bytes) where
  wrote-Logs :
      (w : LogOutput)
      → level ≤ℤ g.loglevel
      → ¬ Has 0 text
      → IsWritten g text w
      → Logs g level text w
  wrote-Logs [] le none_in w = absurd w
  wrote-Logs (entry ∷ rest) le none_in w = (le, none_in, w)

  wrote-LogsAnyway :
      (s : Option Bytes) (w : LogOutput)
      → level ≤ℤ g.loglevel
      → IsCString text s
      → IsWritten g (text_or_failed s) w
      → LogsAnyway g level text w
  wrote-LogsAnyway s [] le c w = absurd w
  wrote-LogsAnyway none (entry ∷ rest) le c w = (le, inr (c, w))
  wrote-LogsAnyway (some s) (entry ∷ rest) le c w =
      (le, inl (c.0, subst (λ m. IsWritten g m (entry ∷ rest)) c.1 w))

  errlog_str-Logs : (s : Option Bytes) → IsCString text s → Logs g level text (errlog_str g level s)
  unfolding errlog_str
  errlog_str-Logs none c = inr c
  errlog_str-Logs (some s) c = elim (errlog_str-IsWritten g level s) [
    | inl (above, e) ↦ subst (Logs g level text) (sym e) (inl above)
    | inr (le, e) ↦ subst (Logs g level text) (sym e) (
        wrote-Logs (write_message g s) le c.0
          (subst (λ m. IsWritten g m (write_message g s)) c.1 (write_message-IsWritten g s)))
  ]

  errlog_str-LogsAnyway :
      (s : Option Bytes)
      → IsCString text s
      → LogsAnyway g level text (errlog_str g level (some (text_or_failed s)))
  errlog_str-LogsAnyway s c = elim (errlog_str-IsWritten g level (text_or_failed s)) [
    | inl (above, e) ↦ subst (LogsAnyway g level text) (sym e) above
    | inr (le, e) ↦ subst (LogsAnyway g level text) (sym e) (
        wrote-LogsAnyway s (write_message g (text_or_failed s)) le c
          (write_message-IsWritten g (text_or_failed s)))
  ]

  -- errlog! writes a message exactly if it is not above the level of the log and holds no NUL byte, and
  -- xerrlog! exactly if it is not above the level, with another text in place of one with a NUL
  -- byte: both write it once, to syslog as it is, or as a line to the log file, or to stderr where no
  -- log file is open. The line has the local time, if that is known, the name of the program, its pid
  -- and the whole message, in this order.
  pub log_with-xlog_with :
      Logs g level text (log_with g level text) × LogsAnyway g level text (xlog_with g level text)
  unfolding log_with xlog_with
  log_with-xlog_with = (
    errlog_str-Logs (cstring_new text) (cstring_new-IsCString text),
    errlog_str-LogsAnyway (cstring_new text) (cstring_new-IsCString text),
  )
