-- ===== src/Log/Lines.antt =====
-- src/log.rs, and timestr of src/util.rs: where a message goes, and as what. logtype holds one of its
-- two bits. The formatted message, strftime's text and what to_str says of a text are arguments.
pub mod Reaches
use autossh_1_4g.Base.{
  ℕ, Bool, true, false, ◌||◌, Option, none, some, List, [], ◌∷◌, ◌++◌, if◌then◌else◌,
}
use autossh_1_4g.Base.Int.{ℤ, ltb_ℤ}
use autossh_1_4g.Base.Bytes.{Bytes, codes, cstring_new, decimal}
use autossh_1_4g.Settings.{LogType}

pub data Sink : Type 0 where
  syslog : Sink
  log_file : Sink
  to_stderr : Sink

-- logtype, loglevel, whether flog is not NULL, __progname, getpid, and what strftime makes of the local
-- time, if localtime knows it.
pub record Logger : Type 0 where
  pub logtype : LogType
  pub loglevel : ℤ
  pub has_flog : Bool
  pub progname : Option Bytes
  pub pid : ℕ
  pub local_time : Option Bytes

-- What was written, and where.
abbrev pub LogOutput : Type 0
LogOutput = List (Sink × Bytes)

abbrev logs_to_syslog : LogType → Bool
logs_to_syslog LogType.to_syslog = true
logs_to_syslog LogType.to_file = false

-- flog, or stderr in its place.
abbrev stream : Bool → Sink
stream true = log_file
stream false = to_stderr

abbrev pub progname_or : Option Bytes → Bytes
progname_or none = codes "autossh"
progname_or (some name) = name

-- An empty text where there is no local time.
unfoldable pub timestr : Option Bytes → Bytes
timestr none = []
timestr (some text) = text

-- "%s %s[%d]: %s\n"
unfoldable pub log_line : Logger → Bytes → Bytes
unfolding timestr
log_line g msg =
    timestr g.local_time
    ++ (32 ∷ progname_or g.progname ++ (91 ∷ decimal g.pid ++ (codes "]: " ++ (msg ++ 10 ∷ []))))

unfoldable pub write_message : Logger → Bytes → LogOutput
unfolding log_line
write_message g msg =
    if logs_to_syslog g.logtype
    then (syslog, msg) ∷ []
    else (stream g.has_flog, log_line g msg) ∷ []

-- A NULL message is `none`.
unfoldable pub errlog_str : Logger → ℤ → Option Bytes → LogOutput
unfolding write_message
errlog_str g level none = []
errlog_str g level (some msg) = if ltb_ℤ g.loglevel level then [] else write_message g msg

-- errlog!: a text that is no C string is dropped.
unfoldable pub log_with : Logger → ℤ → Bytes → LogOutput
unfolding errlog_str cstring_new
log_with g level text = errlog_str g level (cstring_new text)

abbrev pub formatting_failed : Bytes
formatting_failed = codes "autossh: log formatting failed"

abbrev pub text_or_failed : Option Bytes → Bytes
text_or_failed none = formatting_failed
text_or_failed (some msg) = msg

-- xerrlog!, up to the teardown (Log.xerrlog): another text stands in for one that is no C string.
unfoldable pub xlog_with : Logger → ℤ → Bytes → LogOutput
unfolding errlog_str cstring_new
xlog_with g level text = errlog_str g level (some (text_or_failed (cstring_new text)))

-- A C string in a message, or a text in its place.
unfoldable pub cstr_or : (Bytes → Bool) → Option Bytes → Bytes → Bytes
cstr_or is_utf8 none fallback = fallback
cstr_or is_utf8 (some text) fallback = if is_utf8 text then text else codes "<non-utf8>"
