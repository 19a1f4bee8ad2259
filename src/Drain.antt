-- ===== src/Drain.antt =====
-- src/stderr_drain.rs: what ssh writes to its stderr is read, passed on, and searched for the two
-- messages that call for a restart. The chunks that come before a read returns 0 or -1 are the
-- kernel's reply.
pub mod Keeps
pub mod Match
use autossh_1_4g.Base.{suc, Bool, true, false, ◌||◌, none, some, List, [], ◌∷◌, ◌==◌, if◌then◌else◌}
use autossh_1_4g.Base.Bytes.{Bytes, codes}
use autossh_1_4g.Posix.{Call}
use autossh_1_4g.Process.{M, done, pure, modify, ask, record_call, ◌>>=◌, ◌>>◌}

-- The C string in a buffer that was terminated behind its data.
unfoldable pub c_str : Bytes → Bytes
c_str [] = []
c_str (b ∷ bs) = if b == 0 then [] else b ∷ c_str bs

unfoldable pub starts_with : Bytes → Bytes → Bool
starts_with [] hay = true
starts_with (n ∷ ns) [] = false
starts_with (n ∷ ns) (b ∷ bs) = if n == b then starts_with ns bs else false

-- strstr(hay, needle) != NULL
unfoldable pub strstr : Bytes → Bytes → Bool
unfolding starts_with
strstr [] needle = starts_with needle []
strstr (b ∷ bs) needle = starts_with needle (b ∷ bs) || strstr bs needle

abbrev pub port_fwd_message : Bytes
port_fwd_message = codes "remote port forwarding failed"

abbrev pub stuck_message : Bytes
stuck_message = codes "ssh-stuck-detector: STUCK"

-- The search for the fatal messages; `rest` is the rest of the loop.
unfoldable pub search_chunk : Bytes → M Bool → M Bool
unfolding strstr
search_chunk text rest =
    if strstr text port_fwd_message
    then (do modify (λ s. record s { port_fwd_failed = true }); pure true)
    else if strstr text stuck_message
    then pure true
    else rest

-- One successful read of the loop.
unfoldable pub drain_chunk : Bytes → M Bool → M Bool
unfolding c_str search_chunk
drain_chunk chunk rest = do
  now ← ask (λ os n. os.time n)
  modify (λ s. record s { last_stderr_time = now })
  record_call (Call.write_stderr chunk)
  search_chunk (c_str chunk) rest

unfoldable pub drain_chunks : List Bytes → M Bool
unfolding drain_chunk
drain_chunks [] = pure false
drain_chunks (chunk ∷ rest) = drain_chunk chunk (drain_chunks rest)

unfoldable pub check_ssh_stderr : M Bool
unfolding drain_chunks
check_ssh_stderr os s = elim s.ssh_stderr_fd [
  | none ↦ done false s
  | some fd ↦ drain_chunks (os.stderr_data s.calls) os (record s { calls = suc s.calls })
]
