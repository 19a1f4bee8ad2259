-- ===== src/Drain/Keeps.antt =====
-- check_ssh_stderr always returns, and touches only last_stderr_time, port_fwd_failed and what it
-- writes. `I` is any condition that reads none of these.
use autossh_1_4g.Base.{ℕ, suc, Bool, true, List, [], ◌∷◌, arith}
use autossh_1_4g.Base.Bytes.{Bytes}
use autossh_1_4g.Posix.{Os, Call}
use autossh_1_4g.Process.{State, M}
use autossh_1_4g.Process.Triple.{Ends}
use autossh_1_4g.Drain.{c_str, search_chunk, drain_chunks, check_ssh_stderr}

module _ (I : State → Type 0) (calls : (s : State) (n : ℕ) → I s → I (record s { calls = n }))
    (writes : (s : State) (n t : ℕ) (b : Bytes)
      → I s
      → I (record s { calls = n; last_stderr_time = t; trace = Call.write_stderr b ∷ s.trace }))
    (fails : (s : State) → I s → I (record s { port_fwd_failed = true })) where
  search_chunk-keeps :
      (text : Bytes) (rest : M Bool) (os : Os) (s : State)
      → I s
      → Ends (λ _. I) I (rest os s)
      → Ends (λ _. I) I (search_chunk text rest os s)
  unfolding search_chunk
  search_chunk-keeps text rest os s h k = ground (arith, fails s h)

  drain_chunks-keeps :
      (cs : List Bytes) (os : Os) (s : State) → I s → Ends (λ _. I) I (drain_chunks cs os s)
  unfolding drain_chunks
  drain_chunks-keeps [] os s h = h
  drain_chunks-keeps (c ∷ cs) os s h =
      let h' = writes s (suc (suc s.calls)) (os.time s.calls) c h in
      search_chunk-keeps (c_str c) (drain_chunks cs) os _ h' (drain_chunks-keeps cs os _ h')

  pub check_ssh_stderr-keeps : (os : Os) (s : State) → I s → Ends (λ _. I) I (check_ssh_stderr os s)
  unfolding check_ssh_stderr
  check_ssh_stderr-keeps os s h =
      ground (arith, drain_chunks-keeps (os.stderr_data s.calls) os _ (calls s (suc s.calls) h), h)
