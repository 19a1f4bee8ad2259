-- ===== src/Drain/Match.antt =====
-- What the search of the drained text finds.
use autossh_1_4g.Base.{
  ℕ, ◌≡◌, ◌↔◌, refl, ap, Bool, true, false, List, [], ◌∷◌, ◌++◌, ◌⊎◌, inl, inr, arith, Bool-cases,
  some, if◌then◌else◌,
}
use autossh_1_4g.Base.Bytes.{Bytes}
use autossh_1_4g.Posix.{Os}
use autossh_1_4g.Process.{State, M, pure, modify, ◌>>◌}
use autossh_1_4g.Process.Triple.{Ends, Ends-if, Ends-weaken}
use autossh_1_4g.Drain.{
  c_str, starts_with, strstr, port_fwd_message, stuck_message, search_chunk, drain_chunks,
  check_ssh_stderr,
}

-- The needle occurs in the text.
abbrev pub Contains : Bytes → Bytes → Type 0
Contains needle text = (before : Bytes) × (after : Bytes) × (text ≡ before ++ (needle ++ after))

abbrev Begins : Bytes → Bytes → Type 0
Begins needle text = (after : Bytes) × (text ≡ needle ++ after)

starts_with-Begins : (n h : Bytes) → starts_with n h ≡ true → Begins n h
unfolding starts_with
starts_with-Begins [] h e = (h, refl)
starts_with-Begins (x ∷ n) [] e = cc
starts_with-Begins (x ∷ n) (b ∷ h) e =
    let (after, q) = starts_with-Begins n h (ground arith) in (after, ground arith)

starts_with-append : (n after : Bytes) → starts_with n (n ++ after) ≡ true
unfolding starts_with
starts_with-append [] after = refl
starts_with-append (x ∷ n) after = ground (arith, starts_with-append n after)

strstr-Contains : (h n : Bytes) → strstr h n ≡ true → Contains n h
unfolding strstr
strstr-Contains [] n e = let (after, q) = starts_with-Begins n [] e in ([], after, q)
strstr-Contains (b ∷ h) n e = elim (Bool-cases (starts_with n (b ∷ h))) [
  | inl here ↦ (let (after, q) = starts_with-Begins n (b ∷ h) here in ([], after, q))
  | inr not_here ↦
      (let (before, after, q) = strstr-Contains h n (ground arith) in
        (b ∷ before, after, ap (◌∷◌ b) q))
]

strstr_here : (n h : Bytes) → starts_with n h ≡ true → strstr h n ≡ true
unfolding strstr
strstr_here n [] e = e
strstr_here n (b ∷ h) e = ground arith

Contains-strstr : (n before after : Bytes) → strstr (before ++ (n ++ after)) n ≡ true
unfolding strstr
Contains-strstr n [] after = strstr_here n (n ++ after) (starts_with-append n after)
Contains-strstr n (b ∷ before) after = ground (arith, Contains-strstr n before after)

-- strstr finds the needle exactly where the text contains it.
pub strstr-Contains_iff : (h n : Bytes) → (strstr h n ≡ true) ↔ Contains n h
strstr-Contains_iff h n = (strstr-Contains h n, λ c. rw (c.2) (Contains-strstr n c.0 c.1))

-- A chunk of stderr with one of the two messages before its first NUL byte.
abbrev pub IsFatal : Bytes → Type 0
IsFatal chunk = Contains port_fwd_message (c_str chunk) ⊎ Contains stuck_message (c_str chunk)

abbrev pub AnyFatal : List Bytes → Type 0
AnyFatal [] = ⊥
AnyFatal (c ∷ cs) = IsFatal c ⊎ AnyFatal cs

abbrev Tells : List Bytes → Bool → State → Type 0
Tells cs b s = (b ≡ true) ↔ AnyFatal cs

absent : (h n : Bytes) → strstr h n ≡ false → Contains n h → ⊥
absent h n e c = let found : strstr h n ≡ true = (strstr-Contains_iff h n).1 c in cc

skip_chunk :
    (c : Bytes) (cs : List Bytes) (b : Bool) (s : State)
    → strstr (c_str c) port_fwd_message ≡ false
    → strstr (c_str c) stuck_message ≡ false
    → Tells cs b s
    → Tells (c ∷ cs) b s
skip_chunk c cs b s no_port no_stuck h = (λ e. inr (h.0 e), only_later)
  where
    only_later : AnyFatal (c ∷ cs) → b ≡ true
    only_later (inl (inl f)) = absurd (absent (c_str c) port_fwd_message no_port f)
    only_later (inl (inr f)) = absurd (absent (c_str c) stuck_message no_stuck f)
    only_later (inr later) = h.1 later

fatal_chunk :
    (c : Bytes) (cs : List Bytes) (rest : M Bool) (os : Os) (s : State)
    → Ends (Tells cs) (λ _. ⊥) (rest os s)
    → Ends (Tells (c ∷ cs)) (λ _. ⊥) (search_chunk (c_str c) rest os s)
unfolding search_chunk
fatal_chunk c cs rest os s h =
    Ends-if (Tells (c ∷ cs)) (λ _. ⊥) (strstr (c_str c) port_fwd_message)
      (modify (λ s. record s { port_fwd_failed = true }) >> pure true)
      (if strstr (c_str c) stuck_message then pure true else rest) os s
      (λ e. (λ _. inl (inl ((strstr-Contains_iff (c_str c) port_fwd_message).0 e)), λ _. refl))
      (λ no_port.
        Ends-if (Tells (c ∷ cs)) (λ _. ⊥) (strstr (c_str c) stuck_message) (pure true) rest os s
          (λ e. (λ _. inl (inr ((strstr-Contains_iff (c_str c) stuck_message).0 e)), λ _. refl))
          (λ no_stuck.
            Ends-weaken (λ b t k. skip_chunk c cs b t no_port no_stuck k) (λ t k. k) (rest os s) h))

drain_chunks-Tells :
    (cs : List Bytes) (os : Os) (s : State) → Ends (Tells cs) (λ _. ⊥) (drain_chunks cs os s)
unfolding drain_chunks
drain_chunks-Tells [] os s = (λ e. cc, λ h. absurd h)
drain_chunks-Tells (c ∷ cs) os s =
    fatal_chunk c cs (drain_chunks cs) os _ (drain_chunks-Tells cs os _)

-- With an open pipe check_ssh_stderr always returns, and it returns true exactly when some chunk
-- that it reads holds one of the two messages in front of its first NUL byte.
pub check_ssh_stderr_finds :
    (os : Os) (s : State) (fd : ℕ)
    → s.ssh_stderr_fd ≡ some fd
    → Ends (λ b t. (b ≡ true) ↔ AnyFatal (os.stderr_data s.calls)) (λ _. ⊥) (check_ssh_stderr os s)
unfolding check_ssh_stderr
check_ssh_stderr_finds os s fd e =
    rw (e, check_ssh_stderr) (drain_chunks-Tells (os.stderr_data s.calls) os _)
