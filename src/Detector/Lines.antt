-- ===== src/Detector/Lines.antt =====
-- The lines that warn_stderr writes.
use autossh_1_4g.Base.{
  ℕ, zero, suc, ◌+◌, ◌/◌, ◌%◌, ◌≤◌, ◌<◌, ◌≡◌, refl, sym, ap, ◌∙◌, List, [], ◌∷◌, ◌++◌, length, some,
  inl, inr, length-append, arith, true,
}
use autossh_1_4g.Base.Bytes.{Bytes, codes}
use autossh_1_4g.Posix.{Os}
use autossh_1_4g.Process.{State}
use autossh_1_4g.Process.Triple.{Ends, Ends-weaken}
use autossh_1_4g.Drain.{c_str, stuck_message, check_ssh_stderr}
use autossh_1_4g.Drain.Match.{Contains, check_ssh_stderr_finds}
use autossh_1_4g.Detector.{pieces, put_all, put_byte, put, digits, itoa, warn_stderr}

-- Nothing is cut off as long as it fits.
append_assoc : (xs ys zs : Bytes) → (xs ++ ys) ++ zs ≡ xs ++ (ys ++ zs)
append_assoc [] ys zs = refl
append_assoc (x ∷ xs) ys zs = ap (◌∷◌ x) (append_assoc xs ys zs)

append_nil : (xs : Bytes) → xs ++ [] ≡ xs
append_nil [] = refl
append_nil (x ∷ xs) = ap (◌∷◌ x) (append_nil xs)

put_byte_fits : (buf : Bytes) (b : ℕ) → length buf < 128 → put_byte buf b ≡ buf ++ (b ∷ [])
unfolding put_byte
put_byte_fits buf b h = ground arith

put-append : (bs buf : Bytes) → length buf + length bs ≤ 128 → put buf bs ≡ buf ++ bs
unfolding put
put-append [] buf h = sym (append_nil buf)
put-append (b ∷ bs) buf h = rw (put_byte_fits buf b (omega arith)) (
    put-append bs (buf ++ (b ∷ [])) (omega (arith, length-append buf (b ∷ [])))
    ∙ append_assoc buf (b ∷ []) bs)

length-digits : (fuel s : ℕ) (acc : Bytes) → length (digits fuel s acc) ≤ length acc + fuel
unfolding digits
length-digits zero s acc = omega arith
length-digits (suc fuel) s acc = ground (arith, length-digits fuel (s / 10) ((48 + s % 10) ∷ acc))

length-itoa : (s : ℕ) → length (itoa s) ≤ 20
unfolding itoa
length-itoa s = ground (arith, length-digits 20 s [])

abbrev pub join : List Bytes → Bytes
join [] = []
join (piece ∷ pieces) = piece ++ join pieces

put_all-join :
    (ps : List Bytes) (buf : Bytes)
    → length buf + length (join ps) ≤ 128
    → put_all buf ps ≡ buf ++ join ps
unfolding put_all
put_all-join [] buf h = sym (append_nil buf)
put_all-join (p ∷ ps) buf h =
    let parts = length-append p (join ps) in
    rw (put-append p buf (omega arith)) (
      put_all-join ps (buf ++ p) (omega (arith, length-append buf p))
      ∙ append_assoc buf p (join ps))

-- For a name of up to 66 bytes the buffer of 128 bytes cuts nothing off: warn_stderr writes the
-- fixed texts, the name and all the digits that itoa gives.
pub warn_stderr-join :
    (name : Bytes) (secs : ℕ) → length name ≤ 66 → warn_stderr name secs ≡ join (pieces name secs)
unfolding warn_stderr
warn_stderr-join name secs h = put_all-join (pieces name secs) [] (
    omega (
      arith,
      length-append name (codes "() for " ++ (itoa secs ++ (codes " secs" ++ 10 ∷ []))),
      length-append (itoa secs) (codes " secs" ++ 10 ∷ []),
      length-itoa secs,
    ))

line_fatal : (name : Bytes) (secs : ℕ) → Contains stuck_message (c_str (join (pieces name secs)))
unfolding c_str
line_fatal name secs = ([], _, refl)

-- With an open stderr pipe whose first chunk is a line that the monitor wrote for a name of up to
-- 66 bytes, check_ssh_stderr returns true.
pub check_ssh_stderr-warn_stderr :
    (name : Bytes) (secs : ℕ) (more : List Bytes) (os : Os) (s : State) (fd : ℕ)
    → length name ≤ 66
    → s.ssh_stderr_fd ≡ some fd
    → os.stderr_data s.calls ≡ warn_stderr name secs ∷ more
    → Ends (λ b t. b ≡ true) (λ _. ⊥) (check_ssh_stderr os s)
check_ssh_stderr-warn_stderr name secs more os s fd fits pipe data_in =
    Ends-weaken
      (λ b t k.
        k.1 (rw (data_in, warn_stderr-join name secs fits) (inl (inr (line_fatal name secs)))))
      (λ t k. k) (check_ssh_stderr os s) (check_ssh_stderr_finds os s fd pipe)
