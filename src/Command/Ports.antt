-- ===== src/Command/Ports.antt =====
-- Which write ports are accepted, and what is built from them.
use autossh_1_4g.Base.{
  ℕ, zero, suc, ◌+◌, ◌-◌, ◌≤◌, ◌<◌, ◌≡◌, refl, ap, Option, none, some, [], ◌∷◌, length, arith, ltb,
  Bool-cases, inl, inr,
}
use autossh_1_4g.Base.Bytes.{Bytes}
use autossh_1_4g.Base.Int.{ℤ, pos, negsuc}
use autossh_1_4g.Command.{
  take, fit, Monitoring, off, ports, with_back, with_out, choose_ports, forward_text,
}

length-take_le : (n : ℕ) (bs : Bytes) → length (take n bs) ≤ n
length-take_le zero bs = omega arith
length-take_le (suc n) [] = omega arith
length-take_le (suc n) (b ∷ bs) = omega (arith, length-take_le n bs)

pub take_all : (n : ℕ) (bs : Bytes) → length bs ≤ n → take n bs ≡ bs
take_all zero [] h = refl
take_all zero (b ∷ bs) h = absurd (omega arith)
take_all (suc n) [] h = refl
take_all (suc n) (b ∷ bs) h = ap (◌∷◌ b) (take_all n bs (omega arith))

-- A text of exactly 256 bytes, which does not fit the buffer with its NUL, is let through without
-- its last byte.
pub fit-take : (text : Bytes) → length text ≡ 256 → fit text ≡ some (take 255 text)
unfolding fit
fit-take text h = ground arith

-- Every string that fit lets through is at most 255 bytes long, so that the buffer of 256 bytes
-- holds it and its NUL.
fit-bound : (text out : Bytes) → fit text ≡ some out → length out ≤ 255
unfolding fit
fit-bound text out e = ground (arith, length-take_le 255 text)

abbrev pub Fits : Option Bytes → Type 0
Fits none = Unit
Fits (some text) = length text ≤ 255

-- The write port is between 1 and 65534, the read port is the next one, and every forwarding string
-- has room in its buffer.
abbrev pub IsUsable : ℤ → Option Monitoring → Type 0
IsUsable wp none = Unit
IsUsable wp (some off) = wp ≡ pos 0
IsUsable wp (some (ports rp out back)) =
    (wp ≡ pos (rp - 1)) × (2 ≤ rp) × (rp ≤ 65535) × (length out ≤ 255) × Fits back

with_back-IsUsable :
    (wp : ℕ) (text out : Bytes) (o : Option Bytes)
    → fit text ≡ o
    → 0 < wp
    → wp ≤ 65534
    → length out ≤ 255
    → IsUsable (pos wp) (with_back wp out o)
unfolding with_back
with_back-IsUsable wp text out none e low high fits = tt
with_back-IsUsable wp text out (some back) e low high fits =
    (ap pos (omega arith), omega arith, omega arith, fits, fit-bound text back e)

with_out-IsUsable :
    (wp : ℕ) (mhost : Bytes) (echo : Option ℕ) (text : Bytes) (o : Option Bytes)
    → fit text ≡ o
    → 0 < wp
    → wp ≤ 65534
    → IsUsable (pos wp) (with_out wp mhost echo o)
unfolding with_out
with_out-IsUsable wp mhost echo text none e low high = tt
with_out-IsUsable wp mhost (some ep) text (some out) e low high =
    (ap pos (omega arith), omega arith, omega arith, fit-bound text out e, tt)
with_out-IsUsable wp mhost none text (some out) e low high =
    with_back-IsUsable wp (forward_text wp mhost (pos (wp + 1))) out _ refl low high
      (fit-bound text out e)

-- Whatever number was read for the write port, it is refused; or it is 0 and monitoring is off; or it
-- is a port whose successor is the read port, with forwarding strings that their buffers hold.
pub choose_ports-IsUsable :
    (wp : ℤ) (mhost : Bytes) (echo : Option ℕ) → IsUsable wp (choose_ports wp mhost echo)
unfolding choose_ports
choose_ports-IsUsable (negsuc n) mhost echo = tt
choose_ports-IsUsable (pos zero) mhost echo = refl
choose_ports-IsUsable (pos (suc n)) mhost echo = elim (Bool-cases (ltb 65534 (suc n))) [
  | inl over ↦ rw over tt
  | inr fine ↦ rw fine (with_out-IsUsable (suc n) mhost echo _ _ refl (omega arith) (ground arith))
]
