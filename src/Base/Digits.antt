-- ===== src/Base/Digits.antt =====
-- What a reader makes of the digits that `decimal` writes.
use Prim.Native.Nat.{ℕ, zero, suc, ◌+◌, ◌-◌, ◌*◌, ◌/◌, ◌%◌, ◌<◌, ◌≤◌}
use mathlib.Core.Path.{◌≡◌, ap, sym, ◌∙◌}
use mathlib.Core.Logic.{inl, inr, ◌≢◌}
use mathlib.Core.Bool.{◌&&◌}
use mathlib.Core.List.{[], ◌∷◌}
use native.Mathlib.Omega.{arith}
use autossh_1_4g.Base.Tests.{ltb, leb, if◌then◌else◌, Bool-cases}
use autossh_1_4g.Base.Lists.{length}
use autossh_1_4g.Base.Bytes.{Bytes, digits_onto, decimal}

-- Reads the digits at the front of a text behind those that gave `v`; the rest is what is left.
abbrev pub read_digits : ℕ → Bytes → ℕ × Bytes
read_digits v [] = (v, [])
read_digits v (b ∷ bs) =
    let more = read_digits (10 * v + (b - 48)) bs in
    if leb 48 b && leb b 57 then more else (v, b ∷ bs)

read_digits-step :
    (v d w : ℕ) (bs : Bytes)
    → d < 10
    → 10 * v + d ≡ w
    → read_digits v ((48 + d) ∷ bs) ≡ read_digits w bs
read_digits-step v d w bs h e = elim (Bool-cases (leb 48 (48 + d) && leb (48 + d) 57)) [
  | inl digit ↦ rw (digit, sym e) (ap (λ x. read_digits x bs) (omega arith))
  | inr other ↦ absurd (ground arith)
]

read_digits-digits_onto :
    (fuel n : ℕ) (acc : Bytes)
    → n < fuel
    → read_digits 0 (digits_onto fuel n acc) ≡ read_digits n acc
unfolding digits_onto
read_digits-digits_onto zero n acc h = absurd (omega arith)
read_digits-digits_onto (suc fuel) n acc h = elim (Bool-cases (ltb n 10)) [
  | inl last ↦ rw last (read_digits-step 0 n n acc (ground arith) (omega arith))
  | inr more ↦ rw more (
      read_digits-digits_onto fuel (n / 10) ((48 + n % 10) ∷ acc) (ground arith)
      ∙ read_digits-step (n / 10) (n % 10) n acc (omega arith) (omega arith))
]

-- Reading the digits of a number gives the number, and leaves nothing.
pub read_digits-decimal : (n : ℕ) → read_digits 0 (decimal n) ≡ (n, [])
unfolding decimal
read_digits-decimal n = read_digits-digits_onto (suc n) n [] (omega arith)

digits_onto-nonempty : (fuel n : ℕ) (acc : Bytes) → acc ≢ [] → digits_onto fuel n acc ≢ []
unfolding digits_onto
digits_onto-nonempty zero n acc h = h
digits_onto-nonempty (suc fuel) n acc h =
    ground (arith, digits_onto-nonempty fuel (n / 10) ((48 + n % 10) ∷ acc))

pub decimal-nonempty : (n : ℕ) → decimal n ≢ []
unfolding decimal digits_onto
decimal-nonempty n = ground (arith, digits_onto-nonempty n (n / 10) ((48 + n % 10) ∷ []))

-- 10 to the power of k
abbrev pub ten_to : ℕ → ℕ
ten_to zero = 1
ten_to (suc k) = 10 * ten_to k

length-digits_onto :
    (fuel n k : ℕ) (acc : Bytes)
    → n < ten_to k
    → 0 < k
    → length (digits_onto fuel n acc) ≤ length acc + k
unfolding digits_onto
length-digits_onto zero n k acc h p = omega arith
length-digits_onto (suc fuel) n zero acc h p = absurd (omega arith)
length-digits_onto (suc fuel) n (suc zero) acc h p = ground arith
length-digits_onto (suc fuel) n (suc (suc k)) acc h p = ground (
  arith,
  length-digits_onto fuel (n / 10) (suc k) ((48 + n % 10) ∷ acc) (omega arith) (omega arith),
)

-- A number below 10 ^ k has at most k digits.
pub length-decimal : (n k : ℕ) → n < ten_to k → 0 < k → length (decimal n) ≤ k
unfolding decimal
length-decimal n k h p = omega (arith, length-digits_onto (suc n) n k [] h p)
