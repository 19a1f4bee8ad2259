-- ===== src/Args/Strip.antt =====
-- What is left of an argument when an option letter is stripped from it.
use autossh_1_4g.Base.{ℕ, ◌≡◌, ◌≢◌, false, [], ◌∷◌, arith}
use autossh_1_4g.Base.Bytes.{Bytes}
use autossh_1_4g.Args.{takes_value, strip}

abbrev pub IsWithout : ℕ → Bytes → Type 0
IsWithout ch [] = Unit
IsWithout ch (c ∷ cs) = (c ≢ ch) × IsWithout ch cs

-- No letter of the text takes a value, and the letter does not stand twice in a row.
abbrev pub IsSpread : Bytes → ℕ → Bytes → Type 0
IsSpread opts ch [] = Unit
IsSpread opts ch (c ∷ []) = takes_value opts c ≡ false
IsSpread opts ch (c ∷ (d ∷ rest)) =
    (takes_value opts c ≡ false) × (c ≡ ch → d ≢ ch) × IsSpread opts ch (d ∷ rest)

tail-IsSpread :
    (opts : Bytes) (ch d : ℕ) (rest : Bytes) → IsSpread opts ch (d ∷ rest) → IsSpread opts ch rest
tail-IsSpread opts ch d [] h = tt
tail-IsSpread opts ch d (e ∷ rest) h = h.2

-- Where no letter takes a value and the letter to strip never stands twice in a row, none of it is
-- left.
pub strip-IsWithout :
    (opts : Bytes) (ch : ℕ) (text : Bytes)
    → IsSpread opts ch text
    → IsWithout ch (strip opts ch text)
unfolding strip
strip-IsWithout opts ch [] h = tt
strip-IsWithout opts ch (c ∷ []) h = ground arith
strip-IsWithout opts ch (c ∷ (d ∷ rest)) h = ground (
  arith,
  strip-IsWithout opts ch (d ∷ rest) (h.2),
  strip-IsWithout opts ch rest (tail-IsSpread opts ch d rest (h.2)),
)
