-- ===== src/Preload/Install.antt =====
-- What the extraction and the installation leave.
use autossh_1_4g.Base.{
  ℕ, zero, suc, ◌+◌, ◌≤◌, ◌<◌, ◌≡◌, refl, ap, sym, ◌∙◌, Bool, true, false, Option, none, some, [],
  ◌∷◌, ◌++◌, length, ◌==◌, arith, Bool-cases, ◌⊎◌, inl, inr,
}
use autossh_1_4g.Base.Int.{ℤ}
use autossh_1_4g.Base.Bytes.{Bytes, codes, decimal}
use autossh_1_4g.Drain.{starts_with, strstr}
use autossh_1_4g.Command.{take}
use autossh_1_4g.Preload.{
  drop, library_path, Written, complete, failed, out_of_fuel, write_rest, count_of, Extraction,
  extracted, exhausted, path_of, extract_once, install_for_child,
}

append_assoc : (xs ys zs : Bytes) → (xs ++ ys) ++ zs ≡ xs ++ (ys ++ zs)
append_assoc [] ys zs = refl
append_assoc (x ∷ xs) ys zs = ap (◌∷◌ x) (append_assoc xs ys zs)

append_nil : (xs : Bytes) → xs ++ [] ≡ xs
append_nil [] = refl
append_nil (x ∷ xs) = ap (◌∷◌ x) (append_nil xs)

take-drop : (n : ℕ) (bs : Bytes) → take n bs ++ drop n bs ≡ bs
take-drop zero bs = refl
take-drop (suc n) [] = refl
take-drop (suc n) (b ∷ bs) = ap (◌∷◌ b) (take-drop n bs)

length-drop_le : (n : ℕ) (bs : Bytes) → length (drop n bs) ≤ length bs
length-drop_le zero bs = omega arith
length-drop_le (suc n) [] = omega arith
length-drop_le (suc n) (b ∷ bs) = omega (arith, length-drop_le n bs)

length-drop_less : (n b : ℕ) (bs : Bytes) → 0 < n → length (drop n (b ∷ bs)) ≤ length bs
length-drop_less zero b bs h = absurd (omega arith)
length-drop_less (suc n) b bs h = length-drop_le n bs

-- Some write takes nothing.
abbrev Stalls : (ℕ → ℤ) → Type 0
Stalls writes = (i : ℕ) × (count_of (writes i) ≡ 0)

-- All of the library in the file, or a write that took nothing.
abbrev WholeOrFailed : Bytes → (ℕ → ℤ) → Written → Type 0
WholeOrFailed all writes (complete file) = file ≡ all
WholeOrFailed all writes (failed file) = Stalls writes
WholeOrFailed all writes out_of_fuel = ⊥

-- The path of the library, with all of it in the file; or the empty path, where open failed or a write
-- took nothing.
abbrev pub WholeOrNoPath : Bytes → ℕ → Bool → (ℕ → ℤ) → Extraction → Type 0
WholeOrNoPath all pid opens writes (extracted path file) =
    ((path ≡ library_path pid) × (file ≡ all)) ⊎ ((path ≡ []) × ((opens ≡ false) ⊎ Stalls writes))
WholeOrNoPath all pid opens writes exhausted = ⊥

write_rest-Whole :
    (fuel : ℕ) (writes : ℕ → ℤ) (i : ℕ) (rest file all : Bytes)
    → length rest ≤ fuel
    → file ++ rest ≡ all
    → WholeOrFailed all writes (write_rest fuel writes i rest file)
unfolding write_rest
write_rest-Whole fuel writes i [] file all h e = sym (append_nil file) ∙ e
write_rest-Whole zero writes i (b ∷ bs) file all h e = omega arith
write_rest-Whole (suc fuel) writes i (b ∷ bs) file all h e =
    elim (Bool-cases (count_of (writes i) == 0)) [
      | inl none_written ↦ rw none_written (i, ground arith)
      | inr some_written ↦ rw some_written (
          write_rest-Whole fuel writes (i + 1) (drop (count_of (writes i)) (b ∷ bs))
            (file ++ take (count_of (writes i)) (b ∷ bs)) all
            (omega (arith, h, length-drop_less (count_of (writes i)) b bs (ground arith)))
            (append_assoc file (take (count_of (writes i)) (b ∷ bs))
                (drop (count_of (writes i)) (b ∷ bs))
              ∙ ap (λ r. file ++ r) (take-drop (count_of (writes i)) (b ∷ bs))
              ∙ e))
    ]

path_of-Whole :
    (all : Bytes) (pid : ℕ) (writes : ℕ → ℤ) (w : Written)
    → WholeOrFailed all writes w
    → WholeOrNoPath all pid true writes (path_of pid w)
unfolding path_of
path_of-Whole all pid writes (complete file) h = inl (refl, h)
path_of-Whole all pid writes (failed file) h = inr (refl, inr h)
path_of-Whole all pid writes out_of_fuel h = h

-- Whatever open and write return, extract_once comes to its end: with the path of the library and every
-- byte of it in the file, in their order; or with the empty path, and then the file could not be opened
-- or a write took nothing.
pub extract_once-Whole :
    (so_bytes : Bytes) (pid : ℕ) (opens : Bool) (writes : ℕ → ℤ)
    → WholeOrNoPath so_bytes pid opens writes (extract_once so_bytes pid opens writes)
unfolding extract_once
extract_once-Whole so_bytes pid false writes = inr (refl, inl refl)
extract_once-Whole so_bytes pid true writes =
    path_of-Whole so_bytes pid writes (write_rest (length so_bytes) writes 0 so_bytes [])
      (write_rest-Whole (length so_bytes) writes 0 so_bytes [] so_bytes (omega arith) refl)

==-refl : (n : ℕ) → (n == n) ≡ true
==-refl n = ground arith

starts_with-append : (needle rest : Bytes) → starts_with needle (needle ++ rest) ≡ true
unfolding starts_with
starts_with-append [] rest = refl
starts_with-append (n ∷ ns) rest = rw (==-refl n) (starts_with-append ns rest)

strstr-here : (needle hay : Bytes) → starts_with needle hay ≡ true → strstr hay needle ≡ true
unfolding strstr
strstr-here needle [] h = h
strstr-here needle (b ∷ bs) h = rw h refl

strstr-append :
    (front needle hay : Bytes) → strstr hay needle ≡ true → strstr (front ++ hay) needle ≡ true
unfolding strstr
strstr-append [] needle hay h = h
strstr-append (b ∷ bs) needle hay h = elim (Bool-cases (starts_with needle (b ∷ (bs ++ hay)))) [
  | inl here ↦ rw here refl
  | inr behind ↦ rw (behind, strstr-append bs needle hay h) refl
]

abbrev detector_name : Bytes
detector_name = codes "autossh-stuck-detector"

library_path-named :
    (pid : ℕ) (rest : Bytes) → strstr (library_path pid ++ rest) detector_name ≡ true
library_path-named pid rest =
    ap (λ t. strstr t detector_name)
      (append_assoc (codes "/tmp/") (detector_name ++ (45 ∷ decimal pid ++ codes ".so")) rest
        ∙ ap (λ t. codes "/tmp/" ++ t)
            (append_assoc detector_name (45 ∷ decimal pid ++ codes ".so") rest))
    ∙ strstr-append (codes "/tmp/") detector_name _
        (strstr-here detector_name _ (starts_with-append detector_name _))

-- to_string_lossy changes neither the path nor what it gave itself.
abbrev pub KeepsText : (Bytes → Bytes) → ℕ → Type 0
KeepsText lossy pid =
    (lossy (library_path pid) ≡ library_path pid)
    × ((text : Bytes)
        → lossy (library_path pid ++ (58 ∷ lossy text)) ≡ library_path pid ++ (58 ∷ lossy text))

library_path-lossy :
    (lossy : Bytes → Bytes) (pid : ℕ)
    → lossy (library_path pid) ≡ library_path pid
    → strstr (lossy (library_path pid)) detector_name ≡ true
library_path-lossy lossy pid e =
    ap (λ t. strstr t detector_name) (e ∙ sym (append_nil (library_path pid)))
    ∙ library_path-named pid []

install_for_child-named :
    (lossy : Bytes → Bytes) (pid c : ℕ) (cs : Bytes)
    → strstr (lossy (c ∷ cs)) detector_name ≡ true
    → install_for_child lossy (library_path pid) (some (c ∷ cs)) ≡ some (c ∷ cs)
unfolding install_for_child
install_for_child-named lossy pid c cs h = rw h refl

-- After the library was extracted, install_for_child is idempotent: another call leaves LD_PRELOAD as the
-- first one set it, whatever it was before. to_string_lossy leaves text that is UTF-8 alone.
pub install_for_child-again :
    (lossy : Bytes → Bytes) (pid : ℕ) (preload : Option Bytes)
    → KeepsText lossy pid
    → install_for_child lossy
        (library_path pid)
        (install_for_child lossy (library_path pid) preload)
      ≡ install_for_child lossy (library_path pid) preload
unfolding install_for_child
install_for_child-again lossy pid none keeps =
    install_for_child-named lossy pid 47 _ (library_path-lossy lossy pid keeps.0)
install_for_child-again lossy pid (some []) keeps =
    install_for_child-named lossy pid 47 _ (library_path-lossy lossy pid keeps.0)
install_for_child-again lossy pid (some (c ∷ cs)) keeps =
    elim (Bool-cases (strstr (lossy (c ∷ cs)) detector_name)) [
      | inl named ↦ rw named (rw named refl)
      | inr other ↦ rw other (
          install_for_child-named lossy pid 47 _ (
            ap (λ t. strstr t detector_name) (keeps.1 (c ∷ cs))
            ∙ library_path-named pid (58 ∷ lossy (c ∷ cs))))
    ]
