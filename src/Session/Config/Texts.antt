-- ===== src/Session/Config/Texts.antt =====
-- The texts of a configuration: the fields that are read from pointers, and which ones are accepted.
use autossh_1_4g.Base.{
  ℕ, zero, suc, ◌+◌, ◌≡◌, ◌≢◌, refl, ap, sym, Option, none, some, List, [], ◌∷◌, length, arith,
}
use autossh_1_4g.Base.Bytes.{Bytes, cstring_new, codes}
use autossh_1_4g.Drain.{c_str}
use autossh_1_4g.Session.Config.{
  Result, ok, err, given_text, optional_cstring, required_cstring, read_args, extra_args,
  or_default, ◌>>=◌,
}

-- A text without NUL bytes.
abbrev pub IsCString : Bytes → Type 0
IsCString [] = Unit
IsCString (b ∷ bs) = (b ≢ 0) × IsCString bs

c_str-IsCString : (bs : Bytes) → IsCString (c_str bs)
unfolding c_str
c_str-IsCString [] = tt
c_str-IsCString (b ∷ bs) = ground (arith, c_str-IsCString bs)

-- The error for an interior NUL never comes up.
cstring_new-c_str : (bs : Bytes) → cstring_new (c_str bs) ≡ some (c_str bs)
unfolding cstring_new c_str
cstring_new-c_str [] = refl
cstring_new-c_str (b ∷ bs) = ground (arith, cstring_new-c_str bs)

-- The pointer is not NULL, and its text not empty.
abbrev pub Given : Option Bytes → Type 0
Given none = ⊥
Given (some p) = c_str p ≢ []

-- The text up to its NUL that the pointer points to.
abbrev pub IsTextOf : Option Bytes → Bytes → Type 0
IsTextOf none text = ⊥
IsTextOf (some p) text = text ≡ c_str p

-- The texts of the pointers in an array, from the i-th on, in their order.
abbrev pub AreTexts : ℕ → ℕ → (ℕ → Option Bytes) → List Bytes → Type 0
AreTexts zero i args texts = texts ≡ []
AreTexts (suc left) i args [] = ⊥
AreTexts (suc left) i args (text ∷ texts) =
    IsTextOf (args i) text × AreTexts left (i + 1) args texts

abbrev pub AreArgs : ℕ → Option (ℕ → Option Bytes) → List Bytes → Type 0
AreArgs zero args texts = texts ≡ []
AreArgs (suc n) none texts = ⊥
AreArgs (suc n) (some args) texts = AreTexts (suc n) 0 args texts

-- The text of a pointer, if it is not NULL.
abbrev pub IsOptionalText : Option Bytes → Option Bytes → Type 0
IsOptionalText none text = text ≡ none
IsOptionalText (some p) text = text ≡ some (c_str p)

-- The text of a pointer, or another one where it is NULL.
abbrev pub IsTextOr : Bytes → Option Bytes → Bytes → Type 0
IsTextOr fallback none text = text ≡ fallback
IsTextOr fallback (some p) text = text ≡ c_str p

abbrev pub IsField : Option Bytes → Bytes → Type 0
IsField p text = (text ≢ []) × IsTextOf p text

-- A parse that gives a value with Q where P holds, and no value where it does not.
abbrev pub Decides : {A : Type 0} → Type 0 → (A → Type 0) → Result A → Type 0
Decides P Q (ok a) = P × Q a
Decides P Q (err e) = P → ⊥

pub optional_total :
    (p : Option Bytes) (field : Bytes)
    → (o : Option Bytes) × (optional_cstring p field ≡ ok o) × IsOptionalText p o
unfolding optional_cstring
optional_total none field = (none, refl, refl)
optional_total (some p) field = (some (c_str p), rw (cstring_new-c_str p), refl)

pub required-Decides :
    (p : Option Bytes) (field : Bytes) → Decides (Given p) (IsField p) (required_cstring p field)
unfolding required_cstring
required-Decides none field = λ h. h
required-Decides (some p) field = rw (cstring_new-c_str p) (split (c_str p) refl)
  where
    split :
        (t : Bytes)
        → c_str p ≡ t
        → Decides (Given (some p)) (IsField (some p)) (given_text (some t) field)
    split [] e = λ h. h e
    split (b ∷ bs) e = (λ z. cc, (λ z. cc, sym e))

abbrev GivenFrom : ℕ → ℕ → (ℕ → Option Bytes) → Type 0
GivenFrom zero i args = Unit
GivenFrom (suc left) i args = Given (args i) × GivenFrom left (i + 1) args

-- The first `n` of the extra arguments are given.
abbrev pub GivenArgs : ℕ → Option (ℕ → Option Bytes) → Type 0
GivenArgs zero args = Unit
GivenArgs (suc n) none = ⊥
GivenArgs (suc n) (some args) = GivenFrom (suc n) 0 args

module _ {A B : Type 0} (P R : Type 0) (Q : A → Type 0) (S : B → Type 0) where
  Decides-under : (r : Result B) → P → Decides R S r → Decides (P × R) S r
  Decides-under (ok b) p d = ((p, d.0), d.1)
  Decides-under (err e) p d = λ pr. d pr.1

  pub Decides-bind :
      (m : Result A) (f : A → Result B)
      → Decides P Q m
      → ((a : A) → Q a → Decides R S (f a))
      → Decides (P × R) S (m >>= f)
  Decides-bind (ok a) f h k = Decides-under (f a) h.0 (k a h.1)
  Decides-bind (err e) f h k = λ pr. h pr.0

-- A condition in place of an equivalent one.
pub Decides-iff :
    {A : Type 0} (P R : Type 0) (Q : A → Type 0) (r : Result A)
    → (P → R)
    → (R → P)
    → Decides P Q r
    → Decides R Q r
Decides-iff P R Q (ok a) to from d = (to d.0, d.1)
Decides-iff P R Q (err e) to from d = λ x. d (from x)

read_args-Decides :
    (left i : ℕ) (args : ℕ → Option Bytes)
    → Decides (GivenFrom left i args) (AreTexts left i args) (read_args left i args)
unfolding read_args
read_args-Decides zero i args = (tt, refl)
read_args-Decides (suc left) i args =
    Decides-bind (Given (args i)) (GivenFrom left (i + 1) args) (IsField (args i))
      (AreTexts (suc left) i args) (required_cstring (args i) (codes "extra_ssh_args item"))
      (λ arg. read_args left (i + 1) args >>= λ rest. ok (arg ∷ rest))
      (required-Decides (args i) (codes "extra_ssh_args item"))
      (λ arg h.
        Decides-iff (GivenFrom left (i + 1) args × Unit) (GivenFrom left (i + 1) args)
          (AreTexts (suc left) i args) _ (λ x. x.0) (λ x. (x, tt))
          (Decides-bind (GivenFrom left (i + 1) args) Unit (AreTexts left (i + 1) args)
            (AreTexts (suc left) i args) (read_args left (i + 1) args) (λ rest. ok (arg ∷ rest))
            (read_args-Decides left (i + 1) args) (λ rest e. (tt, (h.1, e)))))

pub extra_args-Decides :
    (n : ℕ) (args : Option (ℕ → Option Bytes))
    → Decides (GivenArgs n args) (AreArgs n args) (extra_args n args)
unfolding extra_args
extra_args-Decides zero args = (tt, refl)
extra_args-Decides (suc n) none = λ h. h
extra_args-Decides (suc n) (some args) = read_args-Decides (suc n) 0 args

AreTexts-length :
    (left i : ℕ) (args : ℕ → Option Bytes) (texts : List Bytes)
    → AreTexts left i args texts
    → length texts ≡ left
AreTexts-length zero i args texts h = ap length h
AreTexts-length (suc left) i args [] h = absurd h
AreTexts-length (suc left) i args (text ∷ texts) h =
    ap suc (AreTexts-length left (i + 1) args texts h.1)

pub AreArgs-length :
    (n : ℕ) (args : Option (ℕ → Option Bytes)) (texts : List Bytes)
    → AreArgs n args texts
    → length texts ≡ n
AreArgs-length zero args texts h = ap length h
AreArgs-length (suc n) none texts h = absurd h
AreArgs-length (suc n) (some args) texts h = AreTexts-length (suc n) 0 args texts h

-- What the optional fields come to.
pub or_default-IsTextOr :
    (fallback : Bytes) (p o : Option Bytes)
    → IsOptionalText p o
    → IsTextOr fallback p (or_default fallback o)
or_default-IsTextOr fallback none o e = ap (or_default fallback) e
or_default-IsTextOr fallback (some p) o e = ap (or_default fallback) e
