-- ===== src/Family.antt =====
-- One value for each thread: a change at one of them, and a sum over the first n.
use autossh_1_4g.Base.{
  ℕ, zero, suc, ◌+◌, ◌≤◌, ◌<◌, ◌≡◌, refl, arith, ◌==◌, if◌then◌else◌, inl, inr, Bool-cases,
}

abbrev pub set_at {ℓ} : {A : Type ℓ} → ℕ → A → (ℕ → A) → ℕ → A
set_at i a f j = if j == i then a else f j

module _ {ℓ} {A : Type ℓ} (weight : A → ℕ) where
  pub sum_below : ℕ → (ℕ → A) → ℕ
  sum_below zero f = 0
  sum_below (suc n) f = weight (f n) + sum_below n f

  sum_below-beyond :
      (n i : ℕ) (a : A) (f : ℕ → A) → n ≤ i → sum_below n (set_at i a f) ≡ sum_below n f
  unfolding sum_below
  sum_below-beyond zero i a f h = refl
  sum_below-beyond (suc n) i a f h = ground (arith, sum_below-beyond n i a f)

  -- What one thread gains the sum gains.
  pub sum_below-set_at :
      (n i : ℕ) (a : A) (f : ℕ → A)
      → i < n
      → sum_below n (set_at i a f) + weight (f i) ≡ sum_below n f + weight a
  unfolding sum_below
  sum_below-set_at zero i a f h = elim h [ ]
  sum_below-set_at (suc n) i a f h = elim (Bool-cases (n == i)) [
    | inl last ↦ ground (arith, sum_below-beyond n i a f)
    | inr other ↦ ground (arith, sum_below-set_at n i a f)
  ]

  pub sum_below-zero : (n : ℕ) (a : A) → weight a ≡ 0 → sum_below n (λ i. a) ≡ 0
  unfolding sum_below
  sum_below-zero zero a h = refl
  sum_below-zero (suc n) a h = omega (arith, h, sum_below-zero n a h)
