-- ===== src/Detector/Nesting.antt =====
-- Hooked calls within hooked calls on one thread.
use autossh_1_4g.Base.{ℕ, zero, suc, ◌<◌, ◌≡◌, ◌⊎◌, inl, inr, ap, refl, arith}
use autossh_1_4g.Detector.{Tracker, Calls, none_left, call, enter, leave, intercept}

-- Every call begins at a positive second.
abbrev pub IsLate : Calls → Type 0
IsLate none_left = Unit
IsLate (call now inner next) = (0 < now) × IsLate inner × IsLate next

-- Within a tracked call the hooked calls change nothing.
intercept_busy : (c : Calls) (t : Tracker) → 0 < t.start_sec → intercept c t ≡ t
unfolding intercept enter leave
intercept_busy none_left t h = refl
intercept_busy (call now inner next) t h =
    ground (arith, intercept_busy inner t h, intercept_busy next t h)

zero_or_pos : (n : ℕ) → (n ≡ 0) ⊎ (0 < n)
zero_or_pos zero = inl refl
zero_or_pos (suc n) = inr (omega arith)

-- Hooked calls on one thread that begin at positive seconds leave the start second of a tracker as
-- they found it: that of a tracked call that they are made from, and an idle tracker is idle again
-- when they are over.
pub intercept-start_sec :
    (c : Calls) (t : Tracker) → IsLate c → (intercept c t).start_sec ≡ t.start_sec
unfolding intercept enter leave
intercept-start_sec none_left t h = refl
intercept-start_sec (call now inner next) t h = elim (zero_or_pos t.start_sec) [
  | inl e ↦
      rw (e, intercept, enter, leave)
        (intercept-start_sec next
          (record (intercept inner (record t { start_sec = now })) {
            start_sec = 0;
            last_warn_sec = 0;
          })
          h.2)
  | inr p ↦ ap (λ u. u.start_sec) (intercept_busy (call now inner next) t p)
]
