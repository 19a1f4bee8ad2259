-- ===== src/Main/Timeouts.antt =====
-- How long the tests of the connection wait.
use autossh_1_4g.Base.{
  ℕ, ◌*◌, ◌%◌, ◌≤◌, ◌<◌, ◌≡◌, refl, sym, ap, ◌∙◌, ◌⊎◌, true, false, inl, inr, arith, ltb,
  Bool-cases,
}
use autossh_1_4g.Base.Int.{ℤ, pos, negsuc, ltb_ℤ, ◌≤ℤ◌}
use autossh_1_4g.Settings.{Settings}
use autossh_1_4g.Main.{half_poll, adjust_net_timeout}

half_poll-exact : (poll : ℕ) → poll ≤ 2147483 → half_poll poll ≡ pos (poll * 500)
half_poll-exact poll h =
    let plain : poll * 1000 % 4294967296 ≡ poll * 1000 = (omega arith) in
    let low : ltb (poll * 1000) 2147483648 ≡ true = (ground arith) in
    rw (plain, low) (ap pos (omega arith))

-- A timeout in milliseconds that is positive, at most 15 seconds, and at most half a poll period; or
-- the poll time is so long that its milliseconds are no c_int.
abbrev pub IsShort : Settings → Type 0
IsShort s =
    (2147484 ≤ s.poll_time)
    ⊎ ((pos 1 ≤ℤ s.net_timeout)
        × (s.net_timeout ≤ℤ pos 15000)
        × (s.net_timeout ≤ℤ pos (s.poll_time * 500)))

-- The same settings but for the timeout.
abbrev pub OnlyTimeout : Settings → Settings → Type 0
OnlyTimeout s t = (n : ℤ) × (t ≡ record s { net_timeout = n })

pub adjust_net_timeout-only : (s : Settings) → OnlyTimeout s (adjust_net_timeout s)
unfolding adjust_net_timeout
adjust_net_timeout-only s = elim (Bool-cases (ltb_ℤ (half_poll s.poll_time) s.net_timeout)) [
  | inl less ↦ (half_poll s.poll_time, rw less refl)
  | inr enough ↦ (s.net_timeout, rw enough refl)
]

adjust_net_timeout-poll_time : (s : Settings) → (adjust_net_timeout s).poll_time ≡ s.poll_time
adjust_net_timeout-poll_time s = ap (λ t. t.poll_time) (adjust_net_timeout-only s).1

pub adjust_net_timeout-IsShort :
    (s : Settings) → 0 < s.poll_time → s.net_timeout ≡ pos 15000 → IsShort (adjust_net_timeout s)
unfolding adjust_net_timeout
adjust_net_timeout-IsShort s h e = elim (Bool-cases (ltb s.poll_time 2147484)) [
  | inr long ↦ inl (rw (adjust_net_timeout-poll_time s) (ground arith))
  | inl fine ↦
      let half = half_poll-exact s.poll_time (ground arith) in
      elim (Bool-cases (ltb_ℤ (half_poll s.poll_time) s.net_timeout)) [
        | inl less ↦
            rw (less, half) (inr (omega arith, omega (arith, short half less), omega arith))
        | inr enough ↦
            rw (enough, e) (inr (omega arith, omega arith, omega (arith, long_enough half enough)))
      ]
]
  where
    short :
        half_poll s.poll_time ≡ pos (s.poll_time * 500)
        → ltb_ℤ (half_poll s.poll_time) s.net_timeout ≡ true
        → s.poll_time * 500 ≤ 15000
    short half less =
        let known : ltb_ℤ (pos (s.poll_time * 500)) (pos 15000) ≡ true =
          (ap (λ x. ltb_ℤ x (pos 15000)) (sym half)
            ∙ ap (λ x. ltb_ℤ (half_poll s.poll_time) x) (sym e)
            ∙ less) in
        ground arith

    long_enough :
        half_poll s.poll_time ≡ pos (s.poll_time * 500)
        → ltb_ℤ (half_poll s.poll_time) s.net_timeout ≡ false
        → 15000 ≤ s.poll_time * 500
    long_enough half enough =
        let known : ltb_ℤ (pos (s.poll_time * 500)) (pos 15000) ≡ false =
          (ap (λ x. ltb_ℤ x (pos 15000)) (sym half)
            ∙ ap (λ x. ltb_ℤ (half_poll s.poll_time) x) (sym e)
            ∙ enough) in
        ground arith

-- A poll time of 2147484 to 4294967 seconds makes the timeout negative, since its milliseconds wrap
-- around: poll(2) then waits for ever.
pub adjust_net_timeout-negative :
    (s : Settings)
    → 2147484 ≤ s.poll_time
    → s.poll_time ≤ 4294967
    → pos 0 ≤ℤ s.net_timeout
    → (adjust_net_timeout s).net_timeout ≤ℤ negsuc 0
unfolding adjust_net_timeout
adjust_net_timeout-negative s low high h = ground arith
