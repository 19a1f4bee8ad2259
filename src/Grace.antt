-- ===== src/Grace.antt =====
-- src/grace.rs: the delay before a restart. The doubles of the back-off formula are a parameter,
-- since a double's arithmetic is the machine's.
pub mod Bounds
use autossh_1_4g.Base.{ℕ, ◌+◌, ◌-◌, ◌/◌, false, ltb, leb, if◌then◌else◌}
use autossh_1_4g.Base.Int.{ℤ, pos, negsuc, ltb_ℤ}
use autossh_1_4g.Process.{M, pure, get, modify, ask, ◌>>=◌, ◌>>◌}
use autossh_1_4g.Signals.{sleep}

-- c_double, with its division, its product and the cast to c_int.
pub record Doubles : Type 1 where
  pub Double : Type 0
  pub of_ℕ : ℕ → Double
  pub div : Double → Double → Double
  pub mul : Double → Double → Double
  pub to_c_int : Double → ℤ

abbrev pub n_fast_tries : ℕ
n_fast_tries = 5

abbrev pub port_fwd_fail_delay : ℕ
port_fwd_fail_delay = 5

-- A session shorter than this counts as a fast try.
unfoldable pub min_time : ℕ → ℕ
min_time poll_time = let m = poll_time / 10 in if ltb m 10 then 10 else m

unfoldable pub count_try : ℕ → ℕ → M (Unit {0})
unfolding min_time
count_try now last_start =
    modify λ s. record s {
      tries = if leb (last_start + min_time s.poll_time) now then 0 else s.tries + 1;
    }

-- sleep(interval as c_uint), unless the interval is not positive
unfoldable pub sleep_interval : ℤ → M (Unit {0})
sleep_interval (pos n) = if ltb 0 n then sleep n else pure tt
sleep_interval (negsuc n) = pure tt

-- if n > poll_time { poll_time } else { n }
abbrev pub cap : ℕ → ℤ → ℤ
cap poll_time n = if ltb_ℤ (pos poll_time) n then pos poll_time else n

unfoldable pub delay_after_port_failure : M (Unit {0})
delay_after_port_failure = do
  s ← get
  if s.port_fwd_failed
      then (do sleep port_fwd_fail_delay; modify (λ t. record t { port_fwd_failed = false }))
      else pure tt

module _ (fl : Doubles) where
  open fl use {Double, of_ℕ, div, mul, to_c_int}

  -- ((poll_time / 100.0) * (t * (t / 3.0))) as c_int, capped by poll_time
  unfoldable pub backoff : ℕ → ℕ → ℤ
  backoff poll_time tries =
      let t = of_ℕ (tries - n_fast_tries) in
      let n = to_c_int (mul (div (of_ℕ poll_time) (of_ℕ 100)) (mul t (div t (of_ℕ 3)))) in
      cap poll_time n

  unfoldable pub sleep_backoff : M (Unit {0})
  unfolding sleep_interval
  sleep_backoff = do
    s ← get
    if ltb n_fast_tries s.tries then sleep_interval (backoff s.poll_time s.tries) else pure tt

  unfoldable pub grace_time : ℕ → M (Unit {0})
  unfolding count_try sleep_backoff delay_after_port_failure
  grace_time last_start = do
    now ← ask (λ os n. os.time n)
    count_try now last_start
    sleep_backoff
    delay_after_port_failure
