-- ===== src/Client/Retry/Laws.antt =====
-- The wait between two attempts, against the comment that it doubles and has a maximum.
use gogoc_android.Prelude.{
  ℕ, zero, suc, ◌==◌, if◌then◌else◌, ◌/◌, min, ◌+◌, ◌*◌, ◌%◌, ◌^◌, ◌≤◌, ◌<◌, ◌≡◌, ap, sym, ◌∙◌,
  arith,
}
use native.Mathlib.Decide.{dec_lt}
use gogoc_android.Prelude.Bits.{pow_double}
use gogoc_android.Client.{Config, Client}
use gogoc_android.Client.Retry.{double_delay, retry_wait}

double_delay-bounded : (conf : Config) (delay : ℕ) → double_delay conf delay ≤ conf.retry_delay_max
unfolding double_delay
double_delay-bounded conf delay = ground arith

-- A wait is at most `retry_delay_max` seconds, and the variable stays so, if both it and
-- `retry_delay` were.
pub retry_wait_bounded :
    (conf : Config) (c : Client)
    → conf.retry_delay ≤ conf.retry_delay_max
    → c.effective_retry_delay ≤ conf.retry_delay_max
    → ((retry_wait conf c).0 ≤ conf.retry_delay_max)
      × ((retry_wait conf c).1.effective_retry_delay ≤ conf.retry_delay_max)
unfolding retry_wait
retry_wait_bounded conf c h k = ground (arith, double_delay-bounded conf c.effective_retry_delay)

pub retry_wait-zero : (conf : Config) (c : Client) → c.consec_retry ≡ 0 → (retry_wait conf c).0 ≡ 0
unfolding retry_wait
retry_wait-zero conf c h = ground arith

-- one failure: the wait is the variable, not doubled
pub retry_wait-one :
    (conf : Config) (c : Client)
    → c.consec_retry ≡ 1
    → (retry_wait conf c).0 ≡ c.effective_retry_delay
unfolding retry_wait
retry_wait-one conf c h = ground arith

-- the variables after a number of waits in a row
pub waited : ℕ → Config → Client → Client
waited zero conf c = c
waited (suc n) conf c = (retry_wait conf (waited n conf c)).1

-- the delay doubled so many times; the first doubling is the first test against the maximum
abbrev pub doubled_delay : Config → ℕ → ℕ
doubled_delay conf k =
    if k == 0 then conf.retry_delay else min (conf.retry_delay * 2 ^ k) conf.retry_delay_max

record Waited (conf : Config) (n : ℕ) (c : Client) : Type 0 where
  counted : c.consec_retry ≡ n + 1
  delay : c.effective_retry_delay ≡ doubled_delay conf (n / 3)

scale : (d k : ℕ) → d * 2 ^ (k + 1) ≡ d * 2 ^ k * 2
scale d k =
    let next : k + 1 ≡ suc k = omega arith in
    omega (arith, ap (λ n. d * 2 ^ n) next, ap (λ p. d * p) (pow_double k))

double_delay-min :
    (conf : Config) (k : ℕ)
    → conf.retry_delay < 2 ^ 15
    → conf.retry_delay_max < 2 ^ 15
    → double_delay conf (doubled_delay conf k) ≡ doubled_delay conf (k + 1)
unfolding double_delay
double_delay-min conf zero d h = ground (arith, scale conf.retry_delay 0)
double_delay-min conf (suc k) d h = ground (arith, scale conf.retry_delay (suc k))

-- a wait that doubles, and one that does not
record Waits (conf : Config) (c : Client) (delay : ℕ) : Type 0 where
  slept : (retry_wait conf c).0 ≡ delay
  kept : (retry_wait conf c).1.effective_retry_delay ≡ delay
  counts : (retry_wait conf c).1.consec_retry ≡ (c.consec_retry + 1) % 2 ^ 8

retry_wait-third :
    (conf : Config) (c : Client)
    → c.consec_retry % 3 ≡ 0
    → 0 < c.consec_retry
    → Waits conf c (double_delay conf c.effective_retry_delay)
unfolding retry_wait
retry_wait-third conf c h p = record {
  slept = ground arith;
  kept = ground arith;
  counts = ground arith;
}

retry_wait-other :
    (conf : Config) (c : Client) → 0 < c.consec_retry % 3 → Waits conf c c.effective_retry_delay
unfolding retry_wait
retry_wait-other conf c h = record {
  slept = ground arith;
  kept = ground arith;
  counts = ground arith;
}

retry_wait-Waited :
    (conf : Config) (n : ℕ) (c : Client)
    → conf.retry_delay < 2 ^ 15
    → conf.retry_delay_max < 2 ^ 15
    → n < 254
    → Waited conf n c
    → ((retry_wait conf c).0 ≡ doubled_delay conf ((n + 1) / 3))
      × Waited conf (n + 1) (retry_wait conf c).1
retry_wait-Waited conf n c d h k w = elim (dec_lt 0 ((n + 1) % 3)) [
  | no third ↦
      let next : (n + 1) / 3 ≡ n / 3 + 1 = omega arith in
      let wait = retry_wait-third conf c (omega (arith, w.counted)) (omega (arith, w.counted)) in
      let delay : double_delay conf c.effective_retry_delay ≡ doubled_delay conf ((n + 1) / 3) =
        ap (double_delay conf) w.delay
        ∙ double_delay-min conf (n / 3) d h
        ∙ sym (ap (doubled_delay conf) next) in
      (
        wait.slept ∙ delay,
        record { counted = omega (arith, wait.counts, w.counted); delay = wait.kept ∙ delay },
      )
  | yes other ↦
      let next : (n + 1) / 3 ≡ n / 3 = omega arith in
      let wait = retry_wait-other conf c (omega (arith, w.counted)) in
      let delay : c.effective_retry_delay ≡ doubled_delay conf ((n + 1) / 3) =
        w.delay ∙ sym (ap (doubled_delay conf) next) in
      (
        wait.slept ∙ delay,
        record { counted = omega (arith, wait.counts, w.counted); delay = wait.kept ∙ delay },
      )
]

waited-Waited :
    (conf : Config) (c : Client) (n : ℕ)
    → conf.retry_delay < 2 ^ 15
    → conf.retry_delay_max < 2 ^ 15
    → Waited conf 0 c
    → n < 255
    → Waited conf n (waited n conf c)
unfolding waited
waited-Waited conf c zero d h w k = w
waited-Waited conf c (suc n) d h w k =
    let next : n + 1 ≡ suc n = omega arith in
    rw next at (
      (retry_wait-Waited conf n (waited n conf c) d h (omega arith)
        (waited-Waited conf c n d h w (omega arith))).1)

-- From a client that has counted one failure and whose variable is `retry_delay`, through up to 254
-- calls of `retry_wait` in a row: the first two waits are `retry_delay` itself, also where that is
-- above `retry_delay_max`; after them, every three waits are twice as long as the three (or two)
-- before, cut to `retry_delay_max`. `retry_delay` and the maximum are below 2^15, so that the 16 bits
-- of the variable hold their doubles.
pub waits_double :
    (conf : Config) (c : Client) (n : ℕ)
    → conf.retry_delay < 2 ^ 15
    → conf.retry_delay_max < 2 ^ 15
    → c.consec_retry ≡ 1
    → c.effective_retry_delay ≡ conf.retry_delay
    → n < 254
    → (retry_wait conf (waited n conf c)).0 ≡ doubled_delay conf ((n + 1) / 3)
waits_double conf c n d h one first k =
    let start : Waited conf 0 c = record { counted = one; delay = omega (arith, first) } in
    (retry_wait-Waited conf n (waited n conf c) d h k
      (waited-Waited conf c n d h start (omega arith))).0
