-- ===== src/Scans/Retry/Backoff.antt =====
-- Bounds of the backoff of scan_worker.py.
use digital_real_estate_engi.Common.{ℕ, ◌+◌, ◌-◌, ◌*◌, ◌^◌, ◌≤◌, min, arith}
use native.Mathlib.Nat.{pow-le-pow_right, mul-le-mul_left}
use digital_real_estate_engi.Scans.Retry.{capped_delay, retry_delay}

-- The delay before jitter never shrinks as the failures go on, and never exceeds the maximum.
pub capped_delay_mono :
    (a b base maximum : ℕ)
    → a ≤ b
    → (capped_delay a base maximum ≤ capped_delay b base maximum)
      × (capped_delay b base maximum ≤ maximum)
unfolding capped_delay
capped_delay_mono a b base maximum h =
    let powers : 2 ^ (a - 1) ≤ 2 ^ (b - 1) = pow-le-pow_right (omega arith) (omega (arith, h)) in
    let scaled : base * 2 ^ (a - 1) ≤ base * 2 ^ (b - 1) = mul-le-mul_left base powers in
    (omega arith, omega arith)

-- Whatever the jitter, a retry waits at least half of its capped delay, less half a microsecond of
-- rounding, and at most all of it, so at most the maximum of the settings.
pub retry_delay-bounds :
    (retry_count base maximum jitter : ℕ)
    → (capped_delay retry_count base maximum ≤ 2 * retry_delay retry_count base maximum jitter + 1)
      × (retry_delay retry_count base maximum jitter ≤ capped_delay retry_count base maximum)
      × (retry_delay retry_count base maximum jitter ≤ maximum)
unfolding retry_delay
retry_delay-bounds retry_count base maximum jitter =
    let c = capped_delay retry_count base maximum in
    let low : c * 1000000 ≤ c * (1000000 + min jitter 1000000) = mul-le-mul_left c (omega arith) in
    let high : c * (1000000 + min jitter 1000000) ≤ c * 2000000 = mul-le-mul_left c (omega arith) in
    let whole : c ≤ maximum =
      (capped_delay_mono retry_count retry_count base maximum (omega arith)).1 in
    (omega (arith, low), omega (arith, high), omega (arith, high, whole))
