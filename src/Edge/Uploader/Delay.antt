-- ===== src/Edge/Uploader/Delay.antt =====
-- The delay before a retry.
use native.Mathlib.Nat.{mul-le-mul_left, pow-le-pow_right}
use ambagrid.Common.{◌⊎◌, ◌<◌, ◌*◌, ◌^◌, ◌≡◌, ℕ, ◌≤◌, arith}
use ambagrid.Edge.Uploader.Batch.{Config, retry_delay}

-- The delay before a retry is at most the maximum, it is the base delay doubled for each attempt as
-- long as that is within the maximum, and it never falls as attempts are added.
pub retry_delay-bounded :
    (c : Config) (a b : ℕ)
    → a ≤ b
    → (retry_delay c a ≤ c.max_delay)
      × (retry_delay c a ≤ retry_delay c b)
      × ((retry_delay c a ≡ c.base_delay * 2 ^ a)
          ⊎ ((retry_delay c a ≡ c.max_delay) × (c.max_delay < c.base_delay * 2 ^ a)))
unfolding retry_delay
retry_delay-bounded c a b l =
    let grows : c.base_delay * 2 ^ a ≤ c.base_delay * 2 ^ b =
      mul-le-mul_left c.base_delay (pow-le-pow_right (omega arith) l) in
    ground arith
