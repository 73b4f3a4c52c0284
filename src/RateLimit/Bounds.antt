-- ===== src/RateLimit/Bounds.antt =====
-- The buckets under calls of Take (limiter_memory.go).
use gitscale.Common.{◌≡◌, false}
use gitscale.Common.Str.{Str}
use gitscale.RateLimit.{Arith}

-- What IEEE 754 says of these comparisons, also where a value is not a number.
pub record ArithOk {F : Type 0} (fl : Arith F) : Type 0 where
  pub lt_irrefl : (x : F) → fl.lt x x ≡ false
  pub sub_not_below : (a n : F) → fl.lt a n ≡ false → fl.lt (fl.sub a n) fl.zero ≡ false
  pub sub_not_above :
      (c a n : F) → fl.lt c a ≡ false → fl.lt n fl.zero ≡ false → fl.lt c (fl.sub a n) ≡ false
