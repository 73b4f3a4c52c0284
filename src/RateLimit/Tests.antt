-- ===== src/RateLimit/Tests.antt =====
-- The limiter on whole tokens, and its theorems there.
use gitscale.Common.{ℕ, ◌+◌, ◌*◌, ◌-◌, ◌/◌, ◌≡◌, refl, false, ltb}
use gitscale.Common.Map.{lookup, insert}
use gitscale.Common.Str.{Str, codes, Str-discrete}
use gitscale.RateLimit.{
  Arith, MemoryLimiter, new_memory_limiter, advance_clock, bucket_for, refilled, take_tokens,
}

abbrev whole : Arith ℕ
whole = record {
  zero = 0;
  add = λ a b. a + b;
  sub = λ a b. a - b;
  mul = λ a b. a * b;
  lt = ltb;
  seconds_of = λ d. d / 1_000_000_000;
}

abbrev key_a : Str
key_a = codes "a"

abbrev key_b : Str
key_b = codes "b"

abbrev drained : MemoryLimiter ℕ
drained = (take_tokens whole (new_memory_limiter 100) key_a 5 2 5).0

-- Two seconds after it was drained the bucket has four tokens, and five are refused.
refill_refuses :
    let (m, granted, left) = take_tokens whole (advance_clock 2_000_000_000 drained) key_a 5 2 5 in
    (granted ≡ false) × (left ≡ 4)
unfolding take_tokens bucket_for refilled new_memory_limiter advance_clock lookup insert
    Str-discrete
refill_refuses = (refl, refl)
