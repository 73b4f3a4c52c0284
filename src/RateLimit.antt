-- ===== src/RateLimit.antt =====
-- The token bucket of MemoryLimiter (plane/data/ratelimit/limiter_memory.go), whose clock's reading is
-- part of the state. `float64` is a type `F` with the operations that the code uses.
pub mod Bounds
mod Tests
use gitscale.Common.{
  ℕ, ◌+◌, ◌-◌, Bool, true, false, Option, none, some, List, [], ◌∷◌, if◌then◌else◌,
}
use gitscale.Common.Map.{lookup, insert}
use gitscale.Common.Str.{Str, Str-discrete}

-- `lt` is Go's `<`, and `seconds_of` is Duration.Seconds.
pub record Arith (F : Type 0) : Type 0 where
  pub zero : F
  pub add : F → F → F
  pub sub : F → F → F
  pub mul : F → F → F
  pub lt : F → F → Bool
  pub seconds_of : ℕ → F

-- bucketState
pub record Bucket (F : Type 0) : Type 0 where
  pub tokens : F
  pub last_at : ℕ
  pub capacity : F
  pub refill : F

-- BucketState, without the surface, which the limiter leaves empty.
pub record Snapshot (F : Type 0) : Type 0 where
  pub capacity : F
  pub remaining : F
  pub refill_per_sec : F

pub record MemoryLimiter (F : Type 0) : Type 0 where
  pub buckets : List (Str × Bucket F)
  pub now : ℕ

module _ {F : Type 0} where
  unfoldable pub new_memory_limiter : ℕ → MemoryLimiter F
  new_memory_limiter now = record { buckets = []; now = now }

  -- FakeClock.Advance
  unfoldable pub advance_clock : ℕ → MemoryLimiter F → MemoryLimiter F
  advance_clock d m = record m { now = m.now + d }

module _ {F : Type 0} (fl : Arith F) where
  -- The bucket of a key, full where there is none yet.
  unfoldable pub bucket_for : MemoryLimiter F → Str → F → F → Bucket F
  bucket_for m key capacity refill = elim (lookup Str-discrete key m.buckets) [
    | none ↦ record { tokens = capacity; last_at = m.now; capacity = capacity; refill = refill }
    | some b ↦ b
  ]

  -- The tokens once the time since the last call is credited, up to the capacity. The clock does not
  -- go back.
  unfoldable pub refilled : ℕ → Bucket F → F → F → F
  refilled now b capacity refill =
      let tokens = fl.add b.tokens (fl.mul (fl.seconds_of (now - b.last_at)) refill) in
      if fl.lt capacity tokens then capacity else tokens

  abbrev pub keep_bucket : MemoryLimiter F → Str → F → F → F → MemoryLimiter F
  keep_bucket m key tokens capacity refill = record m {
    buckets =
        insert Str-discrete key
          (record { tokens = tokens; last_at = m.now; capacity = capacity; refill = refill })
          m.buckets;
  }

  -- Take: whether the tokens are granted, and how many are left.
  unfoldable pub take_tokens : MemoryLimiter F → Str → F → F → F → MemoryLimiter F × Bool × F
  unfolding bucket_for refilled
  take_tokens m key capacity refill n =
      let tokens = refilled m.now (bucket_for m key capacity refill) capacity refill in
      if fl.lt tokens n
      then (keep_bucket m key tokens capacity refill, false, tokens)
      else (keep_bucket m key (fl.sub tokens n) capacity refill, true, fl.sub tokens n)

  -- Inspect
  unfoldable pub inspect : MemoryLimiter F → Str → Snapshot F
  inspect m key = elim (lookup Str-discrete key m.buckets) [
    | none ↦ record { capacity = fl.zero; remaining = fl.zero; refill_per_sec = fl.zero }
    | some b ↦ record { capacity = b.capacity; remaining = b.tokens; refill_per_sec = b.refill }
  ]
