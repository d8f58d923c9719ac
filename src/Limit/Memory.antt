-- ===== src/Limit/Memory.antt =====
-- internal/ratelimit/limiter.go: `MemoryLimiter`. The operations on float64 are a parameter.
use waffynx.Limit.{second}
use waffynx.Common.{
  ltb, if◌then◌else◌, Text, Map, lookup, insert, ℤ, pos, ℕ, ◌-◌, ◌*◌, Bool, Option, none, some, [],
  ◌∷◌,
}

pub record FloatOps (F : Type 0) : Type 0 where
  pub of_int : ℤ → F
  pub add : F → F → F
  pub sub : F → F → F
  pub mul : F → F → F
  pub div : F → F → F
  pub less : F → F → Bool
  pub at_least : F → F → Bool
  -- Duration.Seconds.
  pub seconds : ℕ → F

pub record Bucket (F : Type 0) : Type 0 where
  pub tokens : F
  pub last_check : ℕ
  pub last_access : ℕ

pub record MemoryLimiter (F : Type 0) : Type 0 where
  pub buckets : Map (Bucket F)
  pub bucket_ttl : ℕ
  pub cleanup_interval : ℕ

-- 30 and 5 minutes.
unfoldable pub new_memory_limiter : {F : Type 0} → MemoryLimiter F
new_memory_limiter = record {
  buckets = [];
  bucket_ttl = 1800 * second;
  cleanup_interval = 300 * second;
}

unfoldable pub drop_old : {F : Type 0} → ℕ → ℕ → Map (Bucket F) → Map (Bucket F)
drop_old now ttl [] = []
drop_old now ttl ((key, b) ∷ m) =
    let rest = drop_old now ttl m in if ltb ttl (now - b.last_access) then rest else (key, b) ∷ rest

unfoldable pub cleanup : {F : Type 0} → ℕ → MemoryLimiter F → MemoryLimiter F
unfolding drop_old
cleanup now m = record m { buckets = drop_old now m.bucket_ttl m.buckets }

module _ {F : Type 0} (o : FloatOps F) where
  -- The bucket of the key, or a full one that is made at `made`.
  unfoldable pub bucket_or_full : ℕ → ℤ → Option (Bucket F) → Bucket F
  bucket_or_full made limit none = record {
    tokens = o.of_int limit;
    last_check = made;
    last_access = made;
  }
  bucket_or_full made limit (some b) = b

  unfoldable pub refilled : ℕ → ℤ → ℕ → Bucket F → F
  refilled now limit window b =
      let rate = o.div (o.of_int limit) (o.seconds window) in
      let tokens = o.add b.tokens (o.mul (o.seconds (now - b.last_check)) rate) in
      if o.less (o.of_int limit) tokens then o.of_int limit else tokens

  -- The clock is read when a bucket is made, and again.
  unfoldable pub memory_allow : ℕ → ℕ → Text → ℤ → ℕ → MemoryLimiter F → MemoryLimiter F × Bool
  unfolding bucket_or_full refilled
  memory_allow made now key limit window m =
      let b = bucket_or_full made limit (lookup key m.buckets) in
      let tokens = refilled now limit window b in
      let enough = o.at_least tokens (o.of_int (pos 1)) in
      let left = if enough then o.sub tokens (o.of_int (pos 1)) else tokens in
      let b' : Bucket F = record { tokens = left; last_check = now; last_access = now } in
      (record m { buckets = insert key b' m.buckets }, enough)
