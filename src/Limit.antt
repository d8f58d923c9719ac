-- ===== src/Limit.antt =====
-- internal/ratelimit/limiter.go: the interface of a limiter and the one over Redis. The Redis client
-- is a parameter, with a state of its own. Times are natural numbers of seconds since the epoch for
-- `RedisLimiter`, and durations are natural numbers of nanoseconds.
pub mod Fixed
pub mod Memory
pub mod Burst
pub mod Tests
use waffynx.Common.Decimal.{itoa}
use waffynx.Common.{
  ltb, eqb, if◌then◌else◌, Text, txt, is_empty, ℤ, pos, negsuc, lt_int, ℕ, ◌+◌, ◌/◌, Bool, false,
  not, Option, none, some, ◌∷◌, ◌++◌,
}

-- `Allow` at a time, of a key with a limit and a window; an error is its text.
pub data Allowed : Type 0 where
  answer : Bool → Allowed
  error : Text → Allowed

pub record Limiter (World : Type 0) : Type 0 where
  pub allow : Text → ℤ → ℕ → World → World × Allowed
  pub close : World → World × Option Text

-- The parts of Config.
pub record Config : Type 0 where
  pub enabled : Bool
  pub addr : Text
  pub password : Text
  pub db : ℤ

-- INCR gives the new value or an error; the answer of EXPIRE is not looked at.
pub record Redis (World : Type 0) : Type 0 where
  pub incr : Text → World → World × (Option ℤ × Text)
  pub expire : Text → ℕ → World → World
  pub close : World → World × Option Text

abbrev pub second : ℕ
second = 1000000000

abbrev pub prefix : Text
prefix = txt "waffynx:ratelimit:"

-- int64(window.Seconds()), at least 1.
abbrev pub window_sec : ℕ → ℕ
window_sec window = if ltb (window / second) 1 then 1 else window / second

unfoldable pub redis_key : Text → ℕ → Text
unfolding itoa
redis_key key bucket = prefix ++ (key ++ (b':' ∷ itoa (pos bucket)))

abbrev pub is_one : ℤ → Bool
is_one (pos n) = eqb n 1
is_one (negsuc n) = false

-- What follows INCR.
unfoldable pub after_incr :
    {World : Type 0} → Redis World → Text → ℤ → ℕ → World × (Option ℤ × Text) → World × Allowed
after_incr r key limit window (w, (none, err)) = (w, error (txt "redis incr: " ++ err))
after_incr r key limit window (w, (some count, err)) =
    let w' = if is_one count then r.expire key (window + second) w else w in
    (w', answer (not (lt_int limit count)))

unfoldable pub redis_allow :
    {World : Type 0} → Redis World → ℕ → Text → ℤ → ℕ → World → World × Allowed
unfolding redis_key after_incr
redis_allow r now key limit window w =
    let name = redis_key key (now / window_sec window) in
    after_incr r name limit window (r.incr name w)

abbrev pub with_addr : Config → Config
with_addr cfg = if is_empty cfg.addr then record cfg { addr = txt "localhost:6379" } else cfg

-- No limiter for a configuration that is off, the error of the connection, or the configuration of
-- the limiter; `ping` connects.
pub data NewRedis : Type 0 where
  no_limiter : NewRedis
  not_connected : Text → NewRedis
  connected : Config → NewRedis

unfoldable pub new_redis_limiter : (Config → Option Text) → Config → NewRedis
new_redis_limiter ping cfg = if not cfg.enabled then no_limiter else elim (ping (with_addr cfg)) [
  | none ↦ connected (with_addr cfg)
  | some err ↦
      not_connected
        (txt "redis connection failed at " ++ ((with_addr cfg).addr ++ (txt ": " ++ err)))
]
