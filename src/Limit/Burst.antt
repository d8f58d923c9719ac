-- ===== src/Limit/Burst.antt =====
-- The bursts that the memory limiter allows.
use waffynx.Limit.Memory.{
  FloatOps, MemoryLimiter, memory_allow, Bucket, new_memory_limiter, bucket_or_full, refilled,
}
use waffynx.Common.{
  ltb, leb, if◌then◌else◌, Bool-cases, Text, text_beq, text_beq_iff, lookup, lookup-insert, pos, ℕ,
  suc, ◌-◌, ◌^◌, ◌≤◌, ◌<◌, ◌≡◌, refl, sym, ap, ◌∙◌, inl, inr, Bool, false, List, [], ◌∷◌, arith,
}

-- What float64 does with whole numbers up to 2^53: they are represented exactly, and no time adds
-- nothing.
pub record IsExact (F : Type 0) (o : FloatOps F) (limit window : ℕ) : Type 0 where
  pub less_int :
      (a b : ℕ) → a ≤ 2 ^ 53 → b ≤ 2 ^ 53 → o.less (o.of_int (pos a)) (o.of_int (pos b)) ≡ ltb a b
  pub at_least_int :
      (a b : ℕ)
      → a ≤ 2 ^ 53
      → b ≤ 2 ^ 53
      → o.at_least (o.of_int (pos a)) (o.of_int (pos b)) ≡ leb b a
  pub sub_one :
      (a : ℕ) → a < 2 ^ 53 → o.sub (o.of_int (pos (suc a))) (o.of_int (pos 1)) ≡ o.of_int (pos a)
  pub no_time :
      (a : ℕ)
      → a ≤ 2 ^ 53
      → o.add
          (o.of_int (pos a))
          (o.mul (o.seconds 0) (o.div (o.of_int (pos limit)) (o.seconds window)))
        ≡ o.of_int (pos a)

unfoldable pub memory_calls :
    {F : Type 0} → FloatOps F → ℕ → ℕ → ℕ → List Text → MemoryLimiter F → List Bool
unfolding memory_allow
memory_calls o now limit window [] m = []
memory_calls o now limit window (key ∷ keys) m =
    let (m', given) = memory_allow o now now key (pos limit) window m in
    given ∷ memory_calls o now limit window keys m'

unfoldable pub times_in : Text → List Text → ℕ
times_in key [] = 0
times_in key (k ∷ past) = let rest = times_in key past in if text_beq k key then suc rest else rest

-- A call is allowed if the calls of its key before it are fewer than the limit.
unfoldable pub first_calls : ℕ → List Text → List Text → List Bool
unfolding times_in
first_calls limit past [] = []
first_calls limit past (key ∷ keys) =
    ltb (times_in key past) limit ∷ first_calls limit (key ∷ past) keys

less_left : (limit n : ℕ) → ltb limit (limit - n) ≡ false
less_left limit n = ground arith

one_left : (limit n : ℕ) → leb 1 (limit - n) ≡ ltb n limit
one_left limit n = ground arith

module _ (F : Type 0) (o : FloatOps F) (now limit window : ℕ) (exact : IsExact F o limit window)
    (small : limit ≤ 2 ^ 53) where
  bucket_of : Text → MemoryLimiter F → Bucket F
  bucket_of key m = bucket_or_full o now (pos limit) (lookup key m.buckets)

  whole : ℕ → F
  whole n = o.of_int (pos n)

  -- What is left in the bucket of each key.
  Holds : MemoryLimiter F → List Text → Type 0
  Holds m past =
      (key : Text)
      → ((bucket_of key m).tokens ≡ whole (limit - times_in key past))
        × ((bucket_of key m).last_check ≡ now)

  refilled_lem :
      (n : ℕ) (b : Bucket F)
      → b.tokens ≡ whole (limit - n)
      → b.last_check ≡ now
      → refilled o now (pos limit) window b ≡ whole (limit - n)
  unfolding refilled whole
  refilled_lem n b tokens check =
      let no_wait : now - b.last_check ≡ 0 = omega (arith, check) in
      let same = exact.no_time (limit - n) (omega arith) in
      let full : o.less (whole limit) (whole (limit - n)) ≡ false =
        exact.less_int limit (limit - n) small (omega arith) ∙ less_left limit n in
      rw (no_wait, tokens, same, full) refl

  taken_lem :
      (n : ℕ)
      → (o.at_least (whole (limit - n)) (whole 1) ≡ ltb n limit)
        × ((if ltb n limit then o.sub (whole (limit - n)) (whole 1) else whole (limit - n))
            ≡ whole (limit - suc n))
  unfolding whole
  taken_lem n =
      let cap : limit - n ≤ 2 ^ 53 = omega arith in
      (
        exact.at_least_int (limit - n) 1 cap (omega arith) ∙ one_left limit n,
        elim (Bool-cases (ltb n limit)) [
          | inl more ↦
              let above : n < limit = ground arith in
              let e : limit - n ≡ suc (limit - suc n) = omega arith in
              rw (more, e) (exact.sub_one (limit - suc n) (omega arith))
          | inr none_left ↦
              let below : limit ≤ n = ground arith in
              let e : limit - n ≡ limit - suc n = omega arith in rw (none_left, e) refl
        ],
      )

  memory_allow_lem :
      (key : Text) (m : MemoryLimiter F) (past : List Text)
      → Holds m past
      → ((memory_allow o now now key (pos limit) window m).1 ≡ ltb (times_in key past) limit)
        × Holds (memory_allow o now now key (pos limit) window m).0 (key ∷ past)
  unfolding memory_allow Holds bucket_of times_in whole
  memory_allow_lem key m past h =
      let n = times_in key past in
      let full = refilled_lem n (bucket_of key m) (h key).0 (h key).1 in
      let (test, left) = taken_lem n in
      let given = ap (λ t. o.at_least t (whole 1)) full ∙ test in
      (
        given,
        λ k. elim (Bool-cases (text_beq key k)) [
          | inl same ↦
              let e = (text_beq_iff key k).0 same in
              let times = ap (λ x. times_in x past) (sym e) in
              rw (lookup-insert key k _ m.buckets, same, times, full, test) (left, refl)
          | inr other ↦ rw (lookup-insert key k _ m.buckets, other) (h k)
        ],
      )

  memory_calls_lem :
      (keys past : List Text) (m : MemoryLimiter F)
      → Holds m past
      → memory_calls o now limit window keys m ≡ first_calls limit past keys
  unfolding memory_calls first_calls
  memory_calls_lem [] past m h = refl
  memory_calls_lem (key ∷ keys) past m h =
      let (head, next) = memory_allow_lem key m past h in
      let rest =
        memory_calls_lem keys (key ∷ past) (memory_allow o now now key (pos limit) window m).0
          next in
      let after = (memory_allow o now now key (pos limit) window m).0 in
      ap (λ b. b ∷ memory_calls o now limit window keys after) head
      ∙ ap (◌∷◌ (ltb (times_in key past) limit)) rest

  -- Of any calls at one time on a limiter without buckets, with any keys, exactly the first `limit` calls
  -- of each key are allowed, if float64 is exact on whole numbers up to 2^53 and the limit is not
  -- greater.
  pub memory_calls-first_calls :
      (keys : List Text)
      → memory_calls o now limit window keys new_memory_limiter ≡ first_calls limit [] keys
  unfolding new_memory_limiter Holds bucket_of bucket_or_full times_in lookup whole
  memory_calls-first_calls keys =
      memory_calls_lem keys [] new_memory_limiter (λ key. (ap whole (omega arith), refl))
