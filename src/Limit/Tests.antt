-- ===== src/Limit/Tests.antt =====
-- Runs of the two limiters.
use waffynx.Limit.{answer, Redis, second}
use waffynx.Limit.Fixed.{
  AllowCall, redis_calls, Counts, in_window, window_answers, redis_calls-window_answers,
}
use waffynx.Limit.Memory.{FloatOps, new_memory_limiter}
use waffynx.Limit.Burst.{IsExact, memory_calls, times_in, first_calls, memory_calls-first_calls}
use waffynx.Common.{
  ltb, leb, Text, txt, pos, pos_part, ℕ, suc, ◌+◌, ◌-◌, ◌*◌, ◌/◌, ◌≡◌, refl, true, false, none,
  some, List, [], ◌∷◌, arith,
}

-- Redis as the list of the names that were increased.
abbrev listed_redis : Redis (List Text)
unfolding times_in
listed_redis = record {
  incr = λ key w. (key ∷ w, (some (pos (suc (times_in key w))), []));
  expire = λ key ttl w. w;
  close = λ w. (w, none);
}

count_names : List Text → Text → ℕ
count_names w key = times_in key w

listed_redis-Counts : Counts (List Text) listed_redis count_names
unfolding times_in count_names
listed_redis-Counts = record {
  incr_gives = λ key w. refl;
  incr_counts = λ key other w. refl;
  expire_keeps = λ key other ttl w. refl;
}

-- Two keys; the second call of `a` is over the limit, and its third is in the next window.
abbrev sample_calls : List AllowCall
sample_calls = (10, txt "a") ∷ (10, txt "b") ∷ (11, txt "a") ∷ (12, txt "a") ∷ []

sample_answers :
    window_answers (pos 1) (2 * second) [] sample_calls
    ≡ answer true ∷ answer true ∷ answer false ∷ answer true ∷ []
unfolding window_answers in_window
sample_answers = refl

redis_calls-window_answers_example :
    redis_calls listed_redis (pos 1) (2 * second) sample_calls []
    ≡ window_answers (pos 1) (2 * second) [] sample_calls
unfolding count_names times_in
redis_calls-window_answers_example =
    redis_calls-window_answers (List Text) listed_redis count_names listed_redis-Counts (pos 1)
      (2 * second) sample_calls [] (λ name. refl)
      (omega arith, (omega arith, (omega arith, (omega arith, tt))))

-- Whole numbers instead of float64.
abbrev whole_numbers : FloatOps ℕ
whole_numbers = record {
  of_int = pos_part;
  add = λ a b. a + b;
  sub = λ a b. a - b;
  mul = λ a b. a * b;
  div = λ a b. a / b;
  less = ltb;
  at_least = λ a b. leb b a;
  seconds = λ d. d / second;
}

whole_numbers-IsExact : (limit window : ℕ) → IsExact ℕ whole_numbers limit window
whole_numbers-IsExact limit window = record {
  less_int = λ a b ha hb. refl;
  at_least_int = λ a b ha hb. refl;
  sub_one = λ a h. omega arith;
  no_time = λ a h. omega arith;
}

memory_calls-first_calls_example :
    memory_calls whole_numbers 5 2 second
      (txt "a" ∷ txt "a" ∷ txt "b" ∷ txt "a" ∷ [])
      new_memory_limiter
    ≡ first_calls 2 [] (txt "a" ∷ txt "a" ∷ txt "b" ∷ txt "a" ∷ [])
memory_calls-first_calls_example =
    memory_calls-first_calls ℕ whole_numbers 5 2 second (whole_numbers-IsExact 2 second)
      (omega arith) (txt "a" ∷ txt "a" ∷ txt "b" ∷ txt "a" ∷ [])
