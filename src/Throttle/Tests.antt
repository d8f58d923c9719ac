-- ===== src/Throttle/Tests.antt =====
-- Runs of the rate limiting plugin.
use waffynx.Http.{or_empty, header_get, new_writer}
use waffynx.Plugin.{Context}
use waffynx.Limit.{second}
use waffynx.Limit.Memory.{FloatOps, new_memory_limiter}
use waffynx.Limit.Burst.{IsExact, first_calls}
use waffynx.Throttle.{memory, RateLimit, extract_ip}
use waffynx.Throttle.Passed.{memory_at, execute_all, execute_all-first_calls}
use waffynx.Common.{
  ltb, leb, Text, txt, lookup, pos, pos_part, ℕ, ◌+◌, ◌-◌, ◌*◌, ◌/◌, ◌≡◌, refl, true, List, [], ◌∷◌,
  map, arith,
}

abbrev whole : FloatOps ℕ
whole = record {
  of_int = pos_part;
  add = λ a b. a + b;
  sub = λ a b. a - b;
  mul = λ a b. a * b;
  div = λ a b. a / b;
  less = ltb;
  at_least = λ a b. leb b a;
  seconds = λ d. d / second;
}

whole-IsExact : IsExact ℕ whole 1 second
whole-IsExact = record {
  less_int = λ a b ha hb. refl;
  at_least_int = λ a b ha hb. refl;
  sub_one = λ a h. omega arith;
  no_time = λ a h. omega arith;
}

abbrev one_each : RateLimit
one_each = record { enabled = true; requests_per_second = pos 1; burst = pos 200; limiter = memory }

abbrev from_ip : Text → Context
from_ip ip = record {
  request = record { header = []; path = []; remote_addr = ip; content_length = pos 0 };
  writer = new_writer;
  values = [];
  tags = [];
  status_code = 0;
  body_size = pos 0;
}

abbrev two : List Context
two = from_ip (txt "a") ∷ from_ip (txt "a") ∷ []

execute_all-first_calls_example :
    execute_all (memory_at whole 5) one_each two new_memory_limiter
    ≡ first_calls 1 [] (map extract_ip two)
unfolding extract_ip header_get or_empty lookup
execute_all-first_calls_example =
    execute_all-first_calls ℕ whole 5 1 one_each two whole-IsExact (omega arith) refl refl
      ((λ e. cc e), ((λ e. cc e), tt))
