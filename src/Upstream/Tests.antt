-- ===== src/Upstream/Tests.antt =====
-- Runs of the choices and the health check on a pool of three targets, the first of which is down.
use waffynx.Upstream.{
  Target, Pool, nothing, panics, target, half_word, rem_plus, round_robin, least_conn, ip_hash,
  fnv32a, or_whole,
}
use waffynx.Upstream.Cyclic.{IsHealthyAt}
use waffynx.Upstream.Choice.{
  start, FirstHealthy, round_robin-FirstHealthy, ip_hash-FirstHealthy, round_robin_overflow,
}
use waffynx.Upstream.Least.{IsLeast, least_conn_lem}
use waffynx.Common.{
  length, get_elem?, Text, txt, pos, ℕ, zero, suc, ◌+◌, ◌-◌, ◌%◌, ◌<◌, ◌≡◌, refl, ◌⊎◌, Bool, true,
  false, Option, none, some, [], ◌∷◌, arith,
}

abbrev server : ℕ → Bool → Target
server conns healthy = record {
  active_conns = conns;
  failures = 0;
  healthy = healthy;
  url = record { scheme = txt "http"; host = txt "a" };
  weight = pos 1;
}

abbrev pool : Pool
pool = record {
  index = 2;
  targets = server 0 false ∷ server 5 true ∷ server 3 true ∷ [];
  lb_type = txt "round_robin";
}

abbrev old_pool : Pool
old_pool = record pool { index = half_word }

abbrev no_port : Text → Option Text
no_port s = none

-- The start after the index 2 is the first target, which is down; the second one is chosen.
skips_unhealthy : (round_robin pool).1 ≡ target 1
unfolding round_robin rem_plus
skips_unhealthy = refl

fewest_connections : least_conn pool ≡ target 2
unfolding least_conn
fewest_connections = refl

few_connections :
    (m : ℕ) (u : Target) → get_elem? pool.targets m ≡ some u → u.active_conns < half_word - 1
few_connections zero u e = grind arith
few_connections (suc zero) u e = grind arith
few_connections (suc (suc zero)) u e = grind arith
few_connections (suc (suc (suc m))) u e = cc

round_robin-FirstHealthy_example :
    ((round_robin pool).0 ≡ record pool { index = pool.index + 1 })
    × FirstHealthy pool.targets (start pool) nothing (round_robin pool).1
round_robin-FirstHealthy_example = round_robin-FirstHealthy pool (omega arith) (omega arith)

ip_hash-FirstHealthy_example :
    FirstHealthy pool.targets
      (fnv32a (or_whole (txt "1.2.3.4") (no_port (txt "1.2.3.4"))) % length pool.targets)
      (target (fnv32a (or_whole (txt "1.2.3.4") (no_port (txt "1.2.3.4"))) % length pool.targets))
      (ip_hash no_port (txt "1.2.3.4") pool)
ip_hash-FirstHealthy_example =
    ip_hash-FirstHealthy no_port (txt "1.2.3.4") pool (omega arith) (omega arith)

round_robin_overflow_example : (round_robin old_pool).1 ≡ panics
round_robin_overflow_example =
    round_robin_overflow old_pool (omega arith) (omega arith) (omega arith) (λ e. omega arith)

least_conn_lem_example :
    ((j : ℕ) × (t : Target) × IsLeast pool.targets j t × (least_conn pool ≡ target j))
    ⊎ ((least_conn pool ≡ nothing) × ((m : ℕ) → ¬ IsHealthyAt pool.targets m))
least_conn_lem_example = least_conn_lem pool few_connections
