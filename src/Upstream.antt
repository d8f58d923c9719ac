-- ===== src/Upstream.antt =====
-- internal/upstream/upstream.go: the pool of targets, its three ways to choose one, and the health
-- check. A target is given by its position in the list, as Go gives its pointer. `url.Parse` and
-- `net.SplitHostPort` are arguments. Each decrement of `activeConns` follows its increment, so the
-- counter is a natural number.
pub mod Cyclic
pub mod Choice
pub mod Least
pub mod Health
pub mod Tests
use Prim.Native.Nat.{bit_xor}
use waffynx.Common.{
  ltb, leb, eqb, if◌then◌else◌, length, get_elem?, Text, txt, text_beq, ℤ, pos, negsuc, ℕ, zero,
  suc, ◌+◌, ◌-◌, ◌*◌, ◌%◌, ◌^◌, Bool, true, false, ◌&&◌, Option, none, some, List, [], ◌∷◌, ◌++◌,
  map,
}

pub record Url : Type 0 where
  pub scheme : Text
  pub host : Text

pub record Target : Type 0 where
  pub active_conns : ℕ
  pub failures : ℕ
  pub healthy : Bool
  pub url : Url
  pub weight : ℤ

pub record Pool : Type 0 where
  pub index : ℕ
  pub targets : List Target
  pub lb_type : Text

unfoldable pub new_pool : Text → Pool
new_pool lb_type = record { index = 0; targets = []; lb_type = lb_type }

-- `none` is the error of `url.Parse`.
unfoldable pub add_target : (Text → Option Url) → Text → ℤ → Pool → Option Pool
add_target parse addr weight p = elim (parse addr) [
  | none ↦ none
  | some u ↦
      let t : Target = record {
        active_conns = 0;
        failures = 0;
        healthy = true;
        url = u;
        weight = weight;
      } in
      some (record p { targets = p.targets ++ t ∷ [] })
]

-- A Go panic at an index out of range, the nil target, or the target at a position.
pub data Pick : Type 0 where
  panics : Pick
  nothing : Pick
  target : ℕ → Pick

abbrev pub word : ℕ
word = 2 ^ 64

abbrev pub half_word : ℕ
half_word = 2 ^ 63

abbrev pub minus : ℕ → ℤ
minus zero = pos zero
minus (suc k) = negsuc k

-- int(n) % len of a uint64: the remainder has the sign of int(n).
unfoldable pub rem_word : ℕ → ℕ → ℤ
rem_word n len = if ltb n half_word then pos (n % len) else minus ((word - n) % len)

-- (idx + i) % len.
unfoldable pub rem_plus : ℤ → ℕ → ℕ → ℤ
rem_plus (pos a) i len = pos ((a + i) % len)
rem_plus (negsuc a) i len =
    if leb (suc a) i then pos ((i - suc a) % len) else minus ((suc a - i) % len)

-- The loop of `roundRobin` and `ipHash` over the targets from `idx` on, with the rounds that are
-- left; `otherwise` is what follows the loop.
unfoldable pub search_loop : Pick → List Target → ℤ → ℕ → ℕ → Pick
search_loop otherwise targets idx i zero = otherwise
search_loop otherwise targets idx i (suc rounds) =
    let rest = search_loop otherwise targets idx (i + 1) rounds in
    elim (rem_plus idx i (length targets)) [
      | negsuc k ↦ panics
      | pos k ↦ elim (get_elem? targets k) [
        | none ↦ panics
        | some t ↦ if t.healthy then target k else rest
      ]
    ]

unfoldable pub round_robin : Pool → Pool × Pick
unfolding rem_word search_loop
round_robin p =
    let n = (p.index + 1) % word in
    let len = length p.targets in
    if eqb len 0
    then (p, nothing)
    else (record p { index = n }, search_loop nothing p.targets (rem_word n len) 0 len)

-- The loop of `leastConn`, with the position that it has reached.
unfoldable pub least_loop : List Target → ℕ → ℕ → Pick → Pick
least_loop [] k min_conns best = best
least_loop (t ∷ ts) k min_conns best =
    let better = t.healthy && ltb t.active_conns min_conns in
    least_loop ts (k + 1) (if better then t.active_conns else min_conns)
      (if better then target k else best)

unfoldable pub least_conn : Pool → Pick
unfolding least_loop
least_conn p = least_loop p.targets 0 (half_word - 1) nothing

-- hash/fnv's New32a.
unfoldable pub fnv_loop : Text → ℕ → ℕ
fnv_loop [] h = h
fnv_loop (b ∷ s) h = fnv_loop s ((bit_xor h b * 16777619) % 2 ^ 32)

unfoldable pub fnv32a : Text → ℕ
unfolding fnv_loop
fnv32a s = fnv_loop s 2166136261

pub or_whole : Text → Option Text → Text
or_whole whole none = whole
or_whole whole (some host) = host

-- `uint32(len(p.targets))` wraps, and a remainder by 0 panics.
unfoldable pub ip_hash : (Text → Option Text) → Text → Pool → Pick
unfolding or_whole search_loop
ip_hash split_host remote_addr p =
    let len = length p.targets in
    let len32 = len % 4294967296 in
    let idx = fnv32a (or_whole remote_addr (split_host remote_addr)) % len32 in
    if eqb len 0
    then nothing
    else if eqb len32 0
    then panics
    else search_loop (target idx) p.targets (pos idx) 0 len

unfoldable pub next : (Text → Option Text) → Text → Pool → Pool × Pick
unfolding round_robin least_conn ip_hash
next split_host remote_addr p =
    if eqb (length p.targets) 0
    then (p, nothing)
    else if text_beq p.lb_type (txt "least_conn")
    then (p, least_conn p)
    else if text_beq p.lb_type (txt "ip_hash")
    then (p, ip_hash split_host remote_addr p)
    else round_robin p

-- A health check's answer: an error, or a status.
pub data Probe : Type 0 where
  unreachable : Probe
  answers : ℕ → Probe

unfoldable pub is_bad : Probe → Bool
is_bad unreachable = true
is_bad (answers status) = leb 500 status

unfoldable pub check : Probe → Target → Target
unfolding is_bad
check probe t =
    if is_bad probe
    then (if leb 3 (t.failures + 1)
        then record t { failures = t.failures + 1; healthy = false }
        else record t { failures = t.failures + 1 })
    else record t { failures = 0; healthy = true }

-- `checkAll` with the answer of each target.
unfoldable pub check_all : (Target → Probe) → Pool → Pool
unfolding check
check_all probe p = record p { targets = map (λ t. check (probe t) t) p.targets }
