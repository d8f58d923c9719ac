-- ===== src/Agent.antt =====
-- cmd/waf-agent/main.go: the test of the API key, and the tracker of the host agent, which counts
-- the blocked events of an address in a time window. The clock is an argument, and a time is a natural
-- number of nanoseconds.
pub mod Within
pub mod Counted
pub mod Authorised
pub mod Stream
pub mod Serve
pub mod Banned
pub mod Prepared
pub mod Tests
use waffynx.Http.{HttpRequest, header_get}
use waffynx.Common.{
  ltb, leb, if◌then◌else◌, length, take, drop, keep, Text, txt, text_beq, is_empty, Map, lookup,
  insert, delete, ℤ, pos, negsuc, lt_int, int64, opposite, seconds, add_duration, ℕ, Bool, true,
  ◌&&◌, Option, none, some, List, [], ◌∷◌, ◌++◌,
}

pub record Tracker : Type 0 where
  pub counts : Map (List ℕ)
  pub threshold : ℤ
  pub window : ℤ

-- The window in nanoseconds, as time.Duration.
unfoldable pub new_tracker : ℤ → ℤ → Tracker
new_tracker threshold window_sec = record {
  counts = [];
  threshold = threshold;
  window = seconds window_sec;
}

-- ts.After(now.Add(-window)).
abbrev pub is_recent : ℕ → ℤ → ℕ → Bool
is_recent now window ts = lt_int (add_duration now (int64 (opposite window))) (pos ts)

-- n >= threshold.
unfoldable pub meets : ℤ → ℕ → Bool
meets (pos k) n = leb k n
meets (negsuc k) n = true

-- A missing key reads as the nil slice.
abbrev pub times_or_nil : Option (List ℕ) → List ℕ
times_or_nil none = []
times_or_nil (some times) = times

unfoldable pub record_ip : ℕ → Text → Tracker → Tracker × Bool
unfolding meets
record_ip now ip t =
    let valid : List ℕ =
      keep (is_recent now t.window) (times_or_nil (lookup ip t.counts)) ++ now ∷ [] in
    (record t { counts = insert ip valid t.counts }, meets t.threshold (length valid))

-- An entry of the map after the cleanup, in front of the entries that were visited.
unfoldable pub put_valid : Text → List ℕ → Map (List ℕ) → Map (List ℕ)
put_valid ip [] m = delete ip m
put_valid ip (ts ∷ valid) m = (ip, ts ∷ valid) ∷ m

unfoldable pub clean : ℕ → ℤ → Map (List ℕ) → Map (List ℕ)
unfolding put_valid
clean now window [] = []
clean now window ((ip, times) ∷ m) =
    put_valid ip (keep (is_recent now window) times) (clean now window m)

unfoldable pub cleanup : ℕ → Tracker → Tracker
unfolding clean
cleanup now t = record t { counts = clean now t.window t.counts }

-- The key that a request gives: its own header, or that of the authorization, of which a text longer
-- than `Bearer ` that begins with it is cut.
unfoldable pub after_bearer : Text → Text
after_bearer s = if ltb 7 (length s) && text_beq (take 7 s) (txt "Bearer ") then drop 7 s else s

unfoldable pub given_key : HttpRequest → Text
unfolding after_bearer
given_key r =
    let key = header_get (txt "X-API-Key") r in
    if is_empty key then after_bearer (header_get (txt "Authorization") r) else key

-- The test of `authMiddleware`: the handler is called only if it is true. `ConstantTimeCompare` is
-- an equality test.
unfoldable pub authorised : Text → HttpRequest → Bool
unfolding given_key
authorised api_key r = if is_empty api_key then true else text_beq (given_key r) api_key
