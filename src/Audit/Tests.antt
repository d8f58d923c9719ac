-- ===== src/Audit/Tests.antt =====
-- Runs of the audit store on concrete events.
use waffynx.Audit.{
  Event, Store, new_store, record_event, record_events, QueryFilter, query_limit, selects, query,
}
use waffynx.Audit.Window.{stamped_event, record_events-window}
use waffynx.Audit.Query.{query_newest_first}
use waffynx.Audit.Overwritten.{one_event, query_misses_newest}
use waffynx.Ring.{IsValid, chronological}
use waffynx.Ring.Window.{last_n}
use waffynx.Common.{
  if◌then◌else◌, take, keep, Text, txt, pos, ℕ, ◌≡◌, refl, true, none, some, List, [], ◌∷◌, map,
  arith,
}
use mathlib.Core.List.{reverse}

abbrev event : Text → Event
event action = record {
  timestamp = 0;
  actor = txt "nginx";
  actor_ip = [];
  action = action;
  resource = [];
  result = txt "blocked";
  details = [];
  request_id = [];
}

abbrev three_events : List (ℕ × Event)
three_events = (1, event (txt "a")) ∷ (2, event (txt "b")) ∷ (3, event (txt "c")) ∷ []

-- A store for two events that holds `b` and `c`; the next event takes the place of `b`.
abbrev full_store : Store
full_store = record {
  ring = record {
    items = stamped_event (2, event (txt "b")) ∷ stamped_event (3, event (txt "c")) ∷ [];
    max_size = 2;
    position = 0;
  };
  file = none;
}

abbrev filter : QueryFilter
filter = record { limit = pos 2; actor = txt "nginx"; action = []; result = [] }

full_store-IsValid : IsValid full_store.ring
full_store-IsValid = record {
  nonempty = omega arith;
  bounded = omega arith;
  in_range = omega arith;
  unwrapped = λ _. refl;
}

record_events-window_example :
    (s : Store) × (record_events three_events (new_store 2 true) ≡ some s)
    × IsValid s.ring
    × (s.ring.max_size ≡ 2)
    × (chronological s.ring ≡ last_n 2 (map stamped_event three_events))
    × (s.file ≡ (if true then some (map stamped_event three_events) else none))
record_events-window_example = record_events-window 2 true three_events (omega arith)

query_newest_first_example :
    (s : Store) × (record_events three_events (new_store 9 true) ≡ some s)
    × (query filter s
        ≡ take
            (query_limit filter.limit)
            (keep (selects filter) (reverse (map stamped_event three_events))))
query_newest_first_example = query_newest_first 9 true three_events filter (omega arith)

query_misses_newest_example :
    (s' : Store) × (record_event 4 (event (txt "d")) full_store ≡ some s')
    × (query one_event s' ≡ query one_event full_store)
query_misses_newest_example =
    query_misses_newest 4 (event (txt "d")) full_store full_store-IsValid refl (omega arith)
