-- ===== src/Audit/Query.antt =====
-- What the store's queries and counts return.
use mathlib.Core.List.{reverse}
use waffynx.Ring.Window.{items_of_window}
use waffynx.Audit.Window.{stamped_event, record_events-window}
use waffynx.Ring.{IsValid}
use waffynx.Audit.{
  Event, Store, record_events, QueryFilter, query_limit, skips, selects, query_loop, query,
  new_store, count_results, stats,
}
use waffynx.Common.{
  length, take, keep, length-take, Text, text_beq_iff, ℤ, pos, negsuc, ℕ, zero, suc, ◌+◌, ◌≤◌, ◌<◌,
  ◌≡◌, refl, ap, ◌∙◌, ◌↔◌, ◌⊎◌, inl, Bool, true, false, some, List, [], ◌∷◌, map, arith,
}

-- An event passes a filter if it agrees with each field that the filter gives.
abbrev pub Agrees : Text → Text → Type 0
Agrees wanted found = (wanted ≡ []) ⊎ (found ≡ wanted)

skips_iff : (wanted found : Text) → (skips wanted found ≡ false) ↔ Agrees wanted found
unfolding skips
skips_iff [] found = ((λ _. inl refl), λ _. refl)
skips_iff (c ∷ wanted) found = ground (arith, text_beq_iff found (c ∷ wanted))

pub selects_iff :
    (f : QueryFilter) (e : Event)
    → (selects f e ≡ true)
      ↔ (Agrees f.actor e.actor × Agrees f.action e.action × Agrees f.result e.result)
unfolding selects
selects_iff f e =
    ground
      (arith, skips_iff f.actor e.actor, skips_iff f.action e.action, skips_iff f.result e.result)

query_loop-eq-take :
    (f : QueryFilter) (room : ℕ) (es : List Event)
    → query_loop f room es ≡ take room (keep (selects f) es)
unfolding query_loop
query_loop-eq-take f zero [] = refl
query_loop-eq-take f (suc room) [] = refl
query_loop-eq-take f zero (e ∷ es) = refl
query_loop-eq-take f (suc room) (e ∷ es) =
    ground (arith, query_loop-eq-take f room es, query_loop-eq-take f (suc room) es)

query_limit-le : (limit : ℤ) → query_limit limit ≤ 1000
unfolding query_limit
query_limit-le (pos n) = ground arith
query_limit-le (negsuc n) = omega arith

pub query-eq-take :
    (f : QueryFilter) (s : Store)
    → query f s ≡ take (query_limit f.limit) (keep (selects f) (reverse s.ring.items))
unfolding query
query-eq-take f s = query_loop-eq-take f (query_limit f.limit) (reverse s.ring.items)

pub length-query-le : (f : QueryFilter) (s : Store) → length (query f s) ≤ 1000
length-query-le f s = rw (query-eq-take f s) (
    omega (
      arith,
      length-take (query_limit f.limit) (keep (selects f) (reverse s.ring.items)),
      query_limit-le f.limit,
    ))

-- While the store has not been filled, a query returns the newest events that pass the filter,
-- the newest first, as many as the limit allows.
pub query_newest_first :
    (n : ℕ) (has_file : Bool) (es : List (ℕ × Event)) (f : QueryFilter)
    → length (map stamped_event es) < n
    → (s : Store) × (record_events es (new_store n has_file) ≡ some s)
      × (query f s ≡ take (query_limit f.limit) (keep (selects f) (reverse (map stamped_event es))))
query_newest_first n has_file es f h =
    let (s, runs, valid, size, window, file) = record_events-window n has_file es (omega arith) in
    let items = items_of_window s.ring n (map stamped_event es) valid size window h in
    (
      s,
      runs,
      query-eq-take f s
          ∙ ap (λ (ys : List Event). take (query_limit f.limit) (keep (selects f) (reverse ys)))
              items,
    )

count_results_total :
    (es : List Event) (a b : ℕ)
    → (count_results es a b).0 + (count_results es a b).1 ≡ a + b + length es
unfolding count_results
count_results_total [] a b = omega arith
count_results_total (e ∷ es) a b =
    ground (arith, count_results_total es (a + 1) b, count_results_total es a (b + 1))

-- The counts of allowed and blocked events add up to the total, which the size bounds.
pub stats_total :
    (s : Store)
    → IsValid s.ring
    → ((stats s).allowed + (stats s).blocked ≡ (stats s).total)
      × ((stats s).total ≤ s.ring.max_size)
unfolding stats
stats_total s v = (omega (arith, count_results_total s.ring.items 0 0), v.bounded)
