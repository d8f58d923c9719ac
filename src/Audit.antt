-- ===== src/Audit.antt =====
-- internal/audit/store.go: the audit store. The clock is an argument. `Store.file` holds the lines
-- that were written to the log file, each as the event whose JSON the line is; opening and closing
-- the file are left out, and so are errors of its writes, which the code ignores.
pub mod Window
pub mod Query
pub mod Overwritten
pub mod Tests
use waffynx.Common.{
  ltb, eqb, if◌then◌else◌, length, ℤ, pos, negsuc, Text, txt, text_beq, is_empty, ℕ, zero, suc, ◌+◌,
  Bool, true, false, not, ◌&&◌, ◌||◌, Option, none, some, List, [], ◌∷◌, ◌++◌,
}
use mathlib.Core.List.{reverse}
use waffynx.Ring.{Ring, new_ring, push}

pub record Event : Type 0 where
  pub timestamp : ℕ
  pub actor : Text
  pub actor_ip : Text
  pub action : Text
  pub resource : Text
  pub result : Text
  pub details : Text
  pub request_id : Text

-- `ring` is the Go fields `events`, `maxSize` and `pos`.
pub record Store : Type 0 where
  pub ring : Ring Event
  pub file : Option (List Event)

unfoldable pub new_store : ℕ → Bool → Store
unfolding new_ring
new_store max_size has_file = record {
  ring = new_ring max_size;
  file = if has_file then some [] else none;
}

pub append_line : Event → Option (List Event) → Option (List Event)
append_line e none = none
append_line e (some lines) = some (lines ++ e ∷ [])

-- `none` is a panic, which only a store of size 0 can meet.
unfoldable pub record_event : ℕ → Event → Store → Option Store
unfolding append_line
record_event now e s =
    let stamped : Event = record e { timestamp = now } in
    elim (push stamped s.ring) [
      | none ↦ none
      | some r ↦ some (record { ring = r; file = append_line stamped s.file })
    ]

pub record_events : List (ℕ × Event) → Store → Option Store
record_events [] s = some s
record_events ((now, e) ∷ es) s = elim (record_event now e s) [
  | none ↦ none
  | some s' ↦ record_events es s'
]

pub record QueryFilter : Type 0 where
  pub limit : ℤ
  pub actor : Text
  pub action : Text
  pub result : Text

pub query_limit : ℤ → ℕ
query_limit (pos n) = if eqb n 0 || ltb 1000 n then 100 else n
query_limit (negsuc n) = 100

-- The three `continue` tests of the loop.
pub skips : Text → Text → Bool
skips wanted found = not (is_empty wanted) && not (text_beq found wanted)

pub selects : QueryFilter → Event → Bool
unfolding skips
selects f e =
    if skips f.actor e.actor
    then false
    else if skips f.action e.action
    then false
    else if skips f.result e.result
    then false
    else true

-- The loop of `Query` over the events from the last index down, with the room that is left.
pub query_loop : QueryFilter → ℕ → List Event → List Event
query_loop f room [] = []
query_loop f zero (e ∷ es) = []
query_loop f (suc room) (e ∷ es) =
    let taken = query_loop f room es in
    let skipped = query_loop f (suc room) es in if selects f e then e ∷ taken else skipped

pub query : QueryFilter → Store → List Event
unfolding query_limit selects query_loop
query f s = query_loop f (query_limit f.limit) (reverse s.ring.items)

pub record Stats : Type 0 where
  pub total : ℕ
  pub allowed : ℕ
  pub blocked : ℕ

pub count_results : List Event → ℕ → ℕ → ℕ × ℕ
count_results [] allowed blocked = (allowed, blocked)
count_results (e ∷ es) allowed blocked =
    let is_allowed = text_beq e.result (txt "allowed") in
    count_results es (if is_allowed then allowed + 1 else allowed)
      (if is_allowed then blocked else blocked + 1)

pub stats : Store → Stats
unfolding count_results
stats s =
    let counts = count_results s.ring.items 0 0 in
    record { total = length s.ring.items; allowed = counts.0; blocked = counts.1 }
