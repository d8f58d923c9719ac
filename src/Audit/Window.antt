-- ===== src/Audit/Window.antt =====
-- What the store holds after a sequence of calls.
use waffynx.Ring.Window.{last_n, push_all-window, new_ring-IsValid, push-Written}
use waffynx.Ring.{Ring, push, push_all, new_ring, chronological, IsValid}
use waffynx.Audit.{Event, Store, append_line, record_event, record_events, new_store}
use waffynx.Common.{
  if◌then◌else◌, Option-cases, ℕ, ◌<◌, ◌≡◌, refl, sym, ap, ◌∙◌, inl, inr, Bool, true, false, Option,
  none, some, List, [], ◌∷◌, ◌++◌, map, append-nil, append_assoc, arith,
}

-- The events as the store stamps them.
abbrev pub stamped_event : ℕ × Event → Event
stamped_event (now, e) = record e { timestamp = now }

-- The log file after more lines, if there is one.
append_lines : List Event → Option (List Event) → Option (List Event)
append_lines [] file = file
append_lines (e ∷ es) file = append_lines es (append_line e file)

append_lines-none : (es : List Event) → append_lines es none ≡ none
unfolding append_lines append_line
append_lines-none [] = refl
append_lines-none (e ∷ es) = append_lines-none es

append_lines-some : (es lines : List Event) → append_lines es (some lines) ≡ some (lines ++ es)
unfolding append_lines append_line
append_lines-some [] lines = ap some (sym (append-nil lines))
append_lines-some (e ∷ es) lines =
    append_lines-some es (lines ++ e ∷ []) ∙ ap some (append_assoc lines (e ∷ []) es)

record_events-eq-push_all :
    (es : List (ℕ × Event)) (s : Store) (r : Ring Event)
    → push_all (map stamped_event es) s.ring ≡ some r
    → record_events es s
      ≡ some (record { ring = r; file = append_lines (map stamped_event es) s.file })
unfolding record_events record_event push_all append_lines
record_events-eq-push_all [] s r e = ground arith
record_events-eq-push_all ((now, x) ∷ es) s r e =
    elim (Option-cases (push (stamped_event (now, x)) s.ring)) [
      | inl full ↦ absurd (cc (rw (full, push_all) at e))
      | inr (r1, pushed) ↦
          let s1 : Store = record {
            ring = r1;
            file = append_line (stamped_event (now, x)) s.file;
          } in
          rw (pushed, record_events, record_event)
            (record_events-eq-push_all es s1 r (rw (pushed, push_all) at e))
    ]

-- Recording events in a store that was made with room for `n` never panics. The store then holds
-- the last `n` of them, and the log file all of them, in the order of the calls.
pub record_events-window :
    (n : ℕ) (has_file : Bool) (es : List (ℕ × Event))
    → 0 < n
    → (s : Store) × (record_events es (new_store n has_file) ≡ some s)
      × IsValid s.ring
      × (s.ring.max_size ≡ n)
      × (chronological s.ring ≡ last_n n (map stamped_event es))
      × (s.file ≡ (if has_file then some (map stamped_event es) else none))
unfolding new_store
record_events-window n has_file es h =
    let (r, runs, valid, size, window) =
      push_all-window (map stamped_event es) (new_ring n) (new_ring-IsValid n h) in
    (
      record { ring = r; file = append_lines (map stamped_event es) (new_store n has_file).file },
      record_events-eq-push_all es (new_store n has_file) r runs,
      valid,
      size,
      window,
      file_of has_file,
    )
  where
    file_of :
        (b : Bool)
        → append_lines (map stamped_event es) (if b then some [] else none)
          ≡ (if b then some (map stamped_event es) else none)
    file_of true = append_lines-some (map stamped_event es) []
    file_of false = append_lines-none (map stamped_event es)

-- What one call does to a valid store.
pub record_event-window :
    (now : ℕ) (e : Event) (s : Store)
    → IsValid s.ring
    → (s' : Store) × (record_event now e s ≡ some s')
      × IsValid s'.ring
      × (s'.ring.max_size ≡ s.ring.max_size)
      × (chronological s'.ring
          ≡ last_n s.ring.max_size (chronological s.ring ++ stamped_event (now, e) ∷ []))
      × (s'.file ≡ append_line (stamped_event (now, e)) s.file)
unfolding record_event
record_event-window now e s v =
    let w = push-Written (stamped_event (now, e)) s.ring v in
    (
      record { ring = w.after; file = append_line (stamped_event (now, e)) s.file },
      rw (w.pushed, record_event),
      w.valid,
      w.same_size,
      w.window,
      refl,
    )
