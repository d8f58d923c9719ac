-- ===== src/Audit/Overwritten.antt =====
-- What a query misses once the store is full.
use mathlib.Core.List.{reverse, reverse-cons}
use waffynx.Audit.Window.{stamped_event}
use waffynx.Audit.Query.{query-eq-take}
use waffynx.Ring.{Ring, push, IsValid}
use waffynx.Audit.{
  Event, Store, append_line, record_event, QueryFilter, query_limit, skips, selects, query,
}
use waffynx.Common.{
  length, set, take, keep, length-append, length-set, pos, ℕ, zero, suc, ◌+◌, ◌%◌, ◌<◌, ◌≡◌, refl,
  sym, ap, ◌∙◌, some, List, [], ◌∷◌, ◌++◌, arith,
}

take_one-append : {A : Type 0} (xs ys : List A) → 0 < length xs → take 1 (xs ++ ys) ≡ take 1 xs
take_one-append [] ys h = elim h [ ]
take_one-append (x ∷ xs) ys h = refl

length-reverse : {A : Type 0} (xs : List A) → length (reverse xs) ≡ length xs
length-reverse [] = refl
length-reverse (x ∷ xs) =
    omega
      (arith, ap length (reverse-cons x xs), length-append (reverse xs) (x ∷ []), length-reverse xs)

-- A write before the last index leaves the last entry as it was.
take_one-reverse-set :
    {A : Type 0} (xs : List A) (p : ℕ) (x : A)
    → suc p < length xs
    → take 1 (reverse (set xs p x)) ≡ take 1 (reverse xs)
take_one-reverse-set [] p x h = elim h [ ]
take_one-reverse-set (y ∷ ys) zero x h =
    ap (take 1) (reverse-cons x ys)
    ∙ take_one-append (reverse ys) (x ∷ []) (omega (arith, length-reverse ys))
    ∙ sym (take_one-append (reverse ys) (y ∷ []) (omega (arith, length-reverse ys)))
    ∙ sym (ap (take 1) (reverse-cons y ys))
take_one-reverse-set (y ∷ ys) (suc p) x h =
    ap (take 1) (reverse-cons y (set ys p x))
    ∙ take_one-append (reverse (set ys p x)) (y ∷ [])
        (omega (arith, length-reverse (set ys p x), length-set ys p x))
    ∙ take_one-reverse-set ys p x (omega arith)
    ∙ sym (take_one-append (reverse ys) (y ∷ []) (omega (arith, length-reverse ys)))
    ∙ sym (ap (take 1) (reverse-cons y ys))

-- The query for one event with no filter.
abbrev pub one_event : QueryFilter
one_event = record { limit = pos 1; actor = []; action = []; result = [] }

keep-selects_all : (es : List Event) → keep (selects one_event) es ≡ es
unfolding selects skips
keep-selects_all [] = refl
keep-selects_all (e ∷ es) = ap (◌∷◌ e) (keep-selects_all es)

query-one_event : (s : Store) → query one_event s ≡ take 1 (reverse s.ring.items)
unfolding query_limit
query-one_event s =
    query-eq-take one_event s ∙ ap (take 1) (keep-selects_all (reverse s.ring.items))

-- Once the store is full, and the next write does not fall on its last index, the query for one
-- event returns what it returned before the write, whatever event was recorded.
pub query_misses_newest :
    (now : ℕ) (e : Event) (s : Store)
    → IsValid s.ring
    → length s.ring.items ≡ s.ring.max_size
    → s.ring.position + 1 < s.ring.max_size
    → (s' : Store) × (record_event now e s ≡ some s') × (query one_event s' ≡ query one_event s)
unfolding record_event push
query_misses_newest now e s v full h =
    let r : Ring Event = record s.ring {
      items = set s.ring.items s.ring.position (stamped_event (now, e));
      position = (s.ring.position + 1) % s.ring.max_size;
    } in
    let s' : Store = record { ring = r; file = append_line (stamped_event (now, e)) s.file } in
    (
      s',
      ground arith,
      query-one_event s'
          ∙ take_one-reverse-set s.ring.items s.ring.position (stamped_event (now, e)) (omega arith)
          ∙ sym (query-one_event s),
    )
