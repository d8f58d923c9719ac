-- ===== src/Learning/Window.antt =====
-- What the learning engine keeps.
use waffynx.Learning.{Record, Engine, new_engine, add_record, count_verdicts, stats}
use waffynx.Ring.{chronological, IsValid}
use waffynx.Ring.Window.{last_n, push-Written, new_ring-IsValid}
use waffynx.Common.{
  if◌then◌else◌, Bool-cases, length, ℤ, pos, negsuc, ℕ, zero, suc, ◌+◌, ◌≤◌, ◌≡◌, refl, inl, inr,
  some, List, [], ◌∷◌, ◌++◌, arith,
}

pub new_engine-IsValid : (n : ℤ) → IsValid (new_engine n).ring
unfolding new_engine
new_engine-IsValid (pos zero) = new_ring-IsValid 1000 (omega arith)
new_engine-IsValid (pos (suc n)) = new_ring-IsValid (suc n) (omega arith)
new_engine-IsValid (negsuc n) = new_ring-IsValid 1000 (omega arith)

abbrev pub stamped_record : ℕ → Record → Record
stamped_record now r = record r { timestamp = now }

-- Recording in a valid engine never panics and keeps it valid. An engine that is off keeps its
-- records; one that is on holds the last of the old records and the new one, as many as it has
-- room for.
pub add_record-window :
    (now : ℕ) (r : Record) (e : Engine)
    → IsValid e.ring
    → (e' : Engine) × (add_record now r e ≡ some e')
      × IsValid e'.ring
      × (e'.enabled ≡ e.enabled)
      × (e'.ring.max_size ≡ e.ring.max_size)
      × (chronological e'.ring ≡ (
          if e.enabled
          then last_n e.ring.max_size (chronological e.ring ++ stamped_record now r ∷ [])
          else chronological e.ring))
unfolding add_record
add_record-window now r e v = elim (Bool-cases e.enabled) [
  | inl on ↦
      let w = push-Written (stamped_record now r) e.ring v in
      (
        record e { ring = w.after },
        ground (arith, w.pushed),
        w.valid,
        refl,
        w.same_size,
        rw on w.window,
      )
  | inr off ↦ (e, rw off, v, refl, refl, rw off)
]

count_verdicts_total :
    (rs : List Record) (a b : ℕ)
    → (count_verdicts rs a b).0 + (count_verdicts rs a b).1 ≡ a + b + length rs
unfolding count_verdicts
count_verdicts_total [] a b = omega arith
count_verdicts_total (r ∷ rs) a b =
    ground (arith, count_verdicts_total rs (a + 1) b, count_verdicts_total rs a (b + 1))

-- The counts of allowed and blocked records add up to the total, which the size bounds.
pub verdict_counts_total :
    (e : Engine)
    → IsValid e.ring
    → ((stats e).allowed + (stats e).blocked ≡ (stats e).total) × ((stats e).total ≤ (stats e).max)
unfolding stats
verdict_counts_total e v = (omega (arith, count_verdicts_total e.ring.items 0 0), v.bounded)
