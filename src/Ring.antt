-- ===== src/Ring.antt =====
-- The bounded buffer that internal/audit/store.go (`Store.Record`) and internal/learning/engine.go
-- (`Engine.Record`) both write out: append while there is room, then overwrite at a position that
-- goes round.
pub mod Window
pub mod Tests
use waffynx.Common.{
  ltb, if◌then◌else◌, length, set, take, drop, ℕ, ◌+◌, ◌%◌, ◌≤◌, ◌<◌, ◌≡◌, Option, none, some, List,
  [], ◌∷◌, ◌++◌,
}

pub record Ring {ℓ} (A : Type ℓ) : Type ℓ where
  pub items : List A
  pub max_size : ℕ
  pub position : ℕ

module _ {ℓ} {A : Type ℓ} where
  unfoldable pub new_ring : ℕ → Ring A
  new_ring n = record { items = []; max_size = n; position = 0 }

  -- `none` is Go's panic at an index out of range.
  unfoldable pub push : A → Ring A → Option (Ring A)
  push x r =
      if ltb (length r.items) r.max_size
      then some (record r { items = r.items ++ x ∷ [] })
      else if ltb r.position (length r.items)
      then some
          (record r { items = set r.items r.position x; position = (r.position + 1) % r.max_size })
      else none

  -- A sequence of writes, oldest first; a panic ends it.
  unfoldable pub push_all : List A → Ring A → Option (Ring A)
  push_all [] r = some r
  push_all (x ∷ xs) r = elim (push x r) [ none ↦ none | some r' ↦ push_all xs r' ]

  -- The entries from the oldest to the newest.
  abbrev pub chronological : Ring A → List A
  chronological r = drop r.position r.items ++ take r.position r.items

  pub record IsValid (r : Ring A) : Type ℓ where
    pub nonempty : 0 < r.max_size
    pub bounded : length r.items ≤ r.max_size
    pub in_range : r.position < r.max_size
    pub unwrapped : length r.items < r.max_size → r.position ≡ 0
