-- ===== src/Plugin/Order.antt =====
-- The order in which a chain runs its plugins.
use waffynx.Plugin.{Phase, Plugin, insert_by_priority, sort_by_priority}
use waffynx.Common.{
  if◌then◌else◌, Bool-cases, keep, All, ℤ, lt_int, text_beq, ◌≡◌, refl, sym, ap, ◌∙◌, inl, inr,
  Bool, false, not, ◌&&◌, List, [], ◌∷◌, ◌++◌, arith,
}

module _ {World : Type 0} where
  -- No plugin has a lower priority than the one before it.
  abbrev pub IsSorted : List (Plugin World) → Type 0
  IsSorted [] = Unit {0}
  IsSorted (p ∷ ps) = All (λ q. lt_int q.priority p.priority ≡ false) ps × IsSorted ps

  abbrev pub has_priority : ℤ → Plugin World → Bool
  has_priority k p = not (lt_int p.priority k) && not (lt_int k p.priority)

  abbrev pub in_phase : Phase → Plugin World → Bool
  in_phase phase p = text_beq p.phase phase

  insert-All :
      (P : Plugin World → Type 0) (p : Plugin World) (ps : List (Plugin World))
      → P p
      → All P ps
      → All P (insert_by_priority p ps)
  unfolding insert_by_priority
  insert-All P p [] h hs = (h, tt)
  insert-All P p (q ∷ qs) h (hq, hs) = ground (arith, insert-All P p qs h hs)

  le-All :
      (p q : Plugin World) (ps : List (Plugin World))
      → lt_int q.priority p.priority ≡ false
      → All (λ r. lt_int r.priority q.priority ≡ false) ps
      → All (λ r. lt_int r.priority p.priority ≡ false) ps
  le-All p q [] h hs = tt
  le-All p q (r ∷ ps) h (hr, hs) = (ground arith, le-All p q ps h hs)

  insert-IsSorted :
      (p : Plugin World) (ps : List (Plugin World))
      → IsSorted ps
      → IsSorted (insert_by_priority p ps)
  unfolding insert_by_priority
  insert-IsSorted p [] s = (tt, tt)
  insert-IsSorted p (q ∷ qs) (below, s) = elim (Bool-cases (lt_int q.priority p.priority)) [
    | inl lt ↦ rw lt (
      insert-All (λ r. lt_int r.priority q.priority ≡ false) p qs (ground arith) below,
      insert-IsSorted p qs s,
    )
    | inr ge ↦ rw ge ((ge, le-All p q qs ge below), (below, s))
  ]

  sort-IsSorted : (ps : List (Plugin World)) → IsSorted (sort_by_priority ps)
  unfolding sort_by_priority
  sort-IsSorted [] = tt
  sort-IsSorted (p ∷ ps) = insert-IsSorted p (sort_by_priority ps) (sort-IsSorted ps)

  keep-insert :
      (k : ℤ) (p : Plugin World) (ps : List (Plugin World))
      → keep (has_priority k) (insert_by_priority p ps) ≡ keep (has_priority k) (p ∷ ps)
  unfolding insert_by_priority
  keep-insert k p [] = refl
  keep-insert k p (q ∷ qs) = ground (arith, keep-insert k p qs)

  -- Plugins of one priority keep their order, and none is lost or added.
  keep-sort :
      (k : ℤ) (ps : List (Plugin World))
      → keep (has_priority k) (sort_by_priority ps) ≡ keep (has_priority k) ps
  unfolding sort_by_priority
  keep-sort k [] = refl
  keep-sort k (p ∷ ps) =
      keep-insert k p (sort_by_priority ps)
      ∙ ap (λ ys. if has_priority k p then p ∷ ys else ys) (keep-sort k ps)

  -- Insertion behind the plugins of the same priority.
  insert_last : Plugin World → List (Plugin World) → List (Plugin World)
  insert_last p [] = p ∷ []
  insert_last p (q ∷ qs) = if lt_int p.priority q.priority then p ∷ q ∷ qs else q ∷ insert_last p qs

  insert-insert_last :
      (a x : Plugin World) (ps : List (Plugin World))
      → insert_by_priority a (insert_last x ps) ≡ insert_last x (insert_by_priority a ps)
  unfolding insert_by_priority insert_last
  insert-insert_last a x [] = ground arith
  insert-insert_last a x (q ∷ qs) = ground (arith, insert-insert_last a x qs)

  sort-append :
      (x : Plugin World) (ps : List (Plugin World))
      → sort_by_priority (ps ++ x ∷ []) ≡ insert_last x (sort_by_priority ps)
  unfolding sort_by_priority insert_by_priority insert_last
  sort-append x [] = refl
  sort-append x (p ∷ ps) =
      ap (insert_by_priority p) (sort-append x ps) ∙ insert-insert_last p x (sort_by_priority ps)

  insert_of_IsSorted :
      (p : Plugin World) (ps : List (Plugin World))
      → IsSorted (p ∷ ps)
      → insert_by_priority p ps ≡ p ∷ ps
  unfolding insert_by_priority
  insert_of_IsSorted p [] s = refl
  insert_of_IsSorted p (q ∷ qs) s = rw s.0.0

  sort_of_IsSorted : (ps : List (Plugin World)) → IsSorted ps → sort_by_priority ps ≡ ps
  unfolding sort_by_priority
  sort_of_IsSorted [] s = refl
  sort_of_IsSorted (p ∷ ps) s =
      ap (insert_by_priority p) (sort_of_IsSorted ps s.1) ∙ insert_of_IsSorted p ps s

  -- Sorting the sorted group again after one more plugin is sorting the whole group once.
  pub sort-sort_append :
      (x : Plugin World) (ps : List (Plugin World))
      → sort_by_priority (sort_by_priority ps ++ x ∷ []) ≡ sort_by_priority (ps ++ x ∷ [])
  sort-sort_append x ps =
      sort-append x (sort_by_priority ps)
      ∙ ap (insert_last x) (sort_of_IsSorted (sort_by_priority ps) (sort-IsSorted ps))
      ∙ sym (sort-append x ps)

  -- Sorting puts the plugins in the order of rising priorities; those of one priority keep their
  -- order, and none is lost or added.
  pub sort_by_priority_stable :
      (ps : List (Plugin World))
      → IsSorted (sort_by_priority ps)
        × ((k : ℤ) → keep (has_priority k) (sort_by_priority ps) ≡ keep (has_priority k) ps)
  sort_by_priority_stable ps = (sort-IsSorted ps, λ k. keep-sort k ps)
