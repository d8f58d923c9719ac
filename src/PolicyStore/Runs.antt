-- ===== src/PolicyStore/Runs.antt =====
-- The store over any operations.
use waffynx.PolicyStore.{Policy, Store, new_store, with_id, add, remove, get, list}
use waffynx.PolicyStore.Ordered.{
  find_id, without_id, Holds, new_store-Holds, list-Holds, add-Holds, remove-Holds,
}
use waffynx.Common.{
  if◌then◌else◌, Bool-cases, Text, text_beq, is_empty, ◌≡◌, refl, ap, inl, inr, Option, none, some,
  List, [], ◌∷◌, ◌++◌,
}

-- A call that changes the store, where `Add` is given the identifier it makes for a policy with none.
pub data Op : Type 0 where
  adds : Text → Policy → Op
  removes : Text → Op

-- A call that fails leaves the store as it is.
abbrev pub kept : Store → Option Store → Store
kept s none = s
kept s (some s') = s'

unfoldable pub run : List Op → Store → Store
unfolding add remove
run [] s = s
run (adds fresh p ∷ ops) s = run ops (kept s (add fresh p s))
run (removes id ∷ ops) s = run ops (kept s (remove id s))

-- The list behind the others, unless its identifier is taken.
unfoldable pub append_new : Policy → List Policy → List Policy
append_new p ps = elim (find_id p.id ps) [ none ↦ ps ++ p ∷ [] | some q ↦ ps ]

unfoldable pub policies_after : List Op → List Policy → List Policy
unfolding append_new
policies_after [] ps = ps
policies_after (adds fresh p ∷ ops) ps =
    policies_after ops (append_new (if is_empty p.id then record p { id = fresh } else p) ps)
policies_after (removes id ∷ ops) ps = policies_after ops (without_id id ps)

without_id-absent : (id : Text) (ps : List Policy) → find_id id ps ≡ none → without_id id ps ≡ ps
unfolding find_id without_id
without_id-absent id [] h = refl
without_id-absent id (p ∷ ps) h = elim (Bool-cases (text_beq p.id id)) [
  | inl same ↦ let bad : some p ≡ none = rw (same, find_id) at h in cc bad
  | inr other ↦
      let rest : find_id id ps ≡ none = rw (other, find_id) at h in
      rw other (ap (◌∷◌ p) (without_id-absent id ps rest))
]

with_id_lem :
    (fresh : Text) (p : Policy)
    → with_id fresh p ≡ (if is_empty p.id then record p { id = fresh } else p)
unfolding with_id
with_id_lem fresh p = refl

Holds-after_add :
    (fresh : Text) (p : Policy) (s : Store) (ps : List Policy)
    → Holds s ps
    → Holds (kept s (add fresh p s)) (append_new (with_id fresh p) ps)
unfolding append_new
Holds-after_add fresh p s ps h = elim (add-Holds fresh p s ps h) [
  | inl (free, (s', added, holds)) ↦ rw (free, added, append_new) holds
  | inr ((q, taken), failed) ↦ rw (taken, failed, append_new) h
]

Holds-after_remove :
    (id : Text) (s : Store) (ps : List Policy)
    → Holds s ps
    → Holds (kept s (remove id s)) (without_id id ps)
Holds-after_remove id s ps h = elim (remove-Holds id s ps h) [
  | inl (found, (s', removed, holds)) ↦ rw removed holds
  | inr (absent, failed) ↦ rw (failed, without_id-absent id ps absent) h
]

run-Holds :
    (ops : List Op) (s : Store) (ps : List Policy)
    → Holds s ps
    → Holds (run ops s) (policies_after ops ps)
unfolding run policies_after
run-Holds [] s ps h = h
run-Holds (adds fresh p ∷ ops) s ps h =
    run-Holds ops (kept s (add fresh p s)) (append_new (with_id fresh p) ps)
      (Holds-after_add fresh p s ps h)
run-Holds (removes id ∷ ops) s ps h =
    run-Holds ops (kept s (remove id s)) (without_id id ps) (Holds-after_remove id s ps h)

-- After any calls of `Add` and `Remove` on a new store, `List` gives the policies that were added and
-- not removed, in the order of their calls, `Get` gives the one with an identifier, if there is one,
-- and no two have the same. A policy with no identifier gets the one that `Add` makes, and one whose
-- identifier is taken is not added; a removal of an identifier that is not there changes nothing.
pub run_lem :
    (ops : List Op)
    → let ps = policies_after ops [] in
      (list (run ops new_store) ≡ ps)
      × ((id : Text) → get id (run ops new_store) ≡ find_id id ps)
      × Holds (run ops new_store) ps
unfolding get
run_lem ops =
    let holds = run-Holds ops new_store [] new_store-Holds in
    (list-Holds (run ops new_store) (policies_after ops []) holds, holds.stored, holds)
