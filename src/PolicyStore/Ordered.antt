-- ===== src/PolicyStore/Ordered.antt =====
-- The policy store against a plain list of policies.
use waffynx.PolicyStore.{
  Policy, Store, new_store, with_id, add, remove_first, remove, found_in, list,
}
use waffynx.Common.{
  if◌then◌else◌, Bool-cases, Option-cases, All, lookup, insert, delete, lookup-insert,
  lookup-delete, Map, Text, text_beq, text_beq_iff, ◌≡◌, refl, sym, ap, ◌∙◌, ◌⊎◌, inl, inr, true,
  false, Option, none, some, List, [], ◌∷◌, ◌++◌, map, arith,
}

unfoldable pub find_id : Text → List Policy → Option Policy
find_id id [] = none
find_id id (p ∷ ps) = if text_beq p.id id then some p else find_id id ps

unfoldable pub without_id : Text → List Policy → List Policy
without_id id [] = []
without_id id (p ∷ ps) = if text_beq p.id id then ps else p ∷ without_id id ps

abbrev pub HasDistinct : List Policy → Type 0
HasDistinct [] = Unit {0}
HasDistinct (p ∷ ps) = (find_id p.id ps ≡ none) × HasDistinct ps

-- A store holds the policies of a list, in its order.
pub record Holds (s : Store) (ps : List Policy) : Type 0 where
  pub order : s.order ≡ map (λ (p : Policy). p.id) ps
  pub stored : (id : Text) → lookup id s.policies ≡ find_id id ps
  pub distinct : HasDistinct ps

find_id-append :
    (j : Text) (ps : List Policy) (p : Policy)
    → find_id p.id ps ≡ none
    → find_id j (ps ++ p ∷ []) ≡ (if text_beq p.id j then some p else find_id j ps)
unfolding find_id
find_id-append j [] p h = refl
find_id-append j (q ∷ ps) p h =
    ground (
      arith,
      text_beq_iff q.id j,
      text_beq_iff p.id j,
      text_beq_iff q.id p.id,
      find_id-append j ps p,
    )

append-HasDistinct :
    (ps : List Policy) (p : Policy)
    → find_id p.id ps ≡ none
    → HasDistinct ps
    → HasDistinct (ps ++ p ∷ [])
unfolding find_id
append-HasDistinct [] p h d = (refl, tt)
append-HasDistinct (q ∷ ps) p h d =
    let fresh_for : find_id p.id ps ≡ none = ground (arith, text_beq_iff q.id p.id) in
    let other : text_beq p.id q.id ≡ false =
      ground (arith, text_beq_iff q.id p.id, text_beq_iff p.id q.id) in
    (find_id-append q.id ps p fresh_for ∙ rw other d.0, append-HasDistinct ps p fresh_for d.1)

map-append :
    (ps : List Policy) (p : Policy)
    → map (λ (p : Policy). p.id) ps ++ p.id ∷ [] ≡ map (λ (p : Policy). p.id) (ps ++ p ∷ [])
map-append [] p = refl
map-append (q ∷ ps) p = ap (◌∷◌ q.id) (map-append ps p)

find_id-without_id :
    (j id : Text) (ps : List Policy)
    → HasDistinct ps
    → find_id j (without_id id ps) ≡ (if text_beq id j then none else find_id j ps)
unfolding find_id without_id
find_id-without_id j id [] d = ground arith
find_id-without_id j id (p ∷ ps) d = elim (Bool-cases (text_beq p.id id)) [
  | inl same ↦
      let e : p.id ≡ id = (text_beq_iff p.id id).0 same in
      let gone : find_id id ps ≡ none = ap (λ k. find_id k ps) (sym e) ∙ d.0 in
      rw (same, without_id)
        (elim (Bool-cases (text_beq id j)) [
          | inl here ↦ rw here (ap (λ k. find_id k ps) (sym ((text_beq_iff id j).0 here)) ∙ gone)
          | inr there ↦
              let not_p : text_beq p.id j ≡ false = ap (λ k. text_beq k j) e ∙ there in
              rw (there, not_p) refl
        ])
  | inr other ↦
      rw (other, without_id)
        (ground (
          arith,
          find_id-without_id j id ps d.1,
          text_beq_iff p.id j,
          text_beq_iff id j,
          text_beq_iff p.id id,
        ))
]

without_id-HasDistinct :
    (id : Text) (ps : List Policy) → HasDistinct ps → HasDistinct (without_id id ps)
unfolding without_id
without_id-HasDistinct id [] d = tt
without_id-HasDistinct id (p ∷ ps) d = elim (Bool-cases (text_beq p.id id)) [
  | inl same ↦ rw (same, without_id) d.1
  | inr other ↦
      rw (other, without_id)
        (find_id-without_id p.id id ps d.1 ∙ ground (arith, d.0), without_id-HasDistinct id ps d.1)
]

map-without_id :
    (id : Text) (ps : List Policy)
    → remove_first id (map (λ (p : Policy). p.id) ps)
      ≡ map (λ (p : Policy). p.id) (without_id id ps)
unfolding remove_first without_id
map-without_id id [] = refl
map-without_id id (p ∷ ps) = ground (arith, map-without_id id ps)

All-map :
    {P Q : Policy → Type 0} (ps : List Policy) → ((p : Policy) → P p → Q p) → All P ps → All Q ps
All-map [] f h = tt
All-map (p ∷ ps) f h = (f p h.0, All-map ps f h.1)

find_id_self : (ps : List Policy) → HasDistinct ps → All (λ p. find_id p.id ps ≡ some p) ps
unfolding find_id
find_id_self [] d = tt
find_id_self (p ∷ ps) d =
    let same : text_beq p.id p.id ≡ true = (text_beq_iff p.id p.id).1 refl in
    (
      rw same refl,
      All-map ps
          (λ q e. elim (Bool-cases (text_beq p.id q.id)) [
            | inl here ↦
                let none_here : find_id q.id ps ≡ none =
                  ap (λ k. find_id k ps) (sym ((text_beq_iff p.id q.id).0 here)) ∙ d.0 in
                absurd (cc (none_here, e))
            | inr there ↦ rw there e
          ])
          (find_id_self ps d.1),
    )

found_in-All :
    (m : Map Policy) (ps : List Policy)
    → All (λ p. lookup p.id m ≡ some p) ps
    → found_in m (map (λ (p : Policy). p.id) ps) ≡ ps
unfolding found_in
found_in-All m [] h = refl
found_in-All m (p ∷ ps) h = rw (h.0, found_in) (ap (◌∷◌ p) (found_in-All m ps h.1))

pub new_store-Holds : Holds new_store []
unfolding lookup find_id
new_store-Holds = record { order = refl; stored = λ id. refl; distinct = tt }

-- `List` gives the policies that the store holds, in the order in which they were added.
pub list-Holds : (s : Store) (ps : List Policy) → Holds s ps → list s ≡ ps
unfolding list
list-Holds s ps h = rw h.order (
    found_in-All s.policies ps
      (All-map ps (λ (q : Policy) e. h.stored q.id ∙ e) (find_id_self ps h.distinct)))

-- `Add` puts a policy behind the others, under its id or the fresh one, unless a policy with that
-- id is there; then it fails.
pub add-Holds :
    (fresh : Text) (p : Policy) (s : Store) (ps : List Policy)
    → Holds s ps
    → let p' = with_id fresh p in
      ((find_id p'.id ps ≡ none)
        × ((s' : Store) × (add fresh p s ≡ some s') × Holds s' (ps ++ p' ∷ [])))
      ⊎ (((q : Policy) × (find_id p'.id ps ≡ some q)) × (add fresh p s ≡ none))
unfolding add
add-Holds fresh p s ps h =
    let p' = with_id fresh p in
    elim (Option-cases (find_id p'.id ps)) [
      | inl e ↦
          let free : lookup p'.id s.policies ≡ none = h.stored p'.id ∙ e in
          let s' : Store = record {
            policies = insert p'.id p' s.policies;
            order = s.order ++ p'.id ∷ [];
          } in
          inl (
            e,
            (
              s',
              rw (free, add) refl,
              record {
                order = ap (λ (ids : List Text). ids ++ p'.id ∷ []) h.order ∙ map-append ps p';
                stored = λ j.
                    lookup-insert p'.id j p' s.policies
                    ∙ ap (λ (o : Option Policy). if text_beq p'.id j then some p' else o)
                        (h.stored j)
                    ∙ sym (find_id-append j ps p' e);
                distinct = append-HasDistinct ps p' e h.distinct;
              },
            ),
          )
      | inr (q, e) ↦
          let taken : lookup p'.id s.policies ≡ some q = h.stored p'.id ∙ e in
          inr ((q, e), rw (taken, add) refl)
    ]

-- `Remove` takes out the policy with the id and keeps the order of the others; it fails if there is
-- none.
pub remove-Holds :
    (id : Text) (s : Store) (ps : List Policy)
    → Holds s ps
    → (((q : Policy) × (find_id id ps ≡ some q))
        × ((s' : Store) × (remove id s ≡ some s') × Holds s' (without_id id ps)))
      ⊎ ((find_id id ps ≡ none) × (remove id s ≡ none))
unfolding remove
remove-Holds id s ps h = elim (Option-cases (find_id id ps)) [
  | inl e ↦
      let absent : lookup id s.policies ≡ none = h.stored id ∙ e in
      inr (e, rw (absent, remove) refl)
  | inr (q, e) ↦
      let present : lookup id s.policies ≡ some q = h.stored id ∙ e in
      let s' : Store = record {
        policies = delete id s.policies;
        order = remove_first id s.order;
      } in
      inl (
        (q, e),
        (
          s',
          rw (present, remove) refl,
          record {
            order = ap (remove_first id) h.order ∙ map-without_id id ps;
            stored = λ j.
                lookup-delete id j s.policies
                ∙ ap (λ (o : Option Policy). if text_beq id j then none else o) (h.stored j)
                ∙ sym (find_id-without_id j id ps h.distinct);
            distinct = without_id-HasDistinct id ps h.distinct;
          },
        ),
      )
]
