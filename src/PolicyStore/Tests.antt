-- ===== src/PolicyStore/Tests.antt =====
-- Runs of the policy store.
use waffynx.PolicyStore.{Policy, Store, new_store, get, list}
use waffynx.PolicyStore.Ordered.{find_id, without_id, Holds}
use waffynx.PolicyStore.Runs.{Op, adds, removes, run, append_new, policies_after, run_lem}
use waffynx.Common.{Text, txt, ◌≡◌, List, lookup, pos, refl, true, [], ◌∷◌}

abbrev first_policy : Policy
first_policy = record {
  id = txt "p1";
  name = txt "First";
  description = [];
  phase = txt "request";
  priority = pos 1;
  enabled = true;
  action = txt "deny";
}

abbrev unnamed : Policy
unnamed = record first_policy { id = [] }

abbrev one_policy : Store
one_policy = record { policies = (txt "p1", first_policy) ∷ []; order = txt "p1" ∷ [] }

one_policy-Holds : Holds one_policy (first_policy ∷ [])
unfolding lookup find_id
one_policy-Holds = record { order = refl; stored = λ id. refl; distinct = (refl, tt) }

abbrev second_policy : Policy
second_policy = record first_policy { id = txt "p2" }

-- The second policy has no identifier and gets one, the third has one that is taken.
abbrev calls : List Op
calls =
    adds [] first_policy
    ∷ adds (txt "p2") unnamed
    ∷ adds [] second_policy
    ∷ removes (txt "p1")
    ∷ removes (txt "p9")
    ∷ []

calls_leave : policies_after calls [] ≡ second_policy ∷ []
unfolding policies_after append_new find_id without_id
calls_leave = refl

run_lem_example :
    (list (run calls new_store) ≡ policies_after calls [])
    × ((id : Text) → get id (run calls new_store) ≡ find_id id (policies_after calls []))
    × Holds (run calls new_store) (policies_after calls [])
run_lem_example = run_lem calls
