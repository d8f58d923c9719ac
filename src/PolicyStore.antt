-- ===== src/PolicyStore.antt =====
-- internal/engine/policy.go: the policy store. `order` and `policies` are the two parts of the Go
-- struct; a pointer to a policy is the policy. The random id of a policy without one is an argument.
-- `Conditions` and `Metadata` of a policy are left out: the store only carries them.
pub mod Ordered
pub mod Runs
pub mod Tests
use waffynx.Common.{
  if◌then◌else◌, is_empty, Map, lookup, insert, delete, Text, text_beq, ℤ, Bool, Option, none, some,
  List, [], ◌∷◌, ◌++◌,
}

pub record Policy : Type 0 where
  pub id : Text
  pub name : Text
  pub description : Text
  pub phase : Text
  pub priority : ℤ
  pub enabled : Bool
  pub action : Text

pub record Store : Type 0 where
  pub policies : Map Policy
  pub order : List Text

abbrev pub new_store : Store
new_store = record { policies = []; order = [] }

-- The id that `Add` gives to a policy without one.
unfoldable pub with_id : Text → Policy → Policy
with_id fresh p = if is_empty p.id then record p { id = fresh } else p

-- `none` is the error "already exists".
unfoldable pub add : Text → Policy → Store → Option Store
unfolding with_id
add fresh p s =
    let p' = with_id fresh p in
    elim (lookup p'.id s.policies) [
      | some _ ↦ none
      | none ↦
          some (record { policies = insert p'.id p' s.policies; order = s.order ++ p'.id ∷ [] })
    ]

unfoldable pub remove_first : Text → List Text → List Text
remove_first id [] = []
remove_first id (pid ∷ order) = if text_beq pid id then order else pid ∷ remove_first id order

-- `none` is the error "not found".
unfoldable pub remove : Text → Store → Option Store
unfolding remove_first
remove id s = elim (lookup id s.policies) [
  | none ↦ none
  | some _ ↦ some (record { policies = delete id s.policies; order = remove_first id s.order })
]

unfoldable pub get : Text → Store → Option Policy
get id s = lookup id s.policies

-- The loop of `List`.
unfoldable pub found_in : Map Policy → List Text → List Policy
found_in policies [] = []
found_in policies (id ∷ order) =
    let rest = found_in policies order in
    elim (lookup id policies) [ none ↦ rest | some p ↦ p ∷ rest ]

unfoldable pub list : Store → List Policy
unfolding found_in
list s = found_in s.policies s.order
