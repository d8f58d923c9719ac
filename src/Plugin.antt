-- ===== src/Plugin.antt =====
-- internal/plugin/chain.go and plugin.go: the context that plugins share, and the chain that runs
-- them. A plugin's own state is a `World` that its methods read and change. The context is passed
-- by value: each plugin gets what the one before it returned.
pub mod Order
pub mod Run
pub mod Tests
use waffynx.Http.{HttpRequest, ResponseWriter}
use waffynx.Common.{
  if◌then◌else◌, ℤ, pos, lt_int, Map, lookup, insert, Text, txt, ℕ, Option, none, some, List, [],
  ◌∷◌, ◌++◌,
}

abbrev pub Phase : Type 0
Phase = Text

abbrev pub phase_pre_request : Phase
phase_pre_request = txt "pre_request"

-- An `interface{}` of the map `Values`: a string, or a value of another type.
pub data Value : Type 0 where
  str : Text → Value
  opaque : ℕ → Value

pub record Context : Type 0 where
  pub request : HttpRequest
  pub writer : ResponseWriter
  pub values : Map Value
  pub tags : Map Text
  pub status_code : ℕ
  pub body_size : ℤ

unfoldable pub new_context : ResponseWriter → HttpRequest → Context
new_context w r = record {
  request = r;
  writer = w;
  values = [];
  tags = [];
  status_code = 0;
  body_size = pos 0;
}

-- The interface `Plugin`; an error is its message.
pub record Plugin (World : Type 0) : Type 0 where
  pub name : Text
  pub phase : Phase
  pub priority : ℤ
  pub execute : World → Context → World × Context × Option Text
  pub close : World → World × Option Text

pub record Chain (World : Type 0) : Type 0 where
  pub plugins : List (Plugin World)
  pub by_phase : Map (List (Plugin World))

-- fmt.Errorf("plugin %s error: %w", …).
pub plugin_error : Text → Text → Text
plugin_error name message = txt "plugin " ++ (name ++ (txt " error: " ++ message))

module _ {World : Type 0} where
  -- sort.SliceStable by rising priority.
  unfoldable pub insert_by_priority : Plugin World → List (Plugin World) → List (Plugin World)
  insert_by_priority p [] = p ∷ []
  insert_by_priority p (q ∷ qs) =
      if lt_int q.priority p.priority then q ∷ insert_by_priority p qs else p ∷ q ∷ qs

  unfoldable pub sort_by_priority : List (Plugin World) → List (Plugin World)
  unfolding insert_by_priority
  sort_by_priority [] = []
  sort_by_priority (p ∷ ps) = insert_by_priority p (sort_by_priority ps)

  -- byPhase[phase], where a missing key reads as the nil slice.
  pub or_nil : Option (List (Plugin World)) → List (Plugin World)
  or_nil none = []
  or_nil (some ps) = ps

  unfoldable pub new_chain : Chain World
  new_chain = record { plugins = []; by_phase = [] }

  unfoldable pub add : Plugin World → Chain World → Chain World
  unfolding or_nil sort_by_priority
  add p c =
      let group : List (Plugin World) = or_nil (lookup p.phase c.by_phase) ++ p ∷ [] in
      record {
        plugins = c.plugins ++ p ∷ [];
        by_phase = insert p.phase (sort_by_priority group) c.by_phase;
      }

  unfoldable pub add_all : List (Plugin World) → Chain World → Chain World
  add_all [] c = c
  add_all (p ∷ ps) c = add_all ps (add p c)

  -- The loop of `Execute`: the first error ends it.
  unfoldable pub execute_loop :
      List (Plugin World) → World → Context → World × Context × Option Text
  execute_loop [] w ctx = (w, ctx, none)
  execute_loop (p ∷ ps) w ctx =
      let (w', ctx', failed) = p.execute w ctx in
      elim failed [
        | none ↦ execute_loop ps w' ctx'
        | some message ↦ (w', ctx', some (plugin_error p.name message))
      ]

  unfoldable pub execute : Chain World → Phase → World → Context → World × Context × Option Text
  unfolding execute_loop
  execute c phase w ctx = elim (lookup phase c.by_phase) [
    | none ↦ (w, ctx, none)
    | some ps ↦ execute_loop ps w ctx
  ]

  -- `Close` closes every plugin and gathers the errors.
  unfoldable pub close_loop : List (Plugin World) → World → World × List Text
  close_loop [] w = (w, [])
  close_loop (p ∷ ps) w =
      let (w', failed) = p.close w in
      let rest = close_loop ps w' in
      elim failed [
        | none ↦ rest
        | some message ↦ (rest.0, (txt "closing " ++ (p.name ++ (txt ": " ++ message))) ∷ rest.1)
      ]

  unfoldable pub close_all : Chain World → World → World × List Text
  unfolding close_loop
  close_all c w = close_loop c.plugins w
