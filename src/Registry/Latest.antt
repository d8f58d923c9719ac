-- ===== src/Registry/Latest.antt =====
-- What the registry gives after a sequence of registrations.
use waffynx.Registry.{
  Metadata, Constructor, Registry, not_registered, Created, new_registry, register, build, create,
  get_metadata,
}
use waffynx.Plugin.{Value}
use waffynx.Common.{
  if◌then◌else◌, lookup, lookup-insert, Map, Text, text_beq, ◌≡◌, refl, ap, ◌∙◌, Option, none, some,
  List, [], ◌∷◌,
}

module _ {World : Type 0} where
  unfoldable pub register_all :
      List (Text × Constructor World × Metadata) → Registry World → Registry World
  register_all [] r = r
  register_all ((name, make, m) ∷ rest) r = register_all rest (register name make m r)

  -- The last registration under a name, or what was there before.
  unfoldable pub latest :
      {A : Type 0}
      → (Constructor World × Metadata → A)
      → Text
      → List (Text × Constructor World × Metadata)
      → Option A
      → Option A
  latest f name [] before = before
  latest f name ((other, make, m) ∷ rest) before =
      latest f name rest (if text_beq other name then some (f (make, m)) else before)

  registered :
      (name : Text) (rs : List (Text × Constructor World × Metadata)) (r : Registry World)
      → (lookup name (register_all rs r).plugins
          ≡ latest (λ (e : Constructor World × Metadata). e.0) name rs (lookup name r.plugins))
        × (lookup name (register_all rs r).meta
            ≡ latest (λ (e : Constructor World × Metadata). e.1) name rs (lookup name r.meta))
  unfolding register_all latest register
  registered name [] r = (refl, refl)
  registered name ((other, make, m) ∷ rest) r =
      let (plugins, meta) = registered name rest (register other make m r) in
      (
        plugins
            ∙ ap (latest (λ (e : Constructor World × Metadata). e.0) name rest)
                (lookup-insert other name make r.plugins),
        meta
            ∙ ap (latest (λ (e : Constructor World × Metadata). e.1) name rest)
                (lookup-insert other name m r.meta),
      )

  -- After any sequence of registrations, `Create` runs the constructor that was registered last
  -- under the name, and `Get` gives the metadata that came with it; both fail for other names.
  pub create-register_all :
      (name : Text) (config : Map Value) (rs : List (Text × Constructor World × Metadata))
      → (create name config (register_all rs new_registry)
          ≡ elim (latest (λ (e : Constructor World × Metadata). e.0) name rs none) [
            | none ↦ not_registered name
            | some make ↦ build name make config
          ])
        × (get_metadata name (register_all rs new_registry)
            ≡ latest (λ (e : Constructor World × Metadata). e.1) name rs none)
  unfolding create get_metadata lookup new_registry
  create-register_all name config rs =
      let (plugins, meta) = registered name rs new_registry in
      (
        ap
            (λ (o : Option (Constructor World)). elim o as (λ _. Created World) [
              | none ↦ not_registered name
              | some make ↦ build name make config
            ])
            plugins,
        meta,
      )
