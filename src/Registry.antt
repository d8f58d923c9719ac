-- ===== src/Registry.antt =====
-- internal/plugin/plugin.go: the registry of plugins. A constructor with the `Init` of what it
-- makes is one function of the configuration, to the plugin and the error of `Init`.
pub mod Latest
pub mod Tests
use waffynx.Plugin.{Phase, Plugin, Value}
use waffynx.Common.{lookup, insert, Map, Text, ℤ, Option, none, some, List, [], ◌∷◌, map}

pub record Metadata : Type 0 where
  pub name : Text
  pub version : Text
  pub description : Text
  pub author : Text
  pub license : Text
  pub phase : Phase
  pub priority : ℤ
  pub tags : List Text
  pub homepage : Text

abbrev pub Constructor : Type 0 → Type 0
Constructor World = Map Value → Plugin World × Option Text

pub record Registry (World : Type 0) : Type 0 where
  pub plugins : Map (Constructor World)
  pub meta : Map Metadata

pub data Created (World : Type 0) : Type 0 where
  not_registered : Text → Created World
  init_failed : Text → Text → Created World
  created : Plugin World → Created World

module _ {World : Type 0} where
  unfoldable pub new_registry : Registry World
  new_registry = record { plugins = []; meta = [] }

  unfoldable pub register : Text → Constructor World → Metadata → Registry World → Registry World
  register name make m r = record {
    plugins = insert name make r.plugins;
    meta = insert name m r.meta;
  }

  -- What `Create` makes of a constructor.
  unfoldable pub build : Text → Constructor World → Map Value → Created World
  build name make config =
      let (p, failed) = make config in
      elim failed [ none ↦ created p | some message ↦ init_failed name message ]

  unfoldable pub create : Text → Map Value → Registry World → Created World
  unfolding build
  create name config r = elim (lookup name r.plugins) [
    | none ↦ not_registered name
    | some make ↦ build name make config
  ]

  -- `none` is the error "not found".
  unfoldable pub get_metadata : Text → Registry World → Option Metadata
  get_metadata name r = lookup name r.meta

  -- In some order: Go's iteration over a map has none.
  unfoldable pub list_metadata : Registry World → List Metadata
  list_metadata r = map (λ (e : Text × Metadata). e.1) r.meta
