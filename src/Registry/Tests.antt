-- ===== src/Registry/Tests.antt =====
-- Runs of the registry.
use waffynx.Registry.{
  Metadata, Constructor, new_registry, not_registered, build, create, get_metadata,
}
use waffynx.Registry.Latest.{register_all, latest, create-register_all}
use waffynx.Plugin.Tests.{late, early}
use waffynx.Plugin.{phase_pre_request}
use waffynx.Common.{Text, txt, pos, ◌≡◌, none, some, List, [], ◌∷◌}

abbrev about : Metadata
about = record {
  name = txt "p";
  version = [];
  description = [];
  author = [];
  license = [];
  phase = phase_pre_request;
  priority = pos 1;
  tags = [];
  homepage = [];
}

abbrev twice : List (Text × Constructor (List Text) × Metadata)
twice =
    (txt "p", (λ config. (late, none)), about)
    ∷ (txt "p", (λ config. (early, none)), record about { version = txt "2" })
    ∷ []

create-register_all_example :
    (create (txt "p") [] (register_all twice new_registry)
      ≡ elim (latest (λ (e : Constructor (List Text) × Metadata). e.0) (txt "p") twice none) [
        | none ↦ not_registered (txt "p")
        | some make ↦ build (txt "p") make []
      ])
    × (get_metadata (txt "p") (register_all twice new_registry)
        ≡ latest (λ (e : Constructor (List Text) × Metadata). e.1) (txt "p") twice none)
create-register_all_example = create-register_all (txt "p") [] twice
