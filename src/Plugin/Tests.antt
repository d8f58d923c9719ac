-- ===== src/Plugin/Tests.antt =====
-- Runs of a chain on concrete plugins.
use waffynx.Http.{new_writer, HttpRequest}
use waffynx.Plugin.{
  Context, Plugin, new_context, new_chain, add, add_all, phase_pre_request, sort_by_priority,
  execute,
}
use waffynx.Plugin.Order.{in_phase, has_priority, IsSorted, sort_by_priority_stable}
use waffynx.Plugin.Run.{Ran, execute-add_all}
use waffynx.Common.{
  keep, Text, txt, lookup, insert, ℤ, pos, ◌≡◌, refl, Option, none, some, List, [], ◌∷◌,
}

-- A plugin that writes its name to the world, and fails if it is given an error.
abbrev plugin : Text → ℤ → Option Text → Plugin (List Text)
plugin name priority failed = record {
  name = name;
  phase = phase_pre_request;
  priority = priority;
  execute = λ w ctx. (name ∷ w, ctx, failed);
  close = λ w. (name ∷ w, failed);
}

abbrev pub late : Plugin (List Text)
late = plugin (txt "late") (pos 20) none

abbrev pub early : Plugin (List Text)
early = plugin (txt "early") (pos 10) (some (txt "no"))

abbrev empty_request : HttpRequest
empty_request = record { header = []; path = txt "/"; remote_addr = []; content_length = pos 0 }

abbrev context : Context
context = new_context new_writer empty_request

-- The plugin of lower priority runs first, and its error keeps the other from running.
early_ends_the_run :
    (execute (add_all (late ∷ early ∷ []) new_chain) phase_pre_request [] context).0
    ≡ txt "early" ∷ []
unfolding add_all add new_chain execute sort_by_priority lookup insert
early_ends_the_run = refl

sort_by_priority_stable_example :
    IsSorted (sort_by_priority (late ∷ early ∷ []))
    × ((k : ℤ)
        → keep (has_priority k) (sort_by_priority (late ∷ early ∷ []))
          ≡ keep (has_priority k) (late ∷ early ∷ []))
sort_by_priority_stable_example = sort_by_priority_stable (late ∷ early ∷ [])

execute-add_all_example :
    Ran
      (sort_by_priority (keep (in_phase phase_pre_request) (late ∷ early ∷ [])))
      []
      context
      (execute (add_all (late ∷ early ∷ []) new_chain) phase_pre_request [] context)
execute-add_all_example = execute-add_all (late ∷ early ∷ []) phase_pre_request [] context
