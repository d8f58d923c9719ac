-- ===== src/Sidecar/Tests.antt =====
-- Runs of the evaluation on a sidecar with every component.
use waffynx.Http.{ResponseWriter, HttpRequest, write_header}
use waffynx.Plugin.{Plugin, phase_pre_request, new_chain, add}
use waffynx.Policy.{allowed}
use waffynx.Appsec.{Scorer}
use waffynx.Sidecar.{Sidecar, Call, Times}
use waffynx.Sidecar.Handle.{handle_evaluate}
use waffynx.Sidecar.Evaluate.{decide, finish, handle_evaluate-eq-finish}
use waffynx.Sidecar.Recorded.{IsSound}
use waffynx.Sidecar.Answer.{after_plugins, Passes}
use waffynx.Sidecar.Served.{
  sent_or, answer_status, Refused, handle_evaluate_served, handle_evaluate_unrecorded,
}
use waffynx.Rules.Tests.{exact_lib, two_rules}
use waffynx.Ring.Window.{new_ring-IsValid}
use waffynx.Learning.Window.{new_engine-IsValid}
use waffynx.Learning
use waffynx.Audit
use waffynx.Events
use waffynx.Common.{txt, pos, ℕ, ◌≡◌, refl, ◌⊎◌, false, none, some, [], ◌∷◌, arith}

-- A scorer that counts its calls and always fails.
abbrev failing_scorer : Scorer ℕ
failing_scorer = record { evaluate = λ n f. (n, none) }

abbrev sidecar : Sidecar ℕ
sidecar = record {
  world = 0;
  chain = new_chain;
  evaluator = λ ctx phase req. allowed;
  scorer = some failing_scorer;
  learning = some (Learning.new_engine (pos 2));
  audit = some (Audit.new_store 2 false);
  rules = some two_rules;
  broker = some Events.new_broker;
  publisher = none;
}

abbrev unrecorded : Sidecar ℕ
unrecorded = record sidecar { learning = none }

abbrev login : HttpRequest
login = record {
  header = (txt "X-WN-M", txt "POST") ∷ (txt "X-WN-U", txt "/login?user=admin") ∷ [];
  path = txt "/evaluate";
  remote_addr = txt "10.0.0.1:80";
  content_length = pos 4;
}

abbrev call : Call
call = record { request = login; body = txt "mypw"; body_fails = false }

abbrev times : Times
times = record { recorded = 1; audited = 2; published = 3; duration = 4 }

sidecar-IsSound : IsSound sidecar
unfolding Audit.new_store
sidecar-IsSound = record {
  learning = new_engine-IsValid (pos 2);
  audit = new_ring-IsValid 2 (omega arith);
}

-- A plugin that sends 403 and fails, as those of the repository do.
abbrev refusing : Plugin ℕ
refusing = record {
  name = txt "refusing";
  phase = phase_pre_request;
  priority = pos 1;
  execute = λ n ctx. (
    n,
    record ctx { status_code = 403; writer = write_header 403 ctx.writer },
    some (txt "refused"),
  );
  close = λ n. (n, none);
}

abbrev guarded : Sidecar ℕ
guarded = record sidecar { chain = add refusing new_chain }

guarded-IsSound : IsSound guarded
guarded-IsSound = record { learning = sidecar-IsSound.learning; audit = sidecar-IsSound.audit }

handle_evaluate_served_example :
    (w' : ResponseWriter) × (s' : Sidecar ℕ) × (handle_evaluate exact_lib call times guarded
      ≡ some (w', s'))
    × IsSound s'
    × (((answer_status w' ≡ sent_or 204 (after_plugins exact_lib call guarded).1.writer)
          × Passes exact_lib call guarded)
        ⊎ ((¬ Passes exact_lib call guarded) × Refused exact_lib call guarded w'))
handle_evaluate_served_example = handle_evaluate_served exact_lib call times guarded guarded-IsSound

handle_evaluate_unrecorded_example :
    (w' : ResponseWriter) × (s' : Sidecar ℕ) × (handle_evaluate exact_lib call times unrecorded
      ≡ some (w', s'))
    × (s'.audit ≡ unrecorded.audit)
    × (s'.broker ≡ unrecorded.broker)
handle_evaluate_unrecorded_example = handle_evaluate_unrecorded exact_lib call times unrecorded refl

handle_evaluate-eq-finish_example :
    handle_evaluate exact_lib call times sidecar
    ≡ finish call times sidecar (decide exact_lib call sidecar)
handle_evaluate-eq-finish_example = handle_evaluate-eq-finish exact_lib call times sidecar
