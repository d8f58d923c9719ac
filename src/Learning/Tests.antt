-- ===== src/Learning/Tests.antt =====
-- Runs of the learning engine on concrete records and paths.
use waffynx.Learning.{Record, Engine, new_engine, verdict_allow, add_record, normalize_path}
use waffynx.Learning.Window.{new_engine-IsValid, stamped_record, add_record-window}
use waffynx.Learning.Path.{Written, normalize_path_lem}
use waffynx.Learning.Trimmed.{Trimmed}
use waffynx.Ring.{IsValid, chronological}
use waffynx.Ring.Window.{last_n}
use waffynx.Common.{if◌then◌else◌, Text, txt, cut, pos, ◌≡◌, some, [], ◌∷◌, ◌++◌}

abbrev record_of_get : Record
record_of_get = record {
  timestamp = 0;
  method = txt "GET";
  path = txt "/users/42";
  host = [];
  remote_ip = [];
  content_type = [];
  body_snippet = [];
  verdict = verdict_allow;
  rule_id = [];
  reason = [];
  duration = 3;
}

abbrev engine : Engine
engine = new_engine (pos 2)

add_record-window_example :
    (e' : Engine) × (add_record 7 record_of_get engine ≡ some e')
    × IsValid e'.ring
    × (e'.enabled ≡ engine.enabled)
    × (e'.ring.max_size ≡ engine.ring.max_size)
    × (chronological e'.ring ≡ (
        if engine.enabled
        then last_n engine.ring.max_size
            (chronological engine.ring ++ stamped_record 7 record_of_get ∷ [])
        else chronological engine.ring))
add_record-window_example = add_record-window 7 record_of_get engine (new_engine-IsValid (pos 2))

normalize_path_lem_example :
    (t : Text) × Trimmed b'/' (cut b'?' (txt "/users/42/?x=1")).0 t
    × Written t (normalize_path (txt "/users/42/?x=1"))
normalize_path_lem_example = normalize_path_lem (txt "/users/42/?x=1")
