-- ===== src/Sidecar/Params/Pairs.antt =====
-- What `parseQueryParams` finds for a key.
use waffynx.Common.{if◌then◌else◌, is_empty, Text, text_beq, cut, Option, none, some, List, [], ◌∷◌}

-- What a piece gives for a key: the value of `key=value`, the empty text for a piece `key` with no
-- `=`, and nothing if that piece is empty.
unfoldable pub gives : Text → Text × Option Text → Option Text
gives k (key, some v) = if text_beq key k then some v else none
gives k (key, none) = if is_empty key then none else if text_beq key k then some [] else none

abbrev pub or_before : Option Text → Option Text → Option Text
or_before none before = before
or_before (some v) before = some v

-- What the last piece that names a key gives for it.
unfoldable pub last_given : Text → List Text → Option Text → Option Text
last_given k [] before = before
last_given k (p ∷ ps) before = last_given k ps (or_before (gives k (cut b'=' p)) before)
