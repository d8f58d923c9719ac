-- ===== src/Http.antt =====
-- What the program uses of net/http: the request that a handler reads and the response that it
-- writes. Header maps have one value for each name.
use waffynx.Common.{Text, Map, lookup, insert, ℤ, ℕ, Option, none, some, List, [], ◌∷◌, ◌++◌}

pub record HttpRequest : Type 0 where
  pub header : Map Text
  pub path : Text
  pub remote_addr : Text
  pub content_length : ℤ

-- r.Header.Get(name): the empty text for a missing header.
unfoldable pub or_empty : Option Text → Text
or_empty none = []
or_empty (some v) = v

unfoldable pub header_get : Text → HttpRequest → Text
unfolding or_empty
header_get name r = or_empty (lookup name r.header)

-- What a handler writes: bytes, or a map through the JSON encoder.
pub data Chunk : Type 0 where
  bytes : Text → Chunk
  json : Map Text → Chunk

-- `header` is the map that the handler edits; `sent` is the status line with the headers as they
-- were when it was written.
pub record ResponseWriter : Type 0 where
  pub header : Map Text
  pub sent : Option (ℕ × Map Text)
  pub body : List Chunk

abbrev pub new_writer : ResponseWriter
new_writer = record { header = []; sent = none; body = [] }

unfoldable pub set_header : Text → Text → ResponseWriter → ResponseWriter
set_header name value w = record w { header = insert name value w.header }

-- Only the first call has an effect.
unfoldable pub write_header : ℕ → ResponseWriter → ResponseWriter
write_header code w = elim w.sent [ none ↦ record w { sent = some (code, w.header) } | some _ ↦ w ]

unfoldable pub write_body : Chunk → ResponseWriter → ResponseWriter
unfolding write_header
write_body chunk w =
    let started = write_header 200 w in record started { body = started.body ++ chunk ∷ [] }
