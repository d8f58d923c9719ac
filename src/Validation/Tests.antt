-- ===== src/Validation/Tests.antt =====
-- Runs of the request validation.
use waffynx.Validation.{
  Decoders, RequestValidation, texts_of, types_of, init, url_path, find_pattern, refuse,
  pattern_found, check_url, wrong_type, execute,
}
use waffynx.Http.{new_writer, set_header, write_header, write_body}
use waffynx.Plugin.{str, Context}
use waffynx.Common.{
  Text, txt, has_prefix, contains_text, to_lower, lookup, pos, ◌≡◌, refl, none, [], ◌∷◌,
}

abbrev plain : Decoders
plain = record {
  lower = to_lower;
  unescape = λ s. none;
  decode_one = λ s. none;
  decode_many = λ s. none;
}

abbrev sample : RequestValidation
unfolding init types_of texts_of lookup
sample = init []

abbrev of_uri : Text → Context
of_uri uri = record {
  request = record { header = []; path = uri; remote_addr = []; content_length = pos 0 };
  writer = new_writer;
  values = (txt "wn_uri", str uri) ∷ [];
  tags = [];
  status_code = 0;
  body_size = pos 0;
}

traversal_refused : (execute plain sample (of_uri (txt "/a/../b"))).0.status_code ≡ 403
unfolding init types_of texts_of lookup execute wrong_type check_url find_pattern url_path
    contains_text has_prefix pattern_found refuse set_header write_header write_body
traversal_refused = refl
