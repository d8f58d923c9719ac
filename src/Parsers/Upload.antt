-- ===== src/Parsers/Upload.antt =====
-- internal/parsers/upload.go. `strings.ToLower` is a parameter.
use waffynx.Http.{HttpRequest, header_get}
use waffynx.Common.Words.{has_suffix}
use waffynx.Common.{
  ltb, eqb, if◌then◌else◌, length, any, Text, txt, is_empty, has_prefix, contains_text, Map, ℕ, ◌*◌,
  Bool, true, false, not, ◌&&◌, ◌||◌, Option, none, some, List, [], ◌∷◌, ◌++◌,
}

pub record FileUploadResult : Type 0 where
  pub is_upload : Bool
  pub content_type : Text
  pub extension : Text
  pub size : ℕ
  pub is_executable : Bool
  pub magic_match : Bool
  pub issues : List Text

abbrev pub blocked_extensions : List Text
blocked_extensions =
    txt ".exe"
    ∷ txt ".dll"
    ∷ txt ".so"
    ∷ txt ".dylib"
    ∷ txt ".sh"
    ∷ txt ".bash"
    ∷ txt ".php"
    ∷ txt ".jsp"
    ∷ txt ".asp"
    ∷ txt ".aspx"
    ∷ txt ".cgi"
    ∷ txt ".pl"
    ∷ txt ".py"
    ∷ txt ".rb"
    ∷ txt ".war"
    ∷ txt ".jar"
    ∷ txt ".class"
    ∷ []

abbrev pub blocked_content_types : List Text
blocked_content_types =
    txt "application/x-msdownload"
    ∷ txt "application/x-msdos-program"
    ∷ txt "application/x-msi"
    ∷ txt "application/x-sh"
    ∷ txt "application/x-shockwave-flash"
    ∷ []

-- The map, in the order of the source. No key is a prefix of another, so at most one fits and the
-- order does not matter.
abbrev pub magic_signatures : Map Text
magic_signatures =
    (txt "image/jpeg", 255 ∷ 216 ∷ 255 ∷ [])
    ∷ (txt "image/png", 137 ∷ 80 ∷ 78 ∷ 71 ∷ [])
    ∷ (txt "image/gif", 71 ∷ 73 ∷ 70 ∷ [])
    ∷ (txt "application/pdf", 37 ∷ 80 ∷ 68 ∷ 70 ∷ [])
    ∷ (txt "application/zip", 80 ∷ 75 ∷ 3 ∷ 4 ∷ [])
    ∷ (txt "application/x-gzip", 31 ∷ 139 ∷ [])
    ∷ (txt "audio/mpeg", 255 ∷ 251 ∷ [])
    ∷ []

unfoldable pub is_upload_type : (Text → Text) → Text → Text → Bool
unfolding has_prefix
is_upload_type lower content_type body =
    has_prefix content_type (txt "multipart/form-data")
    || (not (is_empty body)
        && any (has_prefix (lower content_type)) (
            txt "image/"
            ∷ txt "application/octet-stream"
            ∷ txt "application/pdf"
            ∷ txt "application/zip"
            ∷ []))

-- The loop over the bytes of a signature.
unfoldable pub same_bytes : Text → Text → Bool
same_bytes [] data_bytes = true
same_bytes (b ∷ magic) [] = false
same_bytes (b ∷ magic) (d ∷ data_bytes) = if eqb d b then same_bytes magic data_bytes else false

-- The first signature whose type begins the content type decides.
unfoldable pub magic_loop : (Text → Text) → Map Text → Text → Text → Bool
unfolding has_prefix same_bytes
magic_loop lower [] content_type data_bytes = true
magic_loop lower ((ct, magic) ∷ more) content_type data_bytes =
    if has_prefix (lower content_type) ct
    then (if ltb (length data_bytes) (length magic) then false else same_bytes magic data_bytes)
    else magic_loop lower more content_type data_bytes

unfoldable pub validate_magic_bytes : (Text → Text) → Text → Text → Bool
unfolding magic_loop
validate_magic_bytes lower content_type data_bytes =
    if ltb (length data_bytes) 4
    then true
    else magic_loop lower magic_signatures content_type data_bytes

-- The first entry that passes.
unfoldable pub first_of : (Text → Bool) → List Text → Option Text
first_of p [] = none
first_of p (x ∷ xs) = if p x then some x else first_of p xs

unfoldable pub issue_of : Text → Option Text → List Text
issue_of what none = []
issue_of what (some x) = (what ++ x) ∷ []

abbrev pub is_found : Option Text → Bool
is_found none = false
is_found (some x) = true

abbrev pub found_or_empty : Option Text → Text
found_or_empty none = []
found_or_empty (some x) = x

abbrev pub max_upload : ℕ
max_upload = 50 * 1024 * 1024

unfoldable pub inspect_upload : (Text → Text) → Text → Text → Text → FileUploadResult
unfolding first_of has_suffix contains_text validate_magic_bytes issue_of
inspect_upload lower content_type path body =
    let extension = first_of (has_suffix (lower path)) blocked_extensions in
    let blocked_type = first_of (contains_text (lower content_type)) blocked_content_types in
    let matches = validate_magic_bytes lower content_type body in
    record {
      is_upload = true;
      content_type = content_type;
      extension = found_or_empty extension;
      size = length body;
      is_executable = is_found blocked_type;
      magic_match = matches;
      issues =
          issue_of (txt "blocked extension: ") extension
          ++ (issue_of (txt "blocked content type: ") blocked_type
              ++ ((if not matches && ltb 4 (length body)
                    then txt "content-type does not match file signature" ∷ []
                    else [])
                  ++ (if ltb max_upload (length body)
                      then txt "file size exceeds limit (50MB)" ∷ []
                      else [])));
    }

unfoldable pub inspect_file_upload : (Text → Text) → HttpRequest → Text → FileUploadResult
unfolding header_get is_upload_type inspect_upload
inspect_file_upload lower r body =
    let content_type = header_get (txt "Content-Type") r in
    if not (is_upload_type lower content_type body)
    then record {
      is_upload = false;
      content_type = content_type;
      extension = [];
      size = length body;
      is_executable = false;
      magic_match = false;
      issues = [];
    }
    else inspect_upload lower content_type r.path body
