-- ===== src/Learning.antt =====
-- internal/learning/engine.go: the traffic records of the learning engine. The clock is an
-- argument. `Record.Tags` is never set and is left out.
pub mod Window
pub mod Trimmed
pub mod Segment
pub mod Path
pub mod Tests
use mathlib.Core.List.{reverse}
use waffynx.Ring.{Ring, new_ring, push}
use waffynx.Common.{
  ltb, leb, eqb, if◌then◌else◌, length, Text, txt, text_beq, is_empty, cut, ℤ, pos, negsuc, ℕ, zero,
  suc, ◌+◌, Bool, true, false, not, ◌&&◌, ◌||◌, Option, none, some, List, [], ◌∷◌, ◌++◌,
}

abbrev pub Verdict : Type 0
Verdict = Text

abbrev pub verdict_allow : Verdict
verdict_allow = txt "allow"

abbrev pub verdict_block : Verdict
verdict_block = txt "block"

pub record Record : Type 0 where
  pub timestamp : ℕ
  pub method : Text
  pub path : Text
  pub host : Text
  pub remote_ip : Text
  pub content_type : Text
  pub body_snippet : Text
  pub verdict : Verdict
  pub rule_id : Text
  pub reason : Text
  pub duration : ℕ

-- `ring` is the Go fields `records`, `maxSize` and `position`.
pub record Engine : Type 0 where
  pub ring : Ring Record
  pub enabled : Bool

-- Sizes that are not positive become 1000.
pub usable_size : ℤ → ℕ
usable_size (pos zero) = 1000
usable_size (pos (suc n)) = suc n
usable_size (negsuc n) = 1000

unfoldable pub new_engine : ℤ → Engine
unfolding usable_size new_ring
new_engine max_size = record { ring = new_ring (usable_size max_size); enabled = true }

unfoldable pub enable : Engine → Engine
enable e = record e { enabled = true }

unfoldable pub disable : Engine → Engine
disable e = record e { enabled = false }

-- `none` is a panic.
unfoldable pub add_record : ℕ → Record → Engine → Option Engine
add_record now r e =
    if not e.enabled then some e else elim (push (record r { timestamp = now }) e.ring) [
      | none ↦ none
      | some ring ↦ some (record e { ring = ring })
    ]

-- `Records` gives a copy.
unfoldable pub all_records : Engine → List Record
all_records e = e.ring.items

pub record Stats : Type 0 where
  pub total : ℕ
  pub allowed : ℕ
  pub blocked : ℕ
  pub max : ℕ

unfoldable pub count_verdicts : List Record → ℕ → ℕ → ℕ × ℕ
count_verdicts [] allowed blocked = (allowed, blocked)
count_verdicts (r ∷ rs) allowed blocked =
    let passed = text_beq r.verdict verdict_allow in
    count_verdicts rs (if passed then allowed + 1 else allowed)
      (if passed then blocked else blocked + 1)

unfoldable pub stats : Engine → Stats
unfolding count_verdicts
stats e =
    let counts = count_verdicts e.ring.items 0 0 in
    record {
      total = length e.ring.items;
      allowed = counts.0;
      blocked = counts.1;
      max = e.ring.max_size;
    }

-- isNumeric, isUUID and isHex.
pub all_bytes : (ℕ → Bool) → Text → Bool
all_bytes p [] = true
all_bytes p (c ∷ s) = p c && all_bytes p s

pub is_digit : ℕ → Bool
is_digit c = leb b'0' c && leb c b'9'

pub is_hex_digit : ℕ → Bool
unfolding is_digit
is_hex_digit c = is_digit c || ((leb b'a' c && leb c b'f') || (leb b'A' c && leb c b'F'))

pub count_byte : ℕ → Text → ℕ
count_byte c [] = 0
count_byte c (x ∷ s) = if eqb x c then suc (count_byte c s) else count_byte c s

unfoldable pub is_numeric : Text → Bool
unfolding is_digit all_bytes
is_numeric s = all_bytes is_digit s && not (is_empty s)

unfoldable pub is_uuid : Text → Bool
unfolding count_byte
is_uuid s = eqb (length s) 36 && eqb (count_byte b'-' s) 4

unfoldable pub is_hex : Text → Bool
unfolding is_hex_digit all_bytes
is_hex s = all_bytes is_hex_digit s && not (is_empty s)

-- What is written for a segment.
unfoldable pub label : Text → Text
unfolding is_numeric is_uuid is_hex
label segment =
    if is_numeric segment
    then txt "{id}"
    else if is_uuid segment
    then txt "{uuid}"
    else if is_hex segment && ltb 16 (length segment)
    then txt "{hash}"
    else segment

-- The bytes from the first that is not `c`, and strings.Trim at one byte.
unfoldable pub trim_left : ℕ → Text → Text
trim_left c [] = []
trim_left c (x ∷ s) = if eqb x c then trim_left c s else x ∷ s

unfoldable pub trim : ℕ → Text → Text
unfolding trim_left
trim c s = reverse (trim_left c (reverse (trim_left c s)))

-- The loop over the segments, on fuel; `none` means that the fuel ran out.
unfoldable pub write_segments : ℕ → Text → Option Text
unfolding label
write_segments zero rest = none
write_segments (suc fuel) rest =
    let (segment, after) = cut b'/' rest in
    elim after [
      | none ↦ some (b'/' ∷ label segment)
      | some s ↦ elim (write_segments fuel s) [
        | none ↦ none
        | some written ↦ some ((b'/' ∷ label segment) ++ written)
      ]
    ]

-- A path has fewer segments than the fuel, so the last case is never met.
unfoldable pub normalize_path : Text → Text
unfolding write_segments trim
normalize_path path =
    let trimmed = trim b'/' (cut b'?' path).0 in
    if is_empty trimmed
    then txt "/"
    else elim (write_segments (length trimmed + 1) trimmed) [ none ↦ [] | some s ↦ s ]
