-- ===== src/Learning/Path.antt =====
-- What `normalizePath` writes for a path.
use waffynx.Learning.{label, trim, write_segments, normalize_path}
use waffynx.Learning.Trimmed.{Trimmed, trim-Trimmed}
use waffynx.Learning.Segment.{LabelOf, label-LabelOf}
use waffynx.Common.Split.{split, after_first, split-cut, cut_shorter}
use waffynx.Common.{
  if◌then◌else◌, is_empty, Option-cases, length, Text, txt, cut, ℕ, zero, suc, ◌+◌, ◌<◌, ◌≡◌, refl,
  sym, ap, ◌≢◌, inl, inr, some, List, [], ◌∷◌, ◌++◌, append-nil, arith,
}

-- A `/` and the label of each segment.
unfoldable pub labelled : List Text → Text
labelled [] = []
labelled (p ∷ ps) = (b'/' ∷ label p) ++ labelled ps

-- With more fuel than bytes the loop ends, and it writes the label of every segment.
write_segments-labelled :
    (fuel : ℕ) (s : Text) → length s < fuel → write_segments fuel s ≡ some (labelled (split b'/' s))
unfolding write_segments labelled after_first
write_segments-labelled zero s h = elim h [ ]
write_segments-labelled (suc fuel) s h = rw (split-cut b'/' s) (elim (Option-cases (cut b'/' s).1) [
  | inl e ↦
      rw (e, write_segments)
        (ap (λ (w : Text). some (b'/' ∷ w)) (sym (append-nil (label (cut b'/' s).0))))
  | inr (r, e) ↦
      rw (e, write_segments)
        (rw (write_segments-labelled fuel r (omega (arith, cut_shorter b'/' s r e))) refl)
])

-- Each segment with its label.
pub data Labels : List Text → List Text → Type 0 where
  no_more : Labels [] []
  one_label :
      (s l : Text) (ss ls : List Text) → LabelOf s l → Labels ss ls → Labels (s ∷ ss) (l ∷ ls)

-- Each text behind a slash.
pub slashed : List Text → Text
slashed [] = []
slashed (l ∷ ls) = (b'/' ∷ l) ++ slashed ls

-- What is written for a path without slashes at its ends.
pub data Written (t res : Text) : Type 0 where
  root : t ≡ [] → res ≡ txt "/" → Written t res
  segments :
      (labels : List Text)
      → t ≢ []
      → Labels (split b'/' t) labels
      → res ≡ slashed labels
      → Written t res

labelled-Labels :
    (ps : List Text) → (labels : List Text) × Labels ps labels × (labelled ps ≡ slashed labels)
unfolding labelled slashed
labelled-Labels [] = ([], no_more, refl)
labelled-Labels (p ∷ ps) =
    let (labels, each, e) = labelled-Labels ps in
    (
      label p ∷ labels,
      one_label p (label p) ps labels (label-LabelOf p) each,
      ap (λ r. (b'/' ∷ label p) ++ r) e,
    )

-- A normalized path comes from the path without its query and without the slashes at its ends. If
-- nothing is left it is `/`. Otherwise what is left is split at the slashes, and each segment is
-- written behind a slash: as `{id}` if it is a number, else as `{uuid}` if it has 36 bytes with four
-- dashes, else as `{hash}` if it has more than 16 bytes, all hexadecimal digits, else as it is.
pub normalize_path_lem :
    (path : Text) → (t : Text) × Trimmed b'/' (cut b'?' path).0 t × Written t (normalize_path path)
unfolding normalize_path
normalize_path_lem path =
    let trimmed = trim b'/' (cut b'?' path).0 in
    (
      trimmed,
      trim-Trimmed b'/' (cut b'?' path).0,
      rw (write_segments-labelled (length trimmed + 1) trimmed (omega arith)) (written trimmed),
    )
  where
    written : (t : Text) → Written t (if is_empty t then txt "/" else labelled (split b'/' t))
    written [] = root refl refl
    written (c ∷ s) =
        let (labels, each, e) = labelled-Labels (split b'/' (c ∷ s)) in
        segments labels (λ nil. cc nil) each e
