-- ===== src/PatchSeries/Order.antt =====
-- `validate_series` (check-linux-patch-series.py) against the numbering of a series.
use micro_nux.Base.{
  ℕ, suc, ◌+◌, ◌≡◌, refl, ap, true, some, List, [], ◌∷◌, ◌++◌, Text, codes, length, ==_refl, ok,
  Result-cases, Option-cases, inl, inr, arith, ◌↔◌,
}
use micro_nux.Base.Strings.{starts_with, is_within, sorted, four_digits, hex_text}
use micro_nux.Base.Sha256.{sha256}
use micro_nux.PatchSeries.{
  Series, series_count, series_name, SourceFile, subject_of, check_patch, check_patches, glob,
  validate_series,
}

-- The file name and the subject agree on the patch's place, and it is signed off and has a diff.
pub record IsPatch (s : Series) (index : ℕ) (patch : SourceFile) : Type 0 where
  pub named : starts_with patch.name (four_digits index ++ codes "-") ≡ true
  pub subject : subject_of patch.content ≡ some (index, series_count s)
  pub signed : is_within (codes "Signed-off-by:") patch.content ≡ true
  pub has_diff : is_within (codes "diff --git a/") patch.content ≡ true

abbrev pub manifest_line : Series → SourceFile → Text
manifest_line s patch =
    series_name s
    ++ (codes "/linux/" ++ (patch.name ++ (codes " " ++ hex_text (sha256 patch.bytes))))

abbrev pub manifest_lines : Series → List SourceFile → List Text
manifest_lines s [] = []
manifest_lines s (patch ∷ rest) = manifest_line s patch ∷ manifest_lines s rest

-- Patches numbered one after the other from an index.
abbrev pub Numbered : Series → ℕ → List SourceFile → Type 0
Numbered s index [] = Unit
Numbered s index (patch ∷ rest) = IsPatch s index patch × Numbered s (index + 1) rest

check_patch-IsPatch :
    (s : Series) (index : ℕ) (patch : SourceFile) {line : Text}
    → check_patch s index patch ≡ ok line
    → IsPatch s index patch × (line ≡ manifest_line s patch)
unfolding check_patch
check_patch-IsPatch s index patch h = elim (Option-cases (subject_of patch.content)) [
  | inl e ↦ absurd (ground arith)
  | inr ((number, total), e) ↦ (
    record {
      named = ground arith;
      subject = ground arith;
      signed = ground arith;
      has_diff = ground arith;
    },
    ground arith,
  )
]

IsPatch-check_patch :
    (s : Series) (index : ℕ) (patch : SourceFile)
    → IsPatch s index patch
    → check_patch s index patch ≡ ok (manifest_line s patch)
unfolding check_patch
IsPatch-check_patch s index patch p =
    rw (p.named, p.subject, p.signed, p.has_diff, ==_refl index, ==_refl (series_count s))

check_patches-Numbered :
    (s : Series) (index : ℕ) (patches : List SourceFile) {lines : List Text}
    → check_patches s index patches ≡ ok lines
    → Numbered s index patches × (lines ≡ manifest_lines s patches)
unfolding check_patches
check_patches-Numbered s index [] h = (tt, ground arith)
check_patches-Numbered s index (patch ∷ rest) h = elim (Result-cases (check_patch s index patch)) [
  | inr (e, failed) ↦ absurd (ground arith)
  | inl (line, here) ↦ elim (Result-cases (check_patches s (index + 1) rest)) [
    | inr (e, failed) ↦ absurd (ground arith)
    | inl (lines, there) ↦
        let (good, same) = check_patch-IsPatch s index patch here in
        let (others, same_rest) = check_patches-Numbered s (index + 1) rest there in
        ((good, others), ground arith)
  ]
]

Numbered-check_patches :
    (s : Series) (index : ℕ) (patches : List SourceFile)
    → Numbered s index patches
    → check_patches s index patches ≡ ok (manifest_lines s patches)
unfolding check_patches
Numbered-check_patches s index [] h = refl
Numbered-check_patches s index (patch ∷ rest) h =
    rw (IsPatch-check_patch s index patch h.0, Numbered-check_patches s (index + 1) rest h.1)

-- The patches of a directory, in the order of their names.
abbrev pub patches_of : List SourceFile → List SourceFile
patches_of files = sorted (λ (file : SourceFile). file.name) (glob [] (codes ".patch") files)

-- `validate_series` passes exactly when the directory has as many patches as the series, numbered
-- from 1 in the order of their names by file name and by subject, each signed off and with a diff.
-- Its result is then one manifest line for each patch.
pub validate_series-eq-ok :
    (s : Series) (files : List SourceFile) (lines : List Text)
    → (validate_series s files ≡ ok lines) ↔ (
        (length (patches_of files) ≡ series_count s)
        × Numbered s 1 (patches_of files)
        × (lines ≡ manifest_lines s (patches_of files)))
unfolding validate_series
validate_series-eq-ok s files lines = (passes, holds)
  where
    passes :
        validate_series s files ≡ ok lines
        → (length (patches_of files) ≡ series_count s)
          × Numbered s 1 (patches_of files)
          × (lines ≡ manifest_lines s (patches_of files))
    passes h =
        let checked : check_patches s 1 (patches_of files) ≡ ok lines = ground arith in
        let (good, same) = check_patches-Numbered s 1 (patches_of files) checked in
        (ground arith, good, same)

    holds :
        (length (patches_of files) ≡ series_count s)
          × Numbered s 1 (patches_of files)
          × (lines ≡ manifest_lines s (patches_of files))
        → validate_series s files ≡ ok lines
    holds (count, good, same) =
        rw (count, ==_refl (series_count s), same) (Numbered-check_patches s 1 _ good)

pub length-manifest_lines :
    (s : Series) (patches : List SourceFile) → length (manifest_lines s patches) ≡ length patches
length-manifest_lines s [] = refl
length-manifest_lines s (patch ∷ rest) = ap suc (length-manifest_lines s rest)
