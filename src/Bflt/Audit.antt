-- ===== src/Bflt/Audit.antt =====
-- The audit of check-bflt-wx.py against the condition for a split at a granule.
use micro_nux.Base.{
  ℕ, ◌+◌, ◌%◌, ◌≤◌, ◌<◌, ◌≡◌, refl, sym, ap, ◌∙◌, length-take, take-take, leb, ==_iff, Bool, true,
  false, not, ◌&&◌, List, [], ◌∷◌, Text, text_eq, length, take, All, ltb, ◌==◌, ok, Result-cases,
  inl, inr, Bool-cases, arith, if◌then◌else◌, ◌↔◌,
}
use micro_nux.Bflt.{
  FileEntry, check_header, validate, count_valid, audit, revision, entry, data_start, flags,
  bflt_magic, header_size, pmp_granule,
}

-- A regular file that begins as a bFLT image does.
abbrev pub is_image : FileEntry → Bool
is_image path =
    path.is_file
    && not path.is_symlink
    && not (ltb (length path.content) 4)
    && text_eq (take 4 path.content) bflt_magic

-- Text and data can be given to separate regions: the boundary between them lies on a granule,
-- behind the header and behind the entry point.
pub record IsSplittable (content : Text) : Type 0 where
  pub complete : header_size ≤ length content
  pub format : revision (take header_size content) ≡ 4
  pub in_ram : flags (take header_size content) % 2 ≡ 1
  pub entry_behind_header : header_size ≤ entry (take header_size content)
  pub entry_in_text : entry (take header_size content) < data_start (take header_size content)
  pub aligned : data_start (take header_size content) % pmp_granule ≡ 0

abbrev header_of : FileEntry → Text
header_of path = take header_size path.content

-- The test that `validate` makes on the header in place of the content.
is_image-header :
    (path : FileEntry)
    → is_image path ≡ (
        path.is_file
        && not path.is_symlink
        && not (ltb (length (header_of path)) 4)
        && text_eq (take 4 (header_of path)) bflt_magic)
is_image-header path =
    let short : ltb (length path.content) 4 ≡ ltb (length (header_of path)) 4 =
      ground (arith, length-take header_size path.content) in
    rw (short, take-take 4 header_size path.content (omega arith))

validate_lem :
    (path : FileEntry)
    → validate path ≡ (if is_image path then check_header (header_of path) else ok false)
unfolding validate
validate_lem path = rw is_image-header (ground arith)

module _ (header : Text) where
  check_header-true : {valid : Bool} → check_header header ≡ ok valid → valid ≡ true
  unfolding check_header
  check_header-true h = ground arith

  checks :
      check_header header ≡ ok true
      → ((length header == header_size) ≡ true)
        × ((revision header == 4) ≡ true)
        × ((flags header % 2 == 1) ≡ true)
        × (ltb (entry header) header_size ≡ false)
        × (leb (data_start header) (entry header) ≡ false)
        × ((data_start header % pmp_granule == 0) ≡ true)
  unfolding check_header
  checks h = ground arith

check_header-IsSplittable :
    (content : Text) → check_header (take header_size content) ≡ ok true → IsSplittable content
check_header-IsSplittable content h =
    let (size, format, ram, entry, start, aligned) = checks (take header_size content) h in
    record {
      complete = ground (arith, length-take header_size content);
      format = (==_iff _ _).0 format;
      in_ram = (==_iff _ _).0 ram;
      entry_behind_header = ground arith;
      entry_in_text = ground arith;
      aligned = (==_iff _ _).0 aligned;
    }

IsSplittable-check_header :
    (content : Text) → IsSplittable content → check_header (take header_size content) ≡ ok true
unfolding check_header
IsSplittable-check_header content s =
    let size : length (take header_size content) ≡ header_size =
      omega (arith, s.complete, length-take header_size content) in
    rw (size, s.format, s.in_ram, s.aligned)
      (ground (arith, s.entry_behind_header, s.entry_in_text))

validate_passes :
    (path : FileEntry)
    → (is_image path ≡ true → IsSplittable path.content)
    → validate path ≡ ok (is_image path)
validate_passes path h = validate_lem path ∙ elim (Bool-cases (is_image path)) [
  | inl image ↦ rw image (IsSplittable-check_header path.content (h image))
  | inr other ↦ rw other
]

validate_result :
    (path : FileEntry) {valid : Bool}
    → validate path ≡ ok valid
    → (is_image path ≡ valid) × (is_image path ≡ true → IsSplittable path.content)
validate_result path {valid} h = elim (Bool-cases (is_image path)) [
  | inl image ↦
      let checked : check_header (header_of path) ≡ ok valid =
        rw image at (sym (validate_lem path) ∙ h) in
      let passed = check_header-true (header_of path) checked in
      (image ∙ sym passed, λ _. check_header-IsSplittable path.content (checked ∙ ap ok passed))
  | inr other ↦
      let skipped : ok false ≡ ok valid = rw other at (sym (validate_lem path) ∙ h) in
      (cc, λ image. cc)
]

-- How many images there are, and that each of them can be split.
abbrev pub images : List FileEntry → ℕ
images [] = 0
images (path ∷ rest) = (if is_image path then 1 else 0) + images rest

abbrev pub AllSplittable : List FileEntry → Type 0
AllSplittable = All (λ path. is_image path ≡ true → IsSplittable path.content)

count_valid-AllSplittable :
    (paths : List FileEntry) {n : ℕ}
    → count_valid paths ≡ ok n
    → AllSplittable paths × (images paths ≡ n)
unfolding count_valid
count_valid-AllSplittable [] h = (tt, ground arith)
count_valid-AllSplittable (path ∷ rest) h = elim (Result-cases (validate path)) [
  | inr (e, failed) ↦ absurd (ground arith)
  | inl (valid, here) ↦ elim (Result-cases (count_valid rest)) [
    | inr (e, failed) ↦ absurd (ground arith)
    | inl (others, there) ↦
        let (good, count) = count_valid-AllSplittable rest there in
        let (result, splittable) = validate_result path here in ((splittable, good), ground arith)
  ]
]

count_valid-images :
    (paths : List FileEntry) → AllSplittable paths → count_valid paths ≡ ok (images paths)
unfolding count_valid
count_valid-images [] good = refl
count_valid-images (path ∷ rest) good =
    rw (validate_passes path good.0, count_valid-images rest good.1)

-- The audit of a tree passes, with the number of its images, exactly when there is an image and
-- every image can be split at a granule.
pub audit-eq-ok :
    (paths : List FileEntry) (n : ℕ)
    → (audit paths ≡ ok n) ↔ (AllSplittable paths × (0 < n) × (images paths ≡ n))
unfolding audit
audit-eq-ok paths n =
    (passes, λ (good, some_images, count). rw (count_valid-images paths good) (ground arith))
  where
    passes : audit paths ≡ ok n → AllSplittable paths × (0 < n) × (images paths ≡ n)
    passes h = elim (Result-cases (count_valid paths)) [
      | inr (e, failed) ↦ absurd (ground arith)
      | inl (m, counted) ↦
          let (good, count) = count_valid-AllSplittable paths counted in
          (good, ground arith, ground arith)
    ]
