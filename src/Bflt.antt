-- ===== src/Bflt.antt =====
-- scripts/check-bflt-wx.py: can every bFLT image of a tree be split at a PMP boundary?
pub mod Audit
use micro_nux.Base.{
  ℕ, ◌+◌, ◌%◌, Bool, true, false, not, ◌||◌, List, [], ◌∷◌, Text, codes, text_eq, length, take,
  drop, ltb, leb, ◌==◌, Result, ok, ◌>>=◌, ◌>>◌, raise_if, if◌then◌else◌,
}
use micro_nux.Base.Bytes.{be_at}

abbrev pub header_size : ℕ
header_size = 44

abbrev pub pmp_granule : ℕ
pmp_granule = 128

-- `FLAT_FLAG_RAM` is bit 0.
abbrev pub flat_flag_ram : ℕ → Bool
flat_flag_ram flags = flags % 2 == 1

abbrev pub bflt_magic : Text
bflt_magic = codes "bFLT"

-- A path of the tree: what the file system says of it.
pub record FileEntry : Type 0 where
  pub is_file : Bool
  pub is_symlink : Bool
  pub content : Text

-- The `ValueError`s by message.
pub data Error : Type 0 where
  truncated_header wrong_format invalid_boundary not_aligned no_images : Error

-- The fields of `struct.unpack(">10I", header[4:])` that are looked at, by their place in the file.
abbrev pub revision : Text → ℕ
revision = be_at 4 4

abbrev pub entry : Text → ℕ
entry = be_at 4 8

abbrev pub data_start : Text → ℕ
data_start = be_at 4 12

abbrev pub flags : Text → ℕ
flags = be_at 4 36

-- The checks on the header of an image.
unfoldable pub check_header : Text → Result Error Bool
check_header header = do
  raise_if (not (length header == header_size)) truncated_header
  raise_if (not (revision header == 4) || not (flat_flag_ram (flags header))) wrong_format
  raise_if (ltb (entry header) header_size || leb (data_start header) (entry header))
      invalid_boundary
  raise_if (not (data_start header % pmp_granule == 0)) not_aligned
  ok true

-- `True` for an image that passes, `False` for a file that is no bFLT image.
unfoldable pub validate : FileEntry → Result Error Bool
validate path =
    if not path.is_file || path.is_symlink
    then ok false
    else let header = take header_size path.content in
      if ltb (length header) 4 || not (text_eq (take 4 header) bflt_magic)
      then ok false
      else check_header header

-- `sum(validate(path) for path in ...)`
unfoldable pub count_valid : List FileEntry → Result Error ℕ
count_valid [] = ok 0
count_valid (path ∷ rest) = do
  valid ← validate path
  others ← count_valid rest
  ok ((if valid then 1 else 0) + others)

-- `main` over the paths of the tree: the number of images checked.
unfoldable pub audit : List FileEntry → Result Error ℕ
audit paths = do checked ← count_valid paths; raise_if (checked == 0) no_images; ok checked
