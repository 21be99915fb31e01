-- ===== src/Hardware/Payload.antt =====
-- `verify_boot_payload` of m9-hardware-test.py: the loader's report against the files that were built.
pub mod Verified
use micro_nux.Base.{
  ℕ, ◌+◌, Bool, not, ◌||◌, Option, none, some, List, [], ◌∷◌, Text, codes, text_eq, length, ltb,
  ◌==◌, Result, ok, raise, ◌>>=◌, ◌>>◌, raise_if, or_raise,
}
use micro_nux.Base.Bytes.{le_at}
use micro_nux.Base.Regex.{Re, Found, find_all, is_lower_hex, not_newline, lit, ◌&◌, number_after}
use micro_nux.Base.Sha256.{sha256}
use micro_nux.Base.Strings.{decimal, hex_text}

abbrev pub kernel_load_address : ℕ
kernel_load_address = 0x4840_0000

abbrev pub display_pool_address : ℕ
display_pool_address = 0x4930_0000

-- What is returned, by message.
pub data PayloadProblem : Type 0 where
  image_missing dtb_missing metadata_missing : PayloadProblem
  kernel_marker_count dtb_marker_count : ℕ → PayloadProblem
  kernel_size_mismatch kernel_memory_size_invalid kernel_memory_overlaps_display_pool :
      PayloadProblem
  dtb_size_mismatch metadata_size_mismatch metadata_payload_contract_mismatch : PayloadProblem
  metadata_memory_overlaps_display_pool kernel_sha256_mismatch dtb_sha256_mismatch : PayloadProblem

abbrev digest_after : Re
digest_after = lit " sha256=" & Re.group (Re.run is_lower_hex 64 (some 64))

abbrev kernel_re : Re
kernel_re =
    lit "MICRONUX:M3:KERNEL "
    & Re.run not_newline 0 none
    & number_after " file="
    & number_after " memory="
    & digest_after

abbrev dtb_re : Re
dtb_re = lit "MICRONUX:M3:DTB " & Re.run not_newline 0 none & number_after " size=" & digest_after

groups_of : List Found → List (List Text)
groups_of [] = []
groups_of ((groups, _) ∷ rest) = groups ∷ groups_of rest

-- The matches of the kernel's line, one of which there must be: file size, memory size and digest.
only_kernel : List (List Text) → Result PayloadProblem (ℕ × ℕ × Text)
only_kernel ((file ∷ memory ∷ digest ∷ []) ∷ []) = ok (decimal file, decimal memory, digest)
only_kernel matches = raise (kernel_marker_count (length matches))

only_dtb : List (List Text) → Result PayloadProblem (ℕ × Text)
only_dtb ((size ∷ digest ∷ []) ∷ []) = ok (decimal size, digest)
only_dtb matches = raise (dtb_marker_count (length matches))

unfoldable pub kernel_report : Text → Result PayloadProblem (ℕ × ℕ × Text)
unfolding groups_of only_kernel
kernel_report boot_log = only_kernel (groups_of (find_all kernel_re boot_log))

unfoldable pub dtb_report : Text → Result PayloadProblem (ℕ × Text)
unfolding groups_of only_dtb
dtb_report boot_log = only_dtb (groups_of (find_all dtb_re boot_log))

-- The words of the metadata against the report.
unfoldable pub check_metadata : Text → ℕ → ℕ → ℕ → Result PayloadProblem (Unit {0})
check_metadata metadata file_size memory_size dtb_size = do
  raise_if
      (not (le_at 4 0 metadata == 0x3358_4e4d)
        || not (le_at 4 4 metadata == 1)
        || not (le_at 4 8 metadata == 128)
        || not (le_at 4 12 metadata == 1)
        || not (le_at 4 16 metadata == kernel_load_address)
        || not (le_at 4 20 metadata == file_size)
        || not (le_at 4 24 metadata == memory_size)
        || not (le_at 4 28 metadata == dtb_size))
      metadata_payload_contract_mismatch
  raise_if (ltb display_pool_address (le_at 4 16 metadata + le_at 4 24 metadata))
      metadata_memory_overlaps_display_pool

-- The checks on the contents of the three files.
unfoldable pub verify_contents : Text → Text → Text → Text → Result PayloadProblem (Unit {0})
verify_contents boot_log image dtb metadata = do
  (file_size, memory_size, kernel_digest) ← kernel_report boot_log
  (dtb_size, dtb_digest) ← dtb_report boot_log
  raise_if (not (file_size == length image)) kernel_size_mismatch
  raise_if (ltb memory_size file_size) kernel_memory_size_invalid
  raise_if (ltb display_pool_address (kernel_load_address + memory_size))
      kernel_memory_overlaps_display_pool
  raise_if (not (dtb_size == length dtb)) dtb_size_mismatch
  raise_if (not (length metadata == 128)) metadata_size_mismatch
  check_metadata metadata file_size memory_size dtb_size
  raise_if (not (text_eq kernel_digest (hex_text (sha256 image)))) kernel_sha256_mismatch
  raise_if (not (text_eq dtb_digest (hex_text (sha256 dtb)))) dtb_sha256_mismatch

-- `artifact_dir` is the contents of its three files, where they are there. `None` is `ok`.
unfoldable pub verify_boot_payload :
    Text → Option Text → Option Text → Option Text → Result PayloadProblem (Unit {0})
verify_boot_payload boot_log image_file dtb_file metadata_file = do
  image ← or_raise image_file image_missing
  dtb ← or_raise dtb_file dtb_missing
  metadata ← or_raise metadata_file metadata_missing
  verify_contents boot_log image dtb metadata
