-- ===== src/Pack.antt =====
-- scripts/m3-pack.py: checks on the Linux Image and the device tree, and the loader's manifest.
pub mod Manifest
pub mod Images
pub mod Outcome
use mathlib.Core.List.{append_assoc}
use micro_nux.Base.{
  ℕ, ◌+◌, ◌*◌, Bool, true, false, not, ◌||◌, Option, List, [], ◌∷◌, ◌++◌, Text, codes, text_eq,
  length, take, drop, replicate, ltb, ◌==◌, Result, ok, ◌>>=◌, ◌>>◌, raise_if, or_raise, ℤ, pos,
  negsuc,
}
use micro_nux.Base.Bytes.{le_at, be_at, pack_fields}
use micro_nux.Base.Crc32.{crc32}
use micro_nux.Base.Numbers.{parse_int}
use micro_nux.Base.Sha256.{sha256}

abbrev pub manifest_magic : ℕ
manifest_magic = 0x3358_4e4d

abbrev pub manifest_abi : ℕ
manifest_abi = 1

abbrev pub manifest_size : ℕ
manifest_size = 128

abbrev pub manifest_flag_dtb : ℕ
manifest_flag_dtb = 1

abbrev pub kernel_load_address : ℕ
kernel_load_address = 0x4840_0000

abbrev pub comms_reserve_address : ℕ
comms_reserve_address = 0x49f0_0000

abbrev pub riscv_image_magic : Text
riscv_image_magic = codes "RISCV" ++ (0 ∷ 0 ∷ 0 ∷ [])

abbrev pub fdt_magic : Text
fdt_magic = 0xd0 ∷ 0x0d ∷ 0xfe ∷ 0xed ∷ []

-- The `ValueError`s by message, the failed `assert` on the payload and `struct.error`.
pub data Error : Type 0 where
  image_too_short no_image_magic text_offset_not_zero memory_below_file memory_past_end : Error
  not_a_device_tree dtb_size_mismatch manifest_assertion struct_error : Error

-- `int(value, 0)` of the command line's boundary: `none` is argparse's rejection.
unfoldable pub parse_address : Text → Option ℤ
parse_address value = parse_int value

-- `n > boundary`, where the boundary may be any integer.
abbrev pub is_past : ℕ → ℤ → Bool
is_past n (pos m) = ltb m n
is_past n (negsuc m) = true

unfoldable pub read_image : Text → ℤ → Result Error (Text × ℕ)
read_image image max_memory_end = do
  raise_if (ltb (length image) 64) image_too_short
  let text_offset = le_at 8 8 image
  let memory_size = le_at 8 16 image
  raise_if (not (text_eq (take 8 (drop 48 image)) riscv_image_magic)) no_image_magic
  raise_if (not (text_offset == 0)) text_offset_not_zero
  raise_if (ltb memory_size (length image)) memory_below_file
  raise_if (is_past (kernel_load_address + memory_size) max_memory_end) memory_past_end
  ok (image, memory_size)

unfoldable pub read_dtb : Text → Result Error Text
read_dtb dtb = do
  raise_if (ltb (length dtb) 40 || not (text_eq (take 4 dtb) fdt_magic)) not_a_device_tree
  let declared_size = be_at 4 4 dtb
  raise_if (not (declared_size == length dtb)) dtb_size_mismatch
  ok dtb

unfoldable pub make_manifest : Text → ℕ → Text → Result Error Text
make_manifest image memory_size dtb = do
  prefix ←
      or_raise
        (pack_fields (
          (4, manifest_magic)
          ∷ (4, manifest_abi)
          ∷ (4, manifest_size)
          ∷ (4, manifest_flag_dtb)
          ∷ (4, kernel_load_address)
          ∷ (4, length image)
          ∷ (4, memory_size)
          ∷ (4, length dtb)
          ∷ []))
        struct_error
  let payload = prefix ++ (sha256 image ++ (sha256 dtb ++ replicate (7 * 4) 0))
  raise_if (not (length payload == 124)) manifest_assertion
  checksum ← or_raise (pack_fields ((4, crc32 payload) ∷ [])) struct_error
  ok (payload ++ checksum)

-- What `main` writes to the output, from the bytes of the two inputs and the boundary.
unfoldable pub pack : Text → Text → ℤ → Result Error Text
pack image_bytes dtb_bytes max_memory_end = do
  (image, memory_size) ← read_image image_bytes max_memory_end
  dtb ← read_dtb dtb_bytes
  make_manifest image memory_size dtb
