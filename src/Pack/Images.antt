-- ===== src/Pack/Images.antt =====
-- The inputs that `read_image` and `read_dtb` (m3-pack.py) accept.
use micro_nux.Base.{
  ℕ, ◌+◌, ◌≤◌, ◌≡◌, sym, true, ltb, text_eq, ◌==◌, Text, length, take, drop, text_eq→eq,
  text_eq_refl, ok, arith, pos, false,
}
use micro_nux.Base.Bytes.{le_at, be_at}
use micro_nux.Pack.{read_image, read_dtb, kernel_load_address, riscv_image_magic, fdt_magic}

-- A kernel that may be loaded: its header is right, and its memory holds the file and ends in time.
pub record IsImage (image : Text) (memory_size limit : ℕ) : Type 0 where
  pub header_room : 64 ≤ length image
  pub offset_zero : le_at 8 8 image ≡ 0
  pub memory_field : le_at 8 16 image ≡ memory_size
  pub magic_found : take 8 (drop 48 image) ≡ riscv_image_magic
  pub holds_file : length image ≤ memory_size
  pub ends_in_time : kernel_load_address + memory_size ≤ limit

image_checks :
    (image : Text) (limit : ℕ) {result : Text} {memory_size : ℕ}
    → read_image image (pos limit) ≡ ok (result, memory_size)
    → (ltb (length image) 64 ≡ false)
      × (text_eq (take 8 (drop 48 image)) riscv_image_magic ≡ true)
      × ((le_at 8 8 image == 0) ≡ true)
      × (ltb (le_at 8 16 image) (length image) ≡ false)
      × (ltb limit (kernel_load_address + le_at 8 16 image) ≡ false)
      × (result ≡ image)
      × (memory_size ≡ le_at 8 16 image)
unfolding read_image
image_checks image limit h = ground arith

pub read_image-IsImage :
    (image : Text) (limit : ℕ) {result : Text} {memory_size : ℕ}
    → read_image image (pos limit) ≡ ok (result, memory_size)
    → IsImage image memory_size limit × (result ≡ image)
read_image-IsImage image limit h =
    let (long, magic, offset, holds, ends, same, memory) = image_checks image limit h in
    (
      record {
        header_room = ground arith;
        offset_zero = ground arith;
        memory_field = sym memory;
        magic_found = text_eq→eq (take 8 (drop 48 image)) riscv_image_magic magic;
        holds_file = ground arith;
        ends_in_time = ground arith;
      },
      same,
    )

pub IsImage-read_image :
    (image : Text) (limit memory_size : ℕ)
    → IsImage image memory_size limit
    → read_image image (pos limit) ≡ ok (image, memory_size)
unfolding read_image
IsImage-read_image image limit memory_size v =
    rw (v.magic_found, text_eq_refl riscv_image_magic) (ground arith)

pub record IsDeviceTree (dtb : Text) : Type 0 where
  pub header_room : 40 ≤ length dtb
  pub magic_found : take 4 dtb ≡ fdt_magic
  pub size_field : be_at 4 4 dtb ≡ length dtb

pub read_dtb-IsDeviceTree :
    (dtb : Text) {result : Text} → read_dtb dtb ≡ ok result → IsDeviceTree dtb × (result ≡ dtb)
unfolding read_dtb
read_dtb-IsDeviceTree dtb h = ground (arith, text_eq→eq (take 4 dtb) fdt_magic)

pub IsDeviceTree-read_dtb : (dtb : Text) → IsDeviceTree dtb → read_dtb dtb ≡ ok dtb
unfolding read_dtb
IsDeviceTree-read_dtb dtb v = rw (v.magic_found, text_eq_refl fdt_magic) (ground arith)
