-- ===== src/Tests/Pack.antt =====
-- Runs of m3-pack.py.
use micro_nux.Base.{ℕ, ◌≡◌, refl, [], ◌∷◌, Text, codes, ok, raise, arith, pos, some, text_eq}
use micro_nux.Base.Bytes.{le_at}
use micro_nux.Base.Numbers.{parse_int}
use micro_nux.Pack.{pack, read_image, memory_past_end, parse_address}
use micro_nux.Pack.Images.{IsImage, IsDeviceTree}
use micro_nux.Pack.Manifest.{Describes}
use micro_nux.Pack.Outcome.{pack-Describes, pack-eq-ok}

abbrev image : Text
image =
    0 ∷ 0 ∷ 0 ∷ 0 ∷ 0 ∷ 0 ∷ 0 ∷ 0 ∷ 0 ∷ 0 ∷ 0 ∷ 0 ∷ 0 ∷ 0 ∷ 0 ∷ 0 ∷ 0 ∷ 16 ∷ 0 ∷ 0 ∷ 0 ∷ 0 ∷ 0 ∷ 0
    ∷ 0 ∷ 0 ∷ 0 ∷ 0 ∷ 0 ∷ 0 ∷ 0 ∷ 0 ∷ 0 ∷ 0 ∷ 0 ∷ 0 ∷ 0 ∷ 0 ∷ 0 ∷ 0 ∷ 0 ∷ 0 ∷ 0 ∷ 0 ∷ 0 ∷ 0 ∷ 0 ∷ 0
    ∷ 82 ∷ 73 ∷ 83 ∷ 67 ∷ 86 ∷ 0 ∷ 0 ∷ 0 ∷ 0 ∷ 0 ∷ 0 ∷ 0 ∷ 0 ∷ 0 ∷ 0 ∷ 0 ∷ []

abbrev dtb : Text
dtb =
    208 ∷ 13 ∷ 254 ∷ 237 ∷ 0 ∷ 0 ∷ 0 ∷ 40 ∷ 0 ∷ 0 ∷ 0 ∷ 0 ∷ 0 ∷ 0 ∷ 0 ∷ 0 ∷ 0 ∷ 0 ∷ 0 ∷ 0 ∷ 0 ∷ 0
    ∷ 0 ∷ 0 ∷ 0 ∷ 0 ∷ 0 ∷ 0 ∷ 0 ∷ 0 ∷ 0 ∷ 0 ∷ 0 ∷ 0 ∷ 0 ∷ 0 ∷ 0 ∷ 0 ∷ 0 ∷ 0 ∷ []

abbrev limit : ℕ
limit = 0x49f0_0000

past_end : read_image image (pos 0x4840_0fff) ≡ raise memory_past_end
unfolding read_image text_eq
past_end = refl

boundary : parse_address (codes "0x49300000") ≡ some (pos 0x4930_0000)
unfolding parse_address parse_int
boundary = refl

image-IsImage : IsImage image 4096 limit
image-IsImage = record {
  header_room = omega arith;
  offset_zero = refl;
  memory_field = refl;
  magic_found = refl;
  holds_file = omega arith;
  ends_in_time = omega arith;
}

dtb-IsDeviceTree : IsDeviceTree dtb
dtb-IsDeviceTree = record { header_room = omega arith; magic_found = refl; size_field = refl }

pack-Describes_example :
    (manifest : Text) × (pack image dtb (pos limit) ≡ ok manifest)
    × Describes manifest image 4096 dtb
pack-Describes_example =
    pack-Describes image dtb limit 4096 (omega arith) (omega arith) image-IsImage dtb-IsDeviceTree

packed :
    (manifest : Text) × (pack image dtb (pos limit) ≡ ok manifest)
    × Describes manifest image 4096 dtb
packed =
    pack-Describes image dtb limit 4096 (omega arith) (omega arith) image-IsImage dtb-IsDeviceTree

pack-eq-ok_example :
    IsImage image (le_at 8 16 image) limit
    × IsDeviceTree dtb
    × Describes packed.0 image (le_at 8 16 image) dtb
pack-eq-ok_example = pack-eq-ok image dtb limit (omega arith) (omega arith) packed.1
