-- ===== src/Tests/Payload.antt =====
-- Runs of `verify_boot_payload` (m9-hardware-test.py).
use micro_nux.Base.{◌≡◌, ◌↔◌, refl, some, [], ◌∷◌, Text, codes, ok, arith, pos, length}
use micro_nux.Base.Bytes.{le_at}
use micro_nux.Base.Regex.{find_all}
use micro_nux.Base.Sha256.{sha256}
use micro_nux.Base.Strings.{hex_text, number}
use micro_nux.Pack.{pack}
use micro_nux.Pack.Images.{IsImage, IsDeviceTree}
use micro_nux.Pack.Manifest.{Describes}
use micro_nux.Pack.Outcome.{pack-Describes}
use micro_nux.Hardware.Payload.{
  display_pool_address, kernel_report, dtb_report, verify_boot_payload,
}
use micro_nux.Hardware.Payload.Verified.{
  VerifiedFiles, verify_boot_payload-VerifiedFiles, pack-verify_boot_payload,
}

abbrev image : Text
image =
    0 ∷ 0 ∷ 0 ∷ 0 ∷ 0 ∷ 0 ∷ 0 ∷ 0 ∷ 0 ∷ 0 ∷ 0 ∷ 0 ∷ 0 ∷ 0 ∷ 0 ∷ 0 ∷ 0 ∷ 16 ∷ 0 ∷ 0 ∷ 0 ∷ 0 ∷ 0 ∷ 0
    ∷ 0 ∷ 0 ∷ 0 ∷ 0 ∷ 0 ∷ 0 ∷ 0 ∷ 0 ∷ 0 ∷ 0 ∷ 0 ∷ 0 ∷ 0 ∷ 0 ∷ 0 ∷ 0 ∷ 0 ∷ 0 ∷ 0 ∷ 0 ∷ 0 ∷ 0 ∷ 0 ∷ 0
    ∷ 82 ∷ 73 ∷ 83 ∷ 67 ∷ 86 ∷ 0 ∷ 0 ∷ 0 ∷ 0 ∷ 0 ∷ 0 ∷ 0 ∷ 0 ∷ 0 ∷ 0 ∷ 0 ∷ []

abbrev dtb : Text
dtb =
    208 ∷ 13 ∷ 254 ∷ 237 ∷ 0 ∷ 0 ∷ 0 ∷ 40 ∷ 0 ∷ 0 ∷ 0 ∷ 0 ∷ 0 ∷ 0 ∷ 0 ∷ 0 ∷ 0 ∷ 0 ∷ 0 ∷ 0 ∷ 0 ∷ 0
    ∷ 0 ∷ 0 ∷ 0 ∷ 0 ∷ 0 ∷ 0 ∷ 0 ∷ 0 ∷ 0 ∷ 0 ∷ 0 ∷ 0 ∷ 0 ∷ 0 ∷ 0 ∷ 0 ∷ 0 ∷ 0 ∷ []

-- The loader's report of the two files.
abbrev boot_log : Text
boot_log =
    codes
      "MICRONUX:M3:KERNEL state=ready file=64 memory=4096 sha256=d8ee280740e2bdef59689436498977427c34e5fe098b1df4008693099d177984\r\nMICRONUX:M3:DTB state=ready size=40 sha256=d2265036ff98cbcaeac9f2282abfcf47fb3da0e980f4a3871e64f9c6c6e4cb77\r\n"

image-IsImage : IsImage image 4096 display_pool_address
image-IsImage = record {
  header_room = omega arith;
  offset_zero = refl;
  memory_field = refl;
  magic_found = refl;
  holds_file = omega arith;
  ends_in_time = omega arith;
}

dtb-IsDeviceTree : IsDeviceTree dtb
dtb-IsDeviceTree = record { header_room = omega arith; magic_found = refl; size_field = refl }

packed :
    (metadata : Text) × (pack image dtb (pos display_pool_address) ≡ ok metadata)
    × Describes metadata image 4096 dtb
packed =
    pack-Describes image dtb display_pool_address 4096 (omega arith) (omega arith) image-IsImage
      dtb-IsDeviceTree

kernel_reported :
    kernel_report boot_log ≡ ok (length image, le_at 8 16 image, hex_text (sha256 image))
unfolding kernel_report find_all number hex_text sha256
kernel_reported = refl

dtb_reported : dtb_report boot_log ≡ ok (length dtb, hex_text (sha256 dtb))
unfolding dtb_report find_all number hex_text sha256
dtb_reported = refl

pack-verify_boot_payload_example :
    verify_boot_payload boot_log (some image) (some dtb) (some packed.0) ≡ ok tt
pack-verify_boot_payload_example =
    pack-verify_boot_payload boot_log image dtb (omega arith) packed.1 kernel_reported dtb_reported

verify_boot_payload-VerifiedFiles_example :
    (verify_boot_payload boot_log (some image) (some dtb) (some packed.0) ≡ ok tt)
    ↔ VerifiedFiles boot_log (some image) (some dtb) (some packed.0)
verify_boot_payload-VerifiedFiles_example =
    verify_boot_payload-VerifiedFiles boot_log (some image) (some dtb) (some packed.0)
