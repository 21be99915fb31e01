-- ===== src/Hardware/Payload/Verified.antt =====
-- What `verify_boot_payload` (m9-hardware-test.py) shows of a board, and what m3-pack.py gives it.
use micro_nux.Base.{
  ℕ, ◌+◌, ◌≤◌, ◌≡◌, refl, ◌↔◌, true, Option, none, some, Text, text_eq, text_eq_refl, text_eq→eq,
  length, ok, Result-cases, inl, inr, arith, pos, All, subst,
}
use mathlib.Core.Option.{some-injective}
use micro_nux.Base.Bytes.{le_at, IsByte}
use micro_nux.Base.Sha256.{sha256}
use micro_nux.Base.Strings.{hex_text}
use micro_nux.Hardware.Payload.{
  kernel_load_address, display_pool_address, kernel_report, dtb_report, check_metadata,
  verify_contents, verify_boot_payload,
}
use micro_nux.Pack.{pack}
use micro_nux.Pack.Outcome.{pack-eq-ok}

-- The metadata that the loader was given for files of such sizes.
pub record MetadataFor (metadata : Text) (file_size memory_size dtb_size : ℕ) : Type 0 where
  pub magic : le_at 4 0 metadata ≡ 0x3358_4e4d
  pub abi : le_at 4 4 metadata ≡ 1
  pub size : le_at 4 8 metadata ≡ 128
  pub flags : le_at 4 12 metadata ≡ 1
  pub load : le_at 4 16 metadata ≡ kernel_load_address
  pub file : le_at 4 20 metadata ≡ file_size
  pub memory : le_at 4 24 metadata ≡ memory_size
  pub tree : le_at 4 28 metadata ≡ dtb_size

-- The loader has reported the files at hand, once.
pub record Verified (boot_log image dtb metadata : Text) : Type 0 where
  pub memory_size : ℕ
  pub kernel : kernel_report boot_log ≡ ok (length image, memory_size, hex_text (sha256 image))
  pub tree : dtb_report boot_log ≡ ok (length dtb, hex_text (sha256 dtb))
  pub spans : length image ≤ memory_size
  pub below_pool : kernel_load_address + memory_size ≤ display_pool_address
  pub metadata_size : length metadata ≡ 128
  pub described : MetadataFor metadata (length image) memory_size (length dtb)

check_metadata-MetadataFor :
    (metadata : Text) (file_size memory_size dtb_size : ℕ)
    → kernel_load_address + memory_size ≤ display_pool_address
    → (check_metadata metadata file_size memory_size dtb_size ≡ ok tt)
      ↔ MetadataFor metadata file_size memory_size dtb_size
unfolding check_metadata
check_metadata-MetadataFor metadata file_size memory_size dtb_size below = (
  λ h. record {
    magic = ground arith;
    abi = ground arith;
    size = ground arith;
    flags = ground arith;
    load = ground arith;
    file = ground arith;
    memory = ground arith;
    tree = ground arith;
  },
  λ m. rw (m.magic, m.abi, m.size, m.flags, m.load, m.file, m.memory, m.tree) (ground arith),
)

verify_contents-Verified :
    (boot_log image dtb metadata : Text)
    → verify_contents boot_log image dtb metadata ≡ ok tt
    → Verified boot_log image dtb metadata
unfolding verify_contents
verify_contents-Verified boot_log image dtb metadata h =
    elim (Result-cases (kernel_report boot_log)) [
      | inr (e, failed) ↦ absurd (ground arith)
      | inl ((file_size, memory_size, kernel_digest), reported) ↦
          elim (Result-cases (dtb_report boot_log)) [
            | inr (e, failed) ↦ absurd (ground arith)
            | inl ((dtb_size, dtb_digest), reported_tree) ↦
                let same_size : file_size ≡ length image = ground arith in
                let same_tree : dtb_size ≡ length dtb = ground arith in
                let below : kernel_load_address + memory_size ≤ display_pool_address =
                  ground arith in
                let checked : check_metadata metadata file_size memory_size dtb_size ≡ ok tt =
                  ground arith in
                let same_digest : text_eq kernel_digest (hex_text (sha256 image)) ≡ true =
                  ground arith in
                let tree_digest : text_eq dtb_digest (hex_text (sha256 dtb)) ≡ true =
                  ground arith in
                let digest = text_eq→eq _ _ same_digest in
                let digest_tree = text_eq→eq _ _ tree_digest in
                record {
                  memory_size = memory_size;
                  kernel = cc;
                  tree = cc;
                  spans = ground arith;
                  below_pool = below;
                  metadata_size = ground arith;
                  described =
                      subst (λ (sizes : ℕ × ℕ). MetadataFor metadata sizes.0 memory_size sizes.1)
                        (cc)
                        ((check_metadata-MetadataFor metadata file_size memory_size dtb_size
                            below).0
                          checked);
                }
          ]
    ]

Verified-verify_contents :
    (boot_log image dtb metadata : Text)
    → Verified boot_log image dtb metadata
    → verify_contents boot_log image dtb metadata ≡ ok tt
unfolding verify_contents
Verified-verify_contents boot_log image dtb metadata v =
    let checked =
      (check_metadata-MetadataFor metadata (length image) v.memory_size (length dtb) v.below_pool).1
        v.described in
    rw
      (
        v.kernel,
        v.tree,
        checked,
        text_eq_refl (hex_text (sha256 image)),
        text_eq_refl (hex_text (sha256 dtb)),
      )
      (ground arith)

-- The three files are there, with these contents, and are what the loader has reported.
abbrev pub VerifiedFiles : Text → Option Text → Option Text → Option Text → Type 0
VerifiedFiles boot_log image_file dtb_file metadata_file =
    (image dtb metadata : Text) × (image_file ≡ some image)
    × (dtb_file ≡ some dtb)
    × (metadata_file ≡ some metadata)
    × Verified boot_log image dtb metadata

-- verify_boot_payload returns None exactly if the three files are there, the boot log has one report
-- of a kernel and one of a device tree, with the sizes and the digests of the files, the kernel's
-- memory ends below the display pool, and the metadata states the same sizes.
pub verify_boot_payload-VerifiedFiles :
    (boot_log : Text) (image_file dtb_file metadata_file : Option Text)
    → (verify_boot_payload boot_log image_file dtb_file metadata_file ≡ ok tt)
      ↔ VerifiedFiles boot_log image_file dtb_file metadata_file
unfolding verify_boot_payload
verify_boot_payload-VerifiedFiles boot_log none d m = (λ h. cc, λ (i, t, w, e, f, g, v). cc)
verify_boot_payload-VerifiedFiles boot_log (some image) none m =
    (λ h. cc, λ (i, t, w, e, f, g, v). cc)
verify_boot_payload-VerifiedFiles boot_log (some image) (some dtb) none =
    (λ h. cc, λ (i, t, w, e, f, g, v). cc)
verify_boot_payload-VerifiedFiles boot_log (some image) (some dtb) (some metadata) = (
  λ h. (
    image,
    dtb,
    metadata,
    refl,
    refl,
    refl,
    verify_contents-Verified boot_log image dtb metadata h,
  ),
  λ (i, t, w, e, f, g, v).
      rw (some-injective _ _ e, some-injective _ _ f, some-injective _ _ g)
        (Verified-verify_contents boot_log i t w v),
)

-- An Image and a device tree of bytes that m3-pack.py has packed with the display pool as the boundary
-- pass verify_boot_payload with the manifest that it has made, if
-- the loader reports their sizes, the memory size of the Image's header and their digests.
pub pack-verify_boot_payload :
    (boot_log image dtb : Text) {metadata : Text}
    → All IsByte dtb
    → pack image dtb (pos display_pool_address) ≡ ok metadata
    → kernel_report boot_log ≡ ok (length image, le_at 8 16 image, hex_text (sha256 image))
    → dtb_report boot_log ≡ ok (length dtb, hex_text (sha256 dtb))
    → verify_boot_payload boot_log (some image) (some dtb) (some metadata) ≡ ok tt
pack-verify_boot_payload boot_log image dtb {metadata} are_bytes packed kernel tree =
    let (good, good_tree, d) =
      pack-eq-ok image dtb display_pool_address (omega arith) are_bytes packed in
    let described : MetadataFor metadata (length image) (le_at 8 16 image) (length dtb) = record {
      magic = d.magic;
      abi = d.abi;
      size = d.declared_size;
      flags = d.flags;
      load = d.load_address;
      file = d.image_size;
      memory = d.memory_span;
      tree = d.dtb_size;
    } in
    let v : Verified boot_log image dtb metadata = record {
      memory_size = le_at 8 16 image;
      kernel = kernel;
      tree = tree;
      spans = good.holds_file;
      below_pool = good.ends_in_time;
      metadata_size = d.size;
      described = described;
    } in
    (verify_boot_payload-VerifiedFiles boot_log (some image) (some dtb) (some metadata)).1
      (image, dtb, metadata, refl, refl, refl, v)
