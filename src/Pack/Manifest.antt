-- ===== src/Pack/Manifest.antt =====
-- The manifest of `make_manifest` (m3-pack.py).
use mathlib.Core.List.{append_assoc}
use micro_nux.Base.{
  ℕ, ◌+◌, ◌^◌, ◌<◌, ◌≡◌, refl, sym, ap, ◌∙◌, List, [], ◌∷◌, ◌++◌, Text, length, take, drop,
  replicate, ok, arith, length-append, take-append, drop-append, drop-drop,
}
use micro_nux.Base.Bytes.{le_at, le_value, field_bytes, pack_fields-field_bytes, le_value-le_bytes}
use micro_nux.Base.Crc32.{crc32, crc32-lt}
use micro_nux.Base.Sha256.{sha256, length-sha256}
use micro_nux.Pack.{make_manifest, kernel_load_address, manifest_magic}

-- What a loader finds in a manifest: the layout of 128 bytes, with its own checksum.
pub record Describes (manifest image : Text) (memory_size : ℕ) (dtb : Text) : Type 0 where
  pub size : length manifest ≡ 128
  pub magic : le_at 4 0 manifest ≡ manifest_magic
  pub abi : le_at 4 4 manifest ≡ 1
  pub declared_size : le_at 4 8 manifest ≡ 128
  pub flags : le_at 4 12 manifest ≡ 1
  pub load_address : le_at 4 16 manifest ≡ kernel_load_address
  pub image_size : le_at 4 20 manifest ≡ length image
  pub memory_span : le_at 4 24 manifest ≡ memory_size
  pub dtb_size : le_at 4 28 manifest ≡ length dtb
  pub image_digest : take 32 (drop 32 manifest) ≡ sha256 image
  pub dtb_digest : take 32 (drop 64 manifest) ≡ sha256 dtb
  pub reserved : take 28 (drop 96 manifest) ≡ replicate 28 0
  pub checksum : le_at 4 124 manifest ≡ crc32 (take 124 manifest)

-- The parts of a text of 32, 32, 32, 28 and 4 bytes.
module _ (head first second zeros tail : Text) (h0 : length head ≡ 32) (h1 : length first ≡ 32)
    (h2 : length second ≡ 32) (h3 : length zeros ≡ 28) where
  whole : Text
  whole = head ++ (first ++ (second ++ zeros)) ++ tail

  behind_head : drop 32 whole ≡ first ++ (second ++ (zeros ++ tail))
  unfolding whole
  behind_head = rw (append_assoc, append_assoc, append_assoc) (drop-append 32 head _ (sym h0))

  behind_first : drop 64 whole ≡ second ++ (zeros ++ tail)
  behind_first =
      sym (drop-drop 32 32 64 whole refl)
      ∙ ap (drop 32) behind_head
      ∙ drop-append 32 first _ (sym h1)

  behind_second : drop 96 whole ≡ zeros ++ tail
  behind_second =
      sym (drop-drop 32 64 96 whole refl)
      ∙ ap (drop 32) behind_first
      ∙ drop-append 32 second _ (sym h2)

  behind_zeros : drop 124 whole ≡ tail
  behind_zeros =
      sym (drop-drop 28 96 124 whole refl)
      ∙ ap (drop 28) behind_second
      ∙ drop-append 28 zeros _ (sym h3)

  record Parts : Type 0 where
    part_one : take 32 (drop 32 whole) ≡ first
    part_two : take 32 (drop 64 whole) ≡ second
    part_three : take 28 (drop 96 whole) ≡ zeros
    part_four : drop 124 whole ≡ tail
    front : take 124 whole ≡ head ++ (first ++ (second ++ zeros))
    size : length whole ≡ 124 + length tail

  parts : Parts
  parts = record {
    part_one = rw behind_head (take-append 32 first _ (sym h1));
    part_two = rw behind_first (take-append 32 second _ (sym h2));
    part_three = rw behind_second (take-append 28 zeros _ (sym h3));
    part_four = behind_zeros;
    front =
        unfold whole in
        take-append 124 (head ++ (first ++ (second ++ zeros))) tail (omega (arith, front_size));
    size =
        unfold whole in
        omega (arith, front_size, length-append {0} (head ++ (first ++ (second ++ zeros))) tail);
  }
    where
      front_size : length (head ++ (first ++ (second ++ zeros))) ≡ 124
      front_size = omega (
        arith,
        length-append {0} head (first ++ (second ++ zeros)),
        length-append {0} first (second ++ zeros),
        length-append {0} second zeros,
      )

module _ (image : Text) (memory_size : ℕ) (dtb : Text) where
  abbrev fields : List (ℕ × ℕ)
  fields =
      (4, manifest_magic)
      ∷ (4, 1)
      ∷ (4, 128)
      ∷ (4, 1)
      ∷ (4, kernel_load_address)
      ∷ (4, length image)
      ∷ (4, memory_size)
      ∷ (4, length dtb)
      ∷ []

  abbrev digests : Text
  digests = sha256 image ++ (sha256 dtb ++ replicate 28 0)

  abbrev payload : Text
  payload = field_bytes fields ++ digests

  abbrev pub manifest_of : Text
  manifest_of = payload ++ field_bytes ((4, crc32 payload) ∷ [])

  length-digests : length digests ≡ 92
  length-digests = omega (
    arith,
    length-append {0} (sha256 image) (sha256 dtb ++ replicate 28 0),
    length-append {0} (sha256 dtb) (replicate 28 0),
    length-sha256 image,
    length-sha256 dtb,
  )

  module _ (small_image : length image < 2 ^ 32) (small_span : memory_size < 2 ^ 32)
      (small_dtb : length dtb < 2 ^ 32) where
    pub make_manifest-manifest_of : make_manifest image memory_size dtb ≡ ok manifest_of
    unfolding make_manifest
    make_manifest-manifest_of = rw (
      pack_fields-field_bytes fields (omega arith),
      length-digests,
      pack_fields-field_bytes ((4, crc32 payload) ∷ []) (omega (arith, crc32-lt payload)),
    )

    pub manifest_of-Describes : Describes manifest_of image memory_size dtb
    unfolding whole
    manifest_of-Describes =
        let tail = field_bytes ((4, crc32 payload) ∷ []) in
        let p =
          parts (field_bytes fields) (sha256 image) (sha256 dtb) (replicate 28 0) tail refl
            (length-sha256 image) (length-sha256 dtb) refl in
        record {
          size = p.size;
          magic = omega arith;
          abi = omega arith;
          declared_size = omega arith;
          flags = omega arith;
          load_address = omega arith;
          image_size = omega arith;
          memory_span = omega arith;
          dtb_size = omega arith;
          image_digest = p.part_one;
          dtb_digest = p.part_two;
          reserved = p.part_three;
          checksum =
              ap (λ s. le_value (take 4 s)) p.part_four
              ∙ le_value-le_bytes 4 (crc32 payload) (crc32-lt payload)
              ∙ ap crc32 (sym p.front);
        }
