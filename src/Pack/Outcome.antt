-- ===== src/Pack/Outcome.antt =====
-- The result of `main` (m3-pack.py).
use micro_nux.Base.{
  ℕ, ◌^◌, ◌≤◌, ◌<◌, ◌≡◌, [], ◌∷◌, Text, length, take, drop, All, All-take, All-drop, length-take,
  ok, arith, pos, subst, sym, Result-cases, inl, inr,
}
use micro_nux.Base.Bytes.{IsByte, le_at, be_value}
use micro_nux.Pack.{pack, read_image, read_dtb}
use micro_nux.Pack.Images.{
  IsImage, IsDeviceTree, IsImage-read_image, IsDeviceTree-read_dtb, read_image-IsImage,
  read_dtb-IsDeviceTree,
}
use micro_nux.Pack.Manifest.{
  Describes, manifest_of, make_manifest-manifest_of, manifest_of-Describes,
}

be_value-lt : (bs : Text) → All IsByte bs → length bs ≤ 4 → be_value bs < 2 ^ 32
be_value-lt [] h fits = omega arith
be_value-lt (a ∷ []) h fits = omega arith
be_value-lt (a ∷ b ∷ []) h fits = omega arith
be_value-lt (a ∷ b ∷ c ∷ []) h fits = omega arith
be_value-lt (a ∷ b ∷ c ∷ d ∷ []) h fits = omega arith
be_value-lt (a ∷ b ∷ c ∷ d ∷ e ∷ bs) h fits = absurd (omega arith)

small_dtb : (dtb : Text) → All IsByte dtb → IsDeviceTree dtb → length dtb < 2 ^ 32
small_dtb dtb h tree =
    subst (λ n. n < 2 ^ 32) tree.size_field
      (be_value-lt (take 4 (drop 4 dtb)) (All-take IsByte 4 _ (All-drop IsByte 4 dtb h))
        (omega (arith, length-take 4 (drop 4 dtb))))

-- With a boundary of at most 2 ^ 32, an Image and a device tree of bytes that pass the checks are
-- packed: no field overflows, the assertion on the payload holds, and the manifest describes both inputs.
pub pack-Describes :
    (image dtb : Text) (limit memory_size : ℕ)
    → limit ≤ 2 ^ 32
    → All IsByte dtb
    → IsImage image memory_size limit
    → IsDeviceTree dtb
    → (manifest : Text) × (pack image dtb (pos limit) ≡ ok manifest)
      × Describes manifest image memory_size dtb
unfolding pack
pack-Describes image dtb limit memory_size low are_bytes good tree =
    let span : memory_size < 2 ^ 32 = omega (arith, good.ends_in_time) in
    let small : length image < 2 ^ 32 = omega (arith, good.holds_file) in
    let tree_size = small_dtb dtb are_bytes tree in
    (
      manifest_of image memory_size dtb,
      rw (
        IsImage-read_image image limit memory_size good,
        IsDeviceTree-read_dtb dtb tree,
        make_manifest-manifest_of image memory_size dtb small span tree_size,
      ),
      manifest_of-Describes image memory_size dtb small span tree_size,
    )

pack_cases :
    (image dtb : Text) (limit : ℕ) {manifest : Text}
    → pack image dtb (pos limit) ≡ ok manifest
    → IsImage image (le_at 8 16 image) limit × IsDeviceTree dtb
unfolding pack
pack_cases image dtb limit h = elim (Result-cases (read_image image (pos limit))) [
  | inr (e, failed) ↦ absurd (ground arith)
  | inl ((result, memory_size), read) ↦ elim (Result-cases (read_dtb dtb)) [
    | inr (e, failed) ↦ absurd (ground arith)
    | inl (tree, read_tree) ↦
        let good = (read_image-IsImage image limit read).0 in
        (
          subst (λ n. IsImage image n limit) (sym good.memory_field) good,
          (read_dtb-IsDeviceTree dtb read_tree).0,
        )
  ]
]

-- With a boundary of at most 2 ^ 32 and a device tree of bytes `pack` returns a manifest only for inputs
-- that pass every check, with the
-- memory span that the Image's header declares, and the manifest describes them.
pub pack-eq-ok :
    (image dtb : Text) (limit : ℕ) {manifest : Text}
    → limit ≤ 2 ^ 32
    → All IsByte dtb
    → pack image dtb (pos limit) ≡ ok manifest
    → IsImage image (le_at 8 16 image) limit
      × IsDeviceTree dtb
      × Describes manifest image (le_at 8 16 image) dtb
pack-eq-ok image dtb limit {manifest} low are_bytes h =
    let (good, tree) = pack_cases image dtb limit h in
    let (found, packed, describes) = pack-Describes image dtb limit _ low are_bytes good tree in
    let same : found ≡ manifest = cc in
    (good, tree, subst (λ m. Describes m image (le_at 8 16 image) dtb) same describes)
