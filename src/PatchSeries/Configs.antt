-- ===== src/PatchSeries/Configs.antt =====
-- `validate_config_boundaries` and `main` (check-linux-patch-series.py).
use micro_nux.Base.{
  ◌≡◌, refl, ap, ◌∙◌, true, List, [], ◌∷◌, ◌++◌, Text, codes, length, All, ok, Result-cases, inl,
  inr, arith, ◌↔◌, Bool-cases, length-append,
}
use micro_nux.Base.Strings.{is_within, sorted, insert_sorted, text_le}
use micro_nux.PatchSeries.{
  Series, SourceFile, glob, is_isolation_config, token, check_config, check_configs,
  validate_config_boundaries, validate_series, Checkout, manifest,
}
use micro_nux.PatchSeries.Order.{
  patches_of, validate_series-eq-ok, manifest_lines, length-manifest_lines,
}

-- Every configuration applies the two common series, and the isolation series exactly if it is one
-- of the isolation configurations.
pub record IsConfig (config : SourceFile) : Type 0 where
  pub isolation_agrees :
      is_within (token Series.isolation) config.content ≡ is_isolation_config config.name
  pub has_platform : is_within (token Series.platform) config.content ≡ true
  pub has_peripherals : is_within (token Series.peripherals) config.content ≡ true

check_config-IsConfig : (config : SourceFile) → check_config config ≡ ok tt → IsConfig config
unfolding check_config
check_config-IsConfig config h = ground arith

IsConfig-check_config : (config : SourceFile) → IsConfig config → check_config config ≡ ok tt
unfolding check_config
IsConfig-check_config config c =
    rw (c.isolation_agrees, c.has_platform, c.has_peripherals) (ground arith)

check_configs-eq-ok :
    (configs : List SourceFile) → (check_configs configs ≡ ok tt) ↔ All IsConfig configs
unfolding check_configs
check_configs-eq-ok [] = (λ h. tt, λ h. refl)
check_configs-eq-ok (config ∷ rest) =
    let (forth, back) = check_configs-eq-ok rest in
    (
      λ h. (check_config-IsConfig config (ground arith), forth (ground arith)),
      λ (here, there). rw (IsConfig-check_config config here) (back there),
    )

-- Sorting keeps what holds of every item.
module _ {A : Type 0} (key : A → Text) (P : A → Type 0) where
  All-insert_sorted : (x : A) (xs : List A) → All P (insert_sorted key x xs) ↔ (P x × All P xs)
  unfolding insert_sorted
  All-insert_sorted x [] = (λ h. (h.0, tt), λ h. (h.0, tt))
  All-insert_sorted x (y ∷ ys) = elim (Bool-cases (text_le (key x) (key y))) [
    | inl first ↦ rw first (λ h. h, λ h. h)
    | inr later ↦
        let (out, into) = All-insert_sorted x ys in
        rw later (
          λ (here, there). ((out there).0, (here, (out there).1)),
          λ (new, (here, there)). (here, into (new, there)),
        )
  ]

  All-sorted : (xs : List A) → All P (sorted key xs) ↔ All P xs
  unfolding sorted
  All-sorted [] = (λ h. tt, λ h. tt)
  All-sorted (x ∷ xs) =
      let (forth, back) = All-sorted xs in
      let (out, into) = All-insert_sorted x (sorted key xs) in
      (λ h. ((out h).0, forth (out h).1), λ (here, there). into (here, back there))

-- `validate_config_boundaries` passes exactly when each `micronux_esp32p4*_defconfig` names the
-- platform and the peripheral series, and names the isolation series just if it is one of the
-- isolation configurations.
pub validate_config_boundaries-eq-ok :
    (files : List SourceFile)
    → (validate_config_boundaries files ≡ ok tt)
      ↔ All IsConfig (glob (codes "micronux_esp32p4") (codes "_defconfig") files)
unfolding validate_config_boundaries
validate_config_boundaries-eq-ok files =
    let (forth, back) = check_configs-eq-ok (
      sorted (λ (file : SourceFile). file.name)
        (glob (codes "micronux_esp32p4") (codes "_defconfig") files)) in
    let (out, into) =
      All-sorted (λ (file : SourceFile). file.name) IsConfig
        (glob (codes "micronux_esp32p4") (codes "_defconfig") files) in
    (λ h. out (forth h), λ h. back (into h))

-- A checkout passes exactly when the old directory has no patch, each series passes and the
-- configurations pass.
record Passes (tree : Checkout) (first second third : List Text) : Type 0 where
  no_legacy : length (glob [] (codes ".patch") tree.legacy) ≡ 0
  platform_passes : validate_series Series.platform tree.platform_files ≡ ok first
  peripherals_passes : validate_series Series.peripherals tree.peripherals_files ≡ ok second
  isolation_passes : validate_series Series.isolation tree.isolation_files ≡ ok third
  configs_pass : validate_config_boundaries tree.configs ≡ ok tt

manifest-Passes :
    (tree : Checkout) {lines : List Text}
    → manifest tree ≡ ok lines
    → (first : List Text) × (second : List Text) × (third : List Text) × Passes tree first second
        third
      × (lines ≡ first ++ (second ++ third))
unfolding manifest
manifest-Passes tree h = elim (Result-cases (validate_series Series.platform tree.platform_files)) [
  | inr (e, failed) ↦ absurd (ground arith)
  | inl (first, one) ↦
      elim (Result-cases (validate_series Series.peripherals tree.peripherals_files)) [
        | inr (e, failed) ↦ absurd (ground arith)
        | inl (second, two) ↦
            elim (Result-cases (validate_series Series.isolation tree.isolation_files)) [
              | inr (e, failed) ↦ absurd (ground arith)
              | inl (third, three) ↦ (
                first,
                second,
                third,
                record {
                  no_legacy = ground arith;
                  platform_passes = one;
                  peripherals_passes = two;
                  isolation_passes = three;
                  configs_pass = ground arith;
                },
                ground arith,
              )
            ]
      ]
]

-- A checkout that passes has 64 manifest lines: those of the 8 platform, 46 peripheral and 10
-- isolation patches, in this order. Its old directory has no patch, and its configurations pass.
pub manifest-series :
    (tree : Checkout) {lines : List Text}
    → manifest tree ≡ ok lines
    → (length (glob [] (codes ".patch") tree.legacy) ≡ 0)
      × (validate_config_boundaries tree.configs ≡ ok tt)
      × (length lines ≡ 64)
      × (lines
          ≡ manifest_lines Series.platform (patches_of tree.platform_files)
            ++ (manifest_lines Series.peripherals (patches_of tree.peripherals_files)
                ++ manifest_lines Series.isolation (patches_of tree.isolation_files)))
manifest-series tree {lines} h =
    let (first, second, third, p, same) = manifest-Passes tree h in
    let (one, _, first_lines) =
      (validate_series-eq-ok Series.platform tree.platform_files first).0 p.platform_passes in
    let (two, _, second_lines) =
      (validate_series-eq-ok Series.peripherals tree.peripherals_files second).0
        p.peripherals_passes in
    let (three, _, third_lines) =
      (validate_series-eq-ok Series.isolation tree.isolation_files third).0 p.isolation_passes in
    let joined : lines
        ≡ manifest_lines Series.platform (patches_of tree.platform_files)
          ++ (manifest_lines Series.peripherals (patches_of tree.peripherals_files)
              ++ manifest_lines Series.isolation (patches_of tree.isolation_files)) =
      same ∙ rw (first_lines, second_lines, third_lines) in
    (
      p.no_legacy,
      p.configs_pass,
      ap length joined
          ∙ omega (
            arith,
            one,
            two,
            three,
            length-manifest_lines Series.platform (patches_of tree.platform_files),
            length-manifest_lines Series.peripherals (patches_of tree.peripherals_files),
            length-manifest_lines Series.isolation (patches_of tree.isolation_files),
            length-append {0} (manifest_lines Series.platform (patches_of tree.platform_files)) (
                manifest_lines Series.peripherals (patches_of tree.peripherals_files)
                ++ manifest_lines Series.isolation (patches_of tree.isolation_files)),
            length-append {0}
                (manifest_lines Series.peripherals (patches_of tree.peripherals_files))
                (manifest_lines Series.isolation (patches_of tree.isolation_files)),
          ),
      joined,
    )
