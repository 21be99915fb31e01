-- ===== src/Tests/PatchSeries.antt =====
-- Runs of check-linux-patch-series.py.
use micro_nux.Base.{
  ℕ, zero, suc, ◌≡◌, refl, List, [], ◌∷◌, ◌++◌, Text, codes, ok, raise, text_eq, length, ◌↔◌, All,
}
use micro_nux.Base.Strings.{starts_with, ends_with, is_within, sorted, four_digits, number}
use micro_nux.PatchSeries.{
  Series, Checkout, SourceFile, glob, subject_of, check_patch, check_patches, validate_series,
  check_config, check_configs, validate_config_boundaries, manifest, Failure,
}
use micro_nux.PatchSeries.Order.{Numbered, patches_of, manifest_lines, validate_series-eq-ok}
use micro_nux.PatchSeries.Configs.{IsConfig, validate_config_boundaries-eq-ok, manifest-series}

-- A patch with its number in the name and in the subject.
abbrev patch : ℕ → Text → SourceFile
patch n total = record {
  name = four_digits n ++ codes "-change.patch";
  bytes = [];
  content =
      codes "From: x\nSubject: [PATCH "
      ++ (four_digits n
          ++ (codes "/" ++ (total ++ codes "] change\nSigned-off-by: x\ndiff --git a/f b/f\n")));
}

-- Listed from the last to the first.
patches : ℕ → Text → List SourceFile
patches zero total = []
patches (suc n) total = patch (suc n) total ∷ patches n total

abbrev config : SourceFile
config = record {
  name = codes "micronux_esp32p4_isolation_defconfig";
  bytes = [];
  content =
      codes
        "board/micronux/patches-platform board/micronux/patches-peripherals board/micronux/patches-isolation";
}

abbrev tree : Checkout
tree = record {
  legacy = [];
  platform_files = patches 8 (codes "8");
  peripherals_files = patches 46 (codes "46");
  isolation_files = patches 10 (codes "10");
  configs = config ∷ [];
}

abbrev lines : List Text
lines =
    manifest_lines Series.platform (patches_of tree.platform_files)
    ++ (manifest_lines Series.peripherals (patches_of tree.peripherals_files)
        ++ manifest_lines Series.isolation (patches_of tree.isolation_files))

passes : manifest tree ≡ ok lines
unfolding patches manifest validate_series check_patches check_patch subject_of number starts_with
    ends_with is_within text_eq glob sorted validate_config_boundaries check_configs check_config
passes = refl

short_series :
    validate_series Series.platform (patches 7 (codes "8"))
    ≡ raise (Failure.wrong_count Series.platform 7)
unfolding patches validate_series check_patches ends_with glob sorted starts_with
short_series = refl

validate_series-eq-ok_example :
    (validate_series Series.isolation (patches 10 (codes "10"))
      ≡ ok (manifest_lines Series.isolation (patches_of (patches 10 (codes "10")))))
    ↔ ((length (patches_of (patches 10 (codes "10"))) ≡ 10)
        × Numbered Series.isolation 1 (patches_of (patches 10 (codes "10")))
        × (manifest_lines Series.isolation (patches_of (patches 10 (codes "10")))
            ≡ manifest_lines Series.isolation (patches_of (patches 10 (codes "10")))))
validate_series-eq-ok_example = validate_series-eq-ok Series.isolation (patches 10 (codes "10")) _

validate_config_boundaries-eq-ok_example :
    (validate_config_boundaries (config ∷ []) ≡ ok tt)
    ↔ All IsConfig (glob (codes "micronux_esp32p4") (codes "_defconfig") (config ∷ []))
validate_config_boundaries-eq-ok_example = validate_config_boundaries-eq-ok (config ∷ [])

manifest-series_example :
    (length (glob [] (codes ".patch") tree.legacy) ≡ 0)
    × (validate_config_boundaries tree.configs ≡ ok tt)
    × (length lines ≡ 64)
    × (lines ≡ lines)
manifest-series_example = manifest-series tree passes
