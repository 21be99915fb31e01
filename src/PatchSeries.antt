-- ===== src/PatchSeries.antt =====
-- scripts/check-linux-patch-series.py: the order and form of the three Linux patch series, and which
-- configurations may apply the isolation series.
pub mod Order
pub mod Configs
use micro_nux.Base.{
  ℕ, zero, suc, ◌+◌, Bool, true, false, not, ◌&&◌, ◌||◌, Option, none, some, List, [], ◌∷◌, ◌++◌,
  map, Text, codes, text_eq, length, ◌==◌, Result, ok, raise, ◌>>=◌, ◌>>◌, raise_if, or_raise,
  if◌then◌else◌,
}
use micro_nux.Base.Regex.{Re, Found, search, digits, lit, ◌&◌}
use micro_nux.Base.Sha256.{sha256}
use micro_nux.Base.Strings.{
  starts_with, ends_with, is_within, sorted, join, four_digits, decimal, hex_text,
}

pub data Series : Type 0 where
  platform peripherals isolation : Series

-- `SERIES`, by name and count.
abbrev pub series_name : Series → Text
series_name Series.platform = codes "patches-platform"
series_name Series.peripherals = codes "patches-peripherals"
series_name Series.isolation = codes "patches-isolation"

abbrev pub series_count : Series → ℕ
series_count Series.platform = 8
series_count Series.peripherals = 46
series_count Series.isolation = 10

-- A file: its name, its bytes, and what `read_text` makes of them.
pub record SourceFile : Type 0 where
  pub name : Text
  pub bytes : Text
  pub content : Text

-- What `fail` is called with: the message's parts.
pub data Failure : Type 0 where
  legacy_directory : Failure
  wrong_count : Series → ℕ → Failure
  wrong_order : Series → Text → ℕ → Failure
  no_subject wrong_index wrong_total no_signoff no_diff : Series → Text → Failure
  missing_isolation leaked_isolation : Text → Failure
  missing_required : Text → Text → Failure

-- `^Subject: \[PATCH (\d+)/(\d+)\] ` under MULTILINE.
abbrev subject_re : Re
subject_re =
    Re.line_start & lit "Subject: [PATCH " & Re.group digits & lit "/" & Re.group digits & lit "] "

-- The two numbers of the first subject line.
unfoldable pub subject_of : Text → Option (ℕ × ℕ)
unfolding search
subject_of content = elim (search subject_re content) [
  | some (index ∷ total ∷ [], _) ↦ some (decimal index, decimal total)
  | _ ↦ none
]

-- One round of the loop: the patch at an index, and its line of the manifest.
unfoldable pub check_patch : Series → ℕ → SourceFile → Result Failure Text
check_patch s index patch = do
  raise_if (not (starts_with patch.name (four_digits index ++ codes "-")))
      (Failure.wrong_order s patch.name index)
  (number, total) ← or_raise (subject_of patch.content) (Failure.no_subject s patch.name)
  raise_if (not (number == index)) (Failure.wrong_index s patch.name)
  raise_if (not (total == series_count s)) (Failure.wrong_total s patch.name)
  raise_if (not (is_within (codes "Signed-off-by:") patch.content))
      (Failure.no_signoff s patch.name)
  raise_if (not (is_within (codes "diff --git a/") patch.content)) (Failure.no_diff s patch.name)
  ok (
      series_name s
      ++ (codes "/linux/" ++ (patch.name ++ (codes " " ++ hex_text (sha256 patch.bytes)))))

-- The loop over `enumerate(patches, 1)`.
unfoldable pub check_patches : Series → ℕ → List SourceFile → Result Failure (List Text)
check_patches s index [] = ok []
check_patches s index (patch ∷ rest) = do
  line ← check_patch s index patch
  lines ← check_patches s (index + 1) rest
  ok (line ∷ lines)

-- `directory.glob(pattern)` with a fixed beginning and end.
unfoldable pub glob : Text → Text → List SourceFile → List SourceFile
glob front back [] = []
glob front back (file ∷ files) =
    let rest = glob front back files in
    if starts_with file.name front && ends_with file.name back then file ∷ rest else rest

-- `validate_series` on the files of the series' directory.
unfoldable pub validate_series : Series → List SourceFile → Result Failure (List Text)
validate_series s files = do
  let patches = sorted (λ (file : SourceFile). file.name) (glob [] (codes ".patch") files)
  raise_if (not (length patches == series_count s)) (Failure.wrong_count s (length patches))
  check_patches s 1 patches

-- `ISOLATION_CONFIGS`
abbrev pub is_isolation_config : Text → Bool
is_isolation_config name =
    text_eq name (codes "micronux_esp32p4_isolation_defconfig")
    || text_eq name (codes "micronux_esp32p4_gui_foundation_defconfig")

abbrev pub token : Series → Text
token s = codes "board/micronux/" ++ series_name s

unfoldable pub check_config : SourceFile → Result Failure (Unit {0})
check_config config = do
  let has_isolation = is_within (token Series.isolation) config.content
  raise_if (is_isolation_config config.name && not has_isolation)
      (Failure.missing_isolation config.name)
  raise_if (not (is_isolation_config config.name) && has_isolation)
      (Failure.leaked_isolation config.name)
  raise_if (not (is_within (token Series.platform) config.content))
      (Failure.missing_required config.name (series_name Series.platform))
  raise_if (not (is_within (token Series.peripherals) config.content))
      (Failure.missing_required config.name (series_name Series.peripherals))

unfoldable pub check_configs : List SourceFile → Result Failure (Unit {0})
check_configs [] = ok tt
check_configs (config ∷ rest) = check_config config >> check_configs rest

-- `validate_config_boundaries` on the files of the configurations' directory.
unfoldable pub validate_config_boundaries : List SourceFile → Result Failure (Unit {0})
validate_config_boundaries files = check_configs (
    sorted (λ (file : SourceFile). file.name)
      (glob (codes "micronux_esp32p4") (codes "_defconfig") files))

-- The directories that `main` reads. `legacy` are the files of the old monolithic directory.
pub record Checkout : Type 0 where
  pub legacy : List SourceFile
  pub platform_files : List SourceFile
  pub peripherals_files : List SourceFile
  pub isolation_files : List SourceFile
  pub configs : List SourceFile

-- `main`: the hash of the manifest that is printed.
unfoldable pub manifest : Checkout → Result Failure (List Text)
manifest tree = do
  raise_if (not (length (glob [] (codes ".patch") tree.legacy) == 0)) Failure.legacy_directory
  first ← validate_series Series.platform tree.platform_files
  second ← validate_series Series.peripherals tree.peripherals_files
  third ← validate_series Series.isolation tree.isolation_files
  validate_config_boundaries tree.configs
  ok (first ++ (second ++ third))

unfoldable pub manifest_hash : List Text → Text
manifest_hash lines = hex_text (sha256 (join (10 ∷ []) lines ++ (10 ∷ [])))
