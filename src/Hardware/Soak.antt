-- ===== src/Hardware/Soak.antt =====
-- `run_soak` of m9-hardware-test.py.
pub mod Commands
pub mod Passed
use micro_nux.Base.{
  ℕ, ◌+◌, ◌*◌, ◌/◌, ◌++◌, not, true, false, List, [], ◌∷◌, Text, codes, ◌==◌, length, map, Result,
  ok, raise, raise_if, ◌>>=◌, ◌>>◌,
}
use micro_nux.Base.Regex.{Re, ◌&◌, digits, find_all, lit, number_after}
use micro_nux.Base.Strings.{numbers_from}
use micro_nux.Hardware.Contract.{display_health_problem}
use micro_nux.Hardware.Framebuffer.{first_groups, framebuffer_hash_problem}
use micro_nux.Hardware.Phases.{texts_eq}
use micro_nux.Hardware.Samples.{diagnostics_samples, line_break, scanout_samples}
use micro_nux.Hardware.Serial.{CommandResult, Outcome}
use micro_nux.Hardware.Preflight.{
  Detail, Stop, failed, health, return_code, sample_count, shell_count, status_state, step, stop_at,
  stop_hashes, touch_line_re, touch_sample_count, zero_division,
}
use micro_nux.Hardware.Soak.Commands.{soak_command}

-- The lines that each sample prints, with its index as a group.
abbrev pub soak_sample_re : Re
soak_sample_re = Re.line_start & number_after "MICRONUX:M9:SOAK-SAMPLE index=" & line_break

abbrev pub soak_shell_re : Re
soak_shell_re =
    Re.line_start & number_after "MICRONUX:M9:SOAK-SHELL state=responsive index=" & line_break

abbrev pub soak_status_re : Re
soak_status_re =
    Re.line_start
    & number_after "MICRONUX:M9:SOAK-STATUS index="
    & lit
        " pattern=framebuffer boot_ready=1 native_state=RUNTIME_REVEALED brightness=63 bl_power=0 actual_brightness=63"
    & line_break

-- `re.findall` of a line with one group.
abbrev pub shown : Re → Text → List Text
shown pattern output = first_groups (find_all pattern output)

-- The phases of the framebuffer's hashes.
abbrev pub soak_phases : ℕ → List Text
soak_phases count = map (λ index. codes "soak-" ++ index) (numbers_from 0 count)

unfoldable pub judge_soak : ℕ → CommandResult → Result Stop (Unit {0})
judge_soak count soak = do
  raise_if (not (soak.return_code == 0)) (failed (codes "soak") (return_code soak.return_code))
  raise_if (not (texts_eq (shown soak_sample_re soak.output) (numbers_from 0 count)))
      (failed (codes "soak") sample_count)
  raise_if (not (texts_eq (shown soak_shell_re soak.output) (numbers_from 0 count)))
      (failed (codes "soak") shell_count)
  stop_hashes (codes "soak-framebuffer") (framebuffer_hash_problem soak.output (soak_phases count))
  raise_if (not (texts_eq (shown soak_status_re soak.output) (numbers_from 0 count)))
      (failed (codes "soak") status_state)
  raise_if (not (length (diagnostics_samples soak.output) == count))
      (failed (codes "soak-diagnostics") sample_count)
  raise_if (not (length (scanout_samples soak.output) == count))
      (failed (codes "soak-scanout") sample_count)
  raise_if (not (length (find_all touch_line_re soak.output) == count))
      (failed (codes "soak-touch") touch_sample_count)
  stop_at (codes "soak-health") health (display_health_problem soak.output count false true)

-- `soak_seconds // sample_seconds + 1`, for a divisor that is not 0.
abbrev pub samples_in : ℕ → ℕ → ℕ
samples_in soak_seconds sample_seconds = soak_seconds / sample_seconds + 1

unfoldable pub run_soak : (Text → Text → ℕ → Outcome CommandResult) → ℕ → ℕ → Result Stop (Unit {0})
run_soak run soak_seconds sample_seconds =
    let count = samples_in soak_seconds sample_seconds in
    raise_if (sample_seconds == 0) zero_division
    >> step run (soak_command sample_seconds count) (codes "SOAK") (soak_seconds * 1000 + 60_000)
        (judge_soak count)
