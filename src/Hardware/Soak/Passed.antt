-- ===== src/Hardware/Soak/Passed.antt =====
-- What a board has shown when `run_soak` (m9-hardware-test.py) returns 0.
use micro_nux.Base.{
  ◌==◌, ◌≢◌, raise_if, raise_if-false, arith, ℕ, ◌+◌, ◌*◌, ◌≡◌, ◌↔◌, true, false, Text, codes,
  length, ok, both,
}
use micro_nux.Base.Regex.{find_all}
use micro_nux.Base.Strings.{numbers_from}
use micro_nux.Hardware.Contract.Health.{HealthyLog}
use micro_nux.Hardware.Framebuffer.Unchanged.{Unchanged}
use micro_nux.Hardware.Samples.{diagnostics_samples, scanout_samples}
use micro_nux.Hardware.Serial.{CommandResult, Outcome}
use micro_nux.Hardware.Preflight.{Stop, touch_line_re}
use micro_nux.Hardware.Preflight.Checks.{equals, same_texts, stays_healthy, keeps_framebuffer}
use micro_nux.Hardware.Preflight.Passed.{Answers, step-Answers}
use micro_nux.Hardware.Soak.{
  judge_soak, run_soak, samples_in, shown, soak_phases, soak_sample_re, soak_shell_re,
  soak_status_re,
}
use micro_nux.Hardware.Soak.Commands.{soak_command}

-- Every sample from 0 on is shown once and in order, with a responsive shell, a display that reveals the
-- framebuffer, the same framebuffer, and a healthy display that makes progress.
abbrev pub Soaked : ℕ → CommandResult → Type 0
Soaked count soak =
    (soak.return_code ≡ 0)
    × ((shown soak_sample_re soak.output ≡ numbers_from 0 count)
        × ((shown soak_shell_re soak.output ≡ numbers_from 0 count)
            × (Unchanged soak.output (soak_phases count)
                × ((shown soak_status_re soak.output ≡ numbers_from 0 count)
                    × ((length (diagnostics_samples soak.output) ≡ count)
                        × ((length (scanout_samples soak.output) ≡ count)
                            × ((length (find_all touch_line_re soak.output) ≡ count)
                                × HealthyLog soak.output count false true)))))))

judge_soak-Soaked :
    (count : ℕ) (soak : CommandResult) → (judge_soak count soak ≡ ok tt) ↔ Soaked count soak
unfolding judge_soak
judge_soak-Soaked count soak = both (equals soak.return_code 0 _) (
    both (same_texts (shown soak_sample_re soak.output) _ _) (
      both (same_texts (shown soak_shell_re soak.output) _ _) (
        both (keeps_framebuffer _ soak.output _) (
          both (same_texts (shown soak_status_re soak.output) _ _) (
            both (equals (length (diagnostics_samples soak.output)) count _) (
              both (equals (length (scanout_samples soak.output)) count _) (
                both (equals (length (find_all touch_line_re soak.output)) count _)
                  (stays_healthy _ soak.output count false true))))))))

not_zero : (n : ℕ) (e : Stop) → (raise_if (n == 0) e ≡ ok tt) ↔ (n ≢ 0)
not_zero n e =
    let (asks, passes) = raise_if-false (n == 0) e in
    (
      λ h zero. let differs = asks h in ground (arith, differs, zero),
      λ h. passes (ground (arith, h)),
    )

-- `run_soak` returns 0 exactly if the time between samples is not 0, and the board answers its command, with a
-- minute more than the soak, by a result that shows `soak_seconds // sample_seconds + 1` samples: their lines,
-- their shells and their statuses with the indices from 0 on in order, as many diagnostics, scanout and touch
-- lines, a framebuffer that is the same in all, and a healthy display that makes progress.
pub run_soak-Soaked :
    (run : Text → Text → ℕ → Outcome CommandResult) (soak_seconds sample_seconds : ℕ)
    → let count = samples_in soak_seconds sample_seconds in
      (run_soak run soak_seconds sample_seconds ≡ ok tt) ↔ (
        (sample_seconds ≢ 0)
        × Answers run
            (soak_command sample_seconds count)
            (codes "SOAK")
            (soak_seconds * 1000 + 60_000)
            (Soaked count))
unfolding run_soak
run_soak-Soaked run soak_seconds sample_seconds =
    let count = samples_in soak_seconds sample_seconds in
    both (not_zero sample_seconds _) (
      step-Answers run (soak_command sample_seconds count) (codes "SOAK")
        (soak_seconds * 1000 + 60_000) (judge_soak count) (Soaked count) (judge_soak-Soaked count))
