-- ===== src/Hardware/Stress/Passed.antt =====
-- What a board has shown when `run_stress` (m9-hardware-test.py) returns 0.
use micro_nux.Base.{
  ℕ, ◌+◌, ◌≤◌, ◌≡◌, ◌↔◌, true, ltb, List, [], ◌∷◌, All, Text, codes, length, map, ok, raise_if,
  raise_if-false, both, arith,
}
use micro_nux.Base.Find.{Occurs}
use micro_nux.Base.Regex.{find_all, searches}
use micro_nux.Hardware.Contract.Health.{HealthyLog}
use micro_nux.Hardware.Framebuffer.{first_groups}
use micro_nux.Hardware.Framebuffer.Unchanged.{Unchanged}
use micro_nux.Hardware.Samples.{diagnostics_samples, scanout_samples}
use micro_nux.Hardware.Serial.{CommandResult, Outcome}
use micro_nux.Hardware.Preflight.{Stop, touch_line_re}
use micro_nux.Hardware.Preflight.Checks.{
  all_there, equals, same_texts, searched, stays_healthy, keeps_framebuffer,
}
use micro_nux.Hardware.Preflight.Passed.{Answers, step-Answers}
use micro_nux.Hardware.Stress.{
  Memory, check_loss, expected_stages, judge_stress, last_memory, required_markers, restored_re,
  run_stress, snapshot_re, stress_memories,
}
use micro_nux.Hardware.Stress.Commands.{stress_command}

-- From the first sample to the last at most 512 kilobytes are lost.
abbrev pub Kept : List Memory → Type 0
Kept [] = ⊥
Kept (before ∷ rest) =
    let after = last_memory before rest in
    (before.free ≤ after.free + 512) × (before.available ≤ after.available + 512)

at_most : (a b : ℕ) (e : Stop) → (raise_if (ltb b a) e ≡ ok tt) ↔ (a ≤ b)
at_most a b e =
    let (asks, passes) = raise_if-false (ltb b a) e in
    (λ h. let within = asks h in ground (arith, within), λ h. passes (ground (arith, h)))

check_loss-Kept : (samples : List Memory) → (check_loss samples ≡ ok tt) ↔ Kept samples
unfolding check_loss
check_loss-Kept [] = (λ h. cc, λ h. absurd h)
check_loss-Kept (before ∷ rest) =
    let after = last_memory before rest in
    both (at_most before.free (after.free + 512) _)
      (at_most before.available (after.available + 512) _)

abbrev pub Stressed : ℕ → CommandResult → Type 0
Stressed stress_cycles result =
    (result.return_code ≡ 0)
    × (Unchanged result.output (codes "stress-before" ∷ codes "stress-after" ∷ [])
        × ((first_groups (find_all snapshot_re result.output) ≡ expected_stages)
            × ((map (λ (m : Memory). m.stage) (stress_memories result.output) ≡ expected_stages)
                × (Kept (stress_memories result.output)
                    × (All (λ m. Occurs m result.output) (required_markers stress_cycles)
                        × ((searches restored_re result.output ≡ true)
                            × (HealthyLog result.output 7 true true
                                × ((length (diagnostics_samples result.output) ≡ 7)
                                    × ((length (scanout_samples result.output) ≡ 7)
                                        × (length (find_all touch_line_re result.output)
                                            ≡ 7))))))))))

judge_stress-Stressed :
    (stress_cycles : ℕ) (result : CommandResult)
    → (judge_stress stress_cycles result ≡ ok tt) ↔ Stressed stress_cycles result
unfolding judge_stress
judge_stress-Stressed stress_cycles result =
    let output = result.output in
    both (equals result.return_code 0 _) (
      both (keeps_framebuffer _ output _) (
        both (same_texts (first_groups (find_all snapshot_re output)) expected_stages _) (
          both
            (same_texts (map (λ (m : Memory). m.stage) (stress_memories output)) expected_stages _)
            (both (check_loss-Kept (stress_memories output)) (
              both (all_there _ (required_markers stress_cycles) output) (
                both (searched restored_re output _) (
                  both (stays_healthy _ output 7 true true) (
                    both (equals (length (diagnostics_samples output)) 7 _) (
                      both (equals (length (scanout_samples output)) 7 _)
                        (equals (length (find_all touch_line_re output)) 7 _))))))))))

-- `run_stress` returns 0 exactly if the board answers its command within 520 seconds by a result that shows
-- the workloads done and the display kept: it succeeds, the framebuffer is the same before and after, the
-- seven snapshots and the seven memory samples stand in order, from the first sample to the last at most 512
-- kilobytes of free and of available memory are lost, every marker of the workloads occurs, the
-- display is restored, healthy and makes progress, and there are seven diagnostics, scanout and touch lines.
pub run_stress-Stressed :
    (run : Text → Text → ℕ → Outcome CommandResult) (stress_cycles : ℕ)
    → (run_stress run stress_cycles ≡ ok tt)
      ↔ Answers run (stress_command stress_cycles) (codes "STRESS") 520_000 (Stressed stress_cycles)
unfolding run_stress
run_stress-Stressed run stress_cycles =
    step-Answers run (stress_command stress_cycles) (codes "STRESS") 520_000
      (judge_stress stress_cycles) (Stressed stress_cycles) (judge_stress-Stressed stress_cycles)
