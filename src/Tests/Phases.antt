-- ===== src/Tests/Phases.antt =====
-- Runs of `diagnostics_phase_problem` (m9-hardware-test.py).
use micro_nux.Base.{◌≡◌, ◌↔◌, refl, [], ◌∷◌, ◌++◌, List, Text, codes, ok, raise, text_eq}
use micro_nux.Base.Regex.{find_all}
use micro_nux.Base.Strings.{number}
use micro_nux.Hardware.Samples.{diagnostics_samples}
use micro_nux.Hardware.Phases.{
  diagnostics_phase_groups, groups_of_marks, texts_eq, single_samples, check_steps, check_samples,
  check_groups, diagnostics_phase_problem, phase_count,
}
use micro_nux.Hardware.Phases.Steps.{PhasesPass, diagnostics_phase_problem-PhasesPass}

abbrev diagnostics_line : Text
diagnostics_line =
    codes
      "abi=3 state=RUNTIME_REVEALED frames=160 faults=00000000 error=00000000 host-errors=00000000:00000000 underruns=0 buffers=3 front=0 queued=-1 back=1 rearm=5/0 flips=4/4 generation=6 commit=6 guards=ok guard-errors=0 policy=ok arm-to-irq-ns=100/200 arm-to-irq-over20ms=0 rearm-ns=10/20 fifo-irq=100/100/0 fifo-poll=90/80/0 bridge-filler=00000000 bridge-misc=00003201 i2c=active-serialized physical-panel-state=unobserved\r\n"

abbrev run : Text
run =
    codes "MICRONUX:M9:DIAGNOSTICS phase=BEFORE\r\n"
    ++ (diagnostics_line ++ (codes "MICRONUX:M9:DIAGNOSTICS phase=AFTER-2\r\n" ++ diagnostics_line))

abbrev phases : List Text
phases = codes "BEFORE" ∷ codes "AFTER-2" ∷ []

run_passes : diagnostics_phase_problem run phases ≡ ok tt
unfolding diagnostics_phase_problem diagnostics_phase_groups groups_of_marks texts_eq single_samples
    check_steps check_samples check_groups diagnostics_samples find_all number text_eq
run_passes = refl

empty_phase :
    diagnostics_phase_problem
      (run ++ codes "MICRONUX:M9:DIAGNOSTICS phase=END\r\n")
      (codes "BEFORE" ∷ codes "AFTER-2" ∷ codes "END" ∷ [])
    ≡ raise (phase_count (codes "END") 0)
unfolding diagnostics_phase_problem diagnostics_phase_groups groups_of_marks texts_eq single_samples
    check_steps check_samples check_groups diagnostics_samples find_all number text_eq
empty_phase = refl

diagnostics_phase_problem-PhasesPass_example :
    (diagnostics_phase_problem run phases ≡ ok tt) ↔ PhasesPass run phases
diagnostics_phase_problem-PhasesPass_example = diagnostics_phase_problem-PhasesPass run phases
