-- ===== src/Hardware/Phases.antt =====
-- `diagnostics_phase_groups` and `diagnostics_phase_problem` of m9-hardware-test.py.
pub mod Steps
use micro_nux.Base.{
  ℕ, ◌-◌, Bool, true, false, not, ◌&&◌, Option, none, some, List, [], ◌∷◌, ◌++◌, Text, codes,
  length, take, text_eq, ltb, leb, ◌||◌, ◌==◌, map, Result, ok, raise, ◌>>=◌, ◌>>◌, raise_if,
}
use micro_nux.Base.Regex.{Re, Found, find_all, lit, ◌&◌}
use micro_nux.Hardware.Contract.{is_nonzero}
use micro_nux.Hardware.Samples.{
  Counter, Sample, diagnostics_samples, line_break, arm_to_irq_over20ms, fifo_irq_zero,
  fifo_poll_zero,
}

-- `[A-Z0-9-]`
abbrev is_phase_character : ℕ → Bool
is_phase_character c = (leb b'A' c && leb c b'Z') || (leb b'0' c && leb c b'9') || c == b'-'

-- `DIAGNOSTICS_PHASE_RE`, with the whole match as the last group.
abbrev phase_re : Re
phase_re = Re.group (
    Re.line_start
    & lit "MICRONUX:M9:DIAGNOSTICS phase="
    & Re.group (Re.run is_phase_character 1 none)
    & line_break)

-- The phase of a marker, the marker's text, and the output behind it.
abbrev Mark : Type 0
Mark = Text × Text × Text

marks_of : List Found → List Mark
marks_of [] = []
marks_of ((phase ∷ whole ∷ [], behind) ∷ rest) = (phase, whole, behind.rest) ∷ marks_of rest
marks_of (_ ∷ rest) = marks_of rest

-- The samples between a marker and the start of the next one, or the end of the output.
unfoldable pub groups_of_marks : List Mark → List (Text × List Sample)
groups_of_marks [] = []
groups_of_marks ((phase, whole, behind) ∷ []) = (phase, diagnostics_samples behind) ∷ []
groups_of_marks ((phase, whole, behind) ∷ (next, next_whole, next_behind) ∷ rest) =
    (phase, diagnostics_samples (take (length behind - length (next_whole ++ next_behind)) behind))
    ∷ groups_of_marks ((next, next_whole, next_behind) ∷ rest)

unfoldable pub diagnostics_phase_groups : Text → List (Text × List Sample)
unfolding marks_of
diagnostics_phase_groups output = groups_of_marks (marks_of (find_all phase_re output))

-- What is returned, by message.
pub data PhaseProblem : Type 0 where
  phase_order : PhaseProblem
  phase_count : Text → ℕ → PhaseProblem
  phase_poll_zero phase_over_20ms : Text → PhaseProblem
  step_regressed : Text → Text → Counter → PhaseProblem
  step_increased : Text → Text → PhaseProblem

unfoldable pub texts_eq : List Text → List Text → Bool
texts_eq [] [] = true
texts_eq [] (t ∷ ts) = false
texts_eq (s ∷ ss) [] = false
texts_eq (s ∷ ss) (t ∷ ts) = text_eq s t && texts_eq ss ts

only_sample : Text → List Sample → Result PhaseProblem Sample
only_sample phase (sample ∷ []) = ok sample
only_sample phase samples = raise (phase_count phase (length samples))

-- The loop over the groups: one sample for each.
unfoldable pub single_samples :
    List (Text × List Sample) → Result PhaseProblem (List (Text × Sample))
unfolding only_sample
single_samples [] = ok []
single_samples ((phase, samples) ∷ rest) = do
  sample ← only_sample phase samples
  raise_if (is_nonzero sample fifo_poll_zero) (phase_poll_zero phase)
  others ← single_samples rest
  ok ((phase, sample) ∷ others)

-- `current[counter] < previous[counter]`
abbrev pub falls : Counter → Sample → Sample → Bool
falls key previous current = ltb (current.count key) (previous.count key)

-- The loop over the neighbours.
unfoldable pub check_steps : Text → Sample → List (Text × Sample) → Result PhaseProblem (Unit {0})
check_steps previous_phase previous [] = ok tt
check_steps previous_phase previous ((phase, current) ∷ rest) = do
  raise_if (falls arm_to_irq_over20ms previous current)
      (step_regressed previous_phase phase arm_to_irq_over20ms)
  raise_if (falls fifo_irq_zero previous current)
      (step_regressed previous_phase phase fifo_irq_zero)
  raise_if (falls fifo_poll_zero previous current)
      (step_regressed previous_phase phase fifo_poll_zero)
  raise_if (not (current.count arm_to_irq_over20ms == previous.count arm_to_irq_over20ms))
      (step_increased previous_phase phase)
  check_steps phase current rest

unfoldable pub check_samples : List (Text × Sample) → Result PhaseProblem (Unit {0})
check_samples [] = ok tt
check_samples ((phase, sample) ∷ rest) = do
  raise_if (is_nonzero sample arm_to_irq_over20ms) (phase_over_20ms phase)
  check_steps phase sample rest

unfoldable pub check_groups : List (Text × List Sample) → List Text → Result PhaseProblem (Unit {0})
check_groups groups expected_phases = do
  raise_if (not (texts_eq (map (λ (g : Text × List Sample). g.0) groups) expected_phases))
      phase_order
  samples ← single_samples groups
  check_samples samples

-- `None` is `ok`.
unfoldable pub diagnostics_phase_problem : Text → List Text → Result PhaseProblem (Unit {0})
diagnostics_phase_problem output expected_phases =
    check_groups (diagnostics_phase_groups output) expected_phases
