-- ===== src/Hardware/Rate.antt =====
-- `disconnect_progress_rate` of m9-hardware-test.py.
pub mod Progress
use micro_nux.Base.{
  ℕ, ◌+◌, ◌-◌, ◌==◌, Bool, true, false, not, ◌&&◌, Option, none, some, List, [], ◌∷◌, Text, codes,
  length, text_eq, leb, if◌then◌else◌, Result, ok, raise, raise_if, ◌>>=◌, ◌>>◌,
}
use micro_nux.Base.Floats.{difference, float_of, infinity, quotient_of, rounded, whole_units}
use micro_nux.Base.Regex.{Re, Found, ◌&◌, digits, find_all, lit, optional}
use micro_nux.Hardware.Phases.{diagnostics_phase_groups}
use micro_nux.Hardware.Samples.{Sample, frames}

-- The message that is returned, or the exception that the division of a great number by a double raises.
pub data RateProblem : Type 0 where
  uptime_count diagnostics_count : Text → ℕ → RateProblem
  uptime_order progress_order : Text → Text → RateProblem
  bad_progress_hz : Text → Text → Option ℕ → RateProblem
  overflow : RateProblem

abbrev seconds : Re
seconds = digits & optional (lit "." & digits)

-- `DISCONNECT_UPTIME_RE`
abbrev pub disconnect_uptime_re : Re
disconnect_uptime_re =
    Re.line_start
    & lit "MICRONUX:M9:USB-DISCONNECT:"
    & Re.group (
        Re.alt (lit "BEFORE-POSTHASH") (
          Re.alt (lit "BOUNDARY-PREHASH") (Re.alt (lit "BOUNDARY-POSTHASH") (lit "AFTER-PREHASH"))))
    & lit ":UPTIME "
    & Re.group seconds
    & lit " "
    & seconds
    & optional (lit "\r")
    & lit "\n"
    & Re.ahead (lit "abi=3 state=RUNTIME_REVEALED frames=")

-- The times of a phase.
unfoldable pub uptimes_of : Text → List Found → List ℕ
uptimes_of phase [] = []
uptimes_of phase ((shown ∷ uptime ∷ [], _) ∷ rest) =
    let others = uptimes_of phase rest in
    if text_eq shown phase then float_of uptime ∷ others else others
uptimes_of phase (_ ∷ rest) = uptimes_of phase rest

-- The groups of samples of a phase.
unfoldable pub groups_of : Text → List (Text × List Sample) → List (List Sample)
groups_of phase [] = []
groups_of phase ((shown, samples) ∷ rest) =
    let others = groups_of phase rest in if text_eq shown phase then samples ∷ others else others

abbrev pub phase_uptimes : Text → Text → List ℕ
phase_uptimes output phase = uptimes_of phase (find_all disconnect_uptime_re output)

abbrev pub phase_groups : Text → Text → List (List Sample)
phase_groups output phase = groups_of phase (diagnostics_phase_groups output)

-- `sum(len(samples) for samples in groups)`
unfoldable pub samples_in_all : List (List Sample) → ℕ
samples_in_all [] = 0
samples_in_all (samples ∷ rest) = length samples + samples_in_all rest

unfoldable pub only_uptime : Text → List ℕ → Result RateProblem ℕ
only_uptime phase (uptime ∷ []) = ok uptime
only_uptime phase uptimes = raise (uptime_count phase (length uptimes))

unfoldable pub only_group : Text → List (List Sample) → Result RateProblem Sample
only_group phase ((sample ∷ []) ∷ []) = ok sample
only_group phase groups = raise (diagnostics_count phase (samples_in_all groups))

-- `elapsed <= 0`, which does not hold of what is not a number.
unfoldable pub is_not_positive : Option ℕ → Bool
is_not_positive none = false
is_not_positive (some elapsed) = elapsed == 0

-- The comparison with MIN_DISCONNECT_PROGRESS_HZ and MAX_DISCONNECT_PROGRESS_HZ.
unfoldable pub check_hz : Text → Text → Option ℕ → Result RateProblem ℕ
check_hz start_phase end_phase none = raise (bad_progress_hz start_phase end_phase none)
check_hz start_phase end_phase (some hz) =
    if leb (whole_units 10) hz && leb hz (whole_units 25)
    then ok hz
    else raise (bad_progress_hz start_phase end_phase (some hz))

-- The rate, from the two times and the two counts of frames.
unfoldable pub rate_of : Text → Text → ℕ → ℕ → ℕ → ℕ → Result RateProblem ℕ
rate_of start_phase end_phase start_uptime end_uptime start_frames end_frames = do
  raise_if (is_not_positive (difference end_uptime start_uptime))
      (uptime_order start_phase end_phase)
  raise_if (leb end_frames start_frames) (progress_order start_phase end_phase)
  raise_if (rounded (whole_units (end_frames - start_frames)) 1 == infinity) overflow
  check_hz start_phase end_phase (
      quotient_of (rounded (whole_units (end_frames - start_frames)) 1)
        (difference end_uptime start_uptime))

unfoldable pub disconnect_progress_rate : Text → Text → Text → Text → Result RateProblem ℕ
disconnect_progress_rate start_output start_phase end_output end_phase = do
  start_uptime ← only_uptime start_phase (phase_uptimes start_output start_phase)
  end_uptime ← only_uptime end_phase (phase_uptimes end_output end_phase)
  start ← only_group start_phase (phase_groups start_output start_phase)
  finish ← only_group end_phase (phase_groups end_output end_phase)
  rate_of start_phase end_phase start_uptime end_uptime (start.count frames) (finish.count frames)
