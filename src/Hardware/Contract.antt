-- ===== src/Hardware/Contract.antt =====
-- `scanout_contract_problem`, `diagnostics_contract_problem` and `display_health_problem`.
pub mod Checks
pub mod Roles
pub mod Scanout
pub mod Diagnostics
pub mod Health
use micro_nux.Base.{
  ℕ, zero, suc, Bool, true, false, not, ◌&&◌, ◌||◌, Option, none, some, List, [], ◌∷◌, Text, length,
  ltb, leb, ◌==◌, if◌then◌else◌, ℤ, pos, negsuc,
}
use micro_nux.Hardware.{max_rearm_ns, failure_marker}
use micro_nux.Hardware.Samples.{
  Counter, Role, Sample, front, queued, back, before, after, frames, error, underruns, chen, faults,
  host0, host1, buffers, rearms, rearm_failures, flip_requests, flip_completions, generation,
  commit, guard_errors, arm_to_irq_over20ms, rearm_max, fifo_irq_zero, fifo_poll_zero,
  bridge_filler, bridge_misc, scanout_samples, diagnostics_samples,
}

-- The problems by message, less the prefix that names the contract.
pub data Problem : Type 0 where
  contract_count : ℕ → ℕ → Problem
  frame_stalled health_nonzero buffer_count front_back_role queued_role : Problem
  rearm_counter progress_counter runtime_counter over_20ms rearm_latency : Problem
  poll_zero filler misc flip_counter generation_counter commit_counter : Problem
  regressed : Counter → Problem
  flip_not_observed progress_not_observed : Problem

-- Tests in order, each with what is returned if it holds.
abbrev pub Checks : Type 0
Checks = List (Bool × Problem)

unfoldable pub first_failing : Checks → Option Problem
first_failing [] = none
first_failing ((test, problem) ∷ rest) = if test then some problem else first_failing rest

-- `if values[key]`
abbrev pub is_nonzero : Sample → Counter → Bool
is_nonzero values key = not (values.count key == 0)

-- `z in range(3)`, and equality of roles.
abbrev pub in_range3 : ℤ → Bool
in_range3 (pos n) = ltb n 3
in_range3 (negsuc n) = false

abbrev pub role_eq : ℤ → ℤ → Bool
role_eq (pos m) (pos n) = m == n
role_eq (pos m) (negsuc n) = false
role_eq (negsuc m) (pos n) = false
role_eq (negsuc m) (negsuc n) = m == n

-- `front not in range(3) or back not in range(3) or front == back`
unfoldable pub bad_front_back : Sample → Bool
bad_front_back values =
    not (in_range3 (values.role front))
    || not (in_range3 (values.role back))
    || role_eq (values.role front) (values.role back)

-- `queued != -1 and (queued not in range(3) or len({front, queued, back}) != 3)`
unfoldable pub bad_queued : Sample → Bool
bad_queued values =
    not (role_eq (values.role queued) (negsuc 0))
    && (not (in_range3 (values.role queued))
        || role_eq (values.role front) (values.role queued)
        || role_eq (values.role front) (values.role back)
        || role_eq (values.role queued) (values.role back))

-- The checks of one round of `scanout_contract_problem` on the sample alone.
abbrev pub scanout_checks : Sample → Checks
scanout_checks values =
    (leb (values.count after) (values.count before), frame_stalled)
    ∷ (
      is_nonzero values error
          || is_nonzero values underruns
          || not (values.count chen == 1)
          || is_nonzero values faults
          || is_nonzero values host0
          || is_nonzero values host1
          || is_nonzero values guard_errors,
      health_nonzero,
    )
    ∷ (not (values.count buffers == 3), buffer_count)
    ∷ (bad_front_back values, front_back_role)
    ∷ (bad_queued values, queued_role)
    ∷ (ltb (values.count rearms) 1 || is_nonzero values rearm_failures, rearm_counter)
    ∷ (is_nonzero values arm_to_irq_over20ms, over_20ms)
    ∷ (leb max_rearm_ns (values.count rearm_max), rearm_latency)
    ∷ (is_nonzero values fifo_poll_zero, poll_zero)
    ∷ (is_nonzero values bridge_filler, filler)
    ∷ (not (values.count bridge_misc == 0x3201), misc)
    ∷ (ltb (values.count flip_requests) (values.count flip_completions), flip_counter)
    ∷ (ltb (values.count generation) 1, generation_counter)
    ∷ (ltb (values.count commit) 1, commit_counter)
    ∷ []

abbrev pub scanout_counters : List Counter
scanout_counters =
    before ∷ after ∷ rearms ∷ flip_requests ∷ flip_completions ∷ generation ∷ commit
    ∷ arm_to_irq_over20ms ∷ fifo_irq_zero ∷ fifo_poll_zero ∷ []

-- The checks of one round of `diagnostics_contract_problem`.
abbrev pub diagnostics_checks : Sample → Checks
diagnostics_checks values =
    (
      is_nonzero values faults
          || is_nonzero values error
          || is_nonzero values host0
          || is_nonzero values host1
          || is_nonzero values underruns
          || is_nonzero values rearm_failures
          || is_nonzero values guard_errors,
      health_nonzero,
    )
    ∷ (not (values.count buffers == 3), buffer_count)
    ∷ (bad_front_back values, front_back_role)
    ∷ (bad_queued values, queued_role)
    ∷ (ltb (values.count frames) 1 || ltb (values.count generation) 1, progress_counter)
    ∷ (ltb (values.count rearms) 1 || ltb (values.count commit) 1, runtime_counter)
    ∷ (is_nonzero values arm_to_irq_over20ms, over_20ms)
    ∷ (leb max_rearm_ns (values.count rearm_max), rearm_latency)
    ∷ (is_nonzero values fifo_poll_zero, poll_zero)
    ∷ (is_nonzero values bridge_filler, filler)
    ∷ (not (values.count bridge_misc == 0x3201), misc)
    ∷ (ltb (values.count flip_requests) (values.count flip_completions), flip_counter)
    ∷ []

abbrev pub diagnostics_counters : List Counter
diagnostics_counters =
    frames ∷ rearms ∷ flip_requests ∷ flip_completions ∷ generation ∷ commit ∷ arm_to_irq_over20ms
    ∷ fifo_irq_zero ∷ fifo_poll_zero ∷ []

-- `values[counter] < previous[counter]`, for each counter in turn.
abbrev pub regressions : List Counter → Sample → Sample → Checks
regressions [] previous values = []
regressions (key ∷ keys) previous values =
    (ltb (values.count key) (previous.count key), regressed key) ∷ regressions keys previous values

-- What is returned now, or what the rest of the function returns.
abbrev pub or_then : Option Problem → Option Problem → Option Problem
or_then (some problem) rest = some problem
or_then none rest = rest

module _ (checks : Sample → Checks) (keys : List Counter) where
  -- The rounds behind the first, with the sample before.
  unfoldable pub check_rest : Sample → List Sample → Option Problem
  check_rest previous [] = none
  check_rest previous (values ∷ rest) =
      let later = check_rest values rest in
      or_then (first_failing (checks values))
        (or_then (first_failing (regressions keys previous values)) later)

  -- The loop over `enumerate(samples)`.
  unfoldable pub check_samples : List Sample → Option Problem
  check_samples [] = none
  check_samples (values ∷ rest) = or_then (first_failing (checks values)) (check_rest values rest)

-- `samples[0]` and `samples[-1]`, of two samples at least.
unfoldable pub last_of : Sample → List Sample → Sample
last_of values [] = values
last_of values (next ∷ rest) = last_of next rest

unfoldable pub ends_of : List Sample → Option (Sample × Sample)
ends_of (first ∷ next ∷ rest) = some (first, last_of next rest)
ends_of other = none

unfoldable pub any_stalled : List Counter → Sample → Sample → Bool
any_stalled [] first last = false
any_stalled (key ∷ rest) first last =
    leb (last.count key) (first.count key) || any_stalled rest first last

-- `len(samples) < 2 or samples[-1][key] <= samples[0][key] or ...`
unfoldable pub not_advanced : List Counter → List Sample → Bool
not_advanced keys samples = elim (ends_of samples) [
  | none ↦ true
  | some (first, last) ↦ any_stalled keys first last
]

-- The checks behind the loop, on the first sample and the last.
abbrev pub end_checks : Counter → List Sample → Bool → Bool → Checks
end_checks progress samples require_flip require_progress =
    (require_flip && not_advanced (flip_completions ∷ commit ∷ []) samples, flip_not_observed)
    ∷ (require_progress && not_advanced (progress ∷ []) samples, progress_not_observed)
    ∷ []

-- The body that the two contract functions share: they differ in the checks, the counters and the
-- counter of progress.
module _ (checks : Sample → Checks) (keys : List Counter) (progress : Counter) where
  unfoldable pub contract_problem : List Sample → ℕ → Bool → Bool → Option Problem
  contract_problem samples minimum require_flip require_progress =
      if ltb (length samples) minimum
      then some (contract_count (length samples) minimum)
      else or_then (check_samples checks keys samples)
          (first_failing (end_checks progress samples require_flip require_progress))

unfoldable pub scanout_contract_problem : Text → ℕ → Bool → Bool → Option Problem
scanout_contract_problem output =
    contract_problem scanout_checks scanout_counters after (scanout_samples output)

unfoldable pub diagnostics_contract_problem : Text → ℕ → Bool → Bool → Option Problem
diagnostics_contract_problem output =
    contract_problem diagnostics_checks diagnostics_counters frames (diagnostics_samples output)

pub data HealthProblem : Type 0 where
  terminal_failure : Text → HealthProblem
  diagnostics scanout : Problem → HealthProblem

unfoldable pub display_health_problem : Text → ℕ → Bool → Bool → Option HealthProblem
display_health_problem output minimum require_flip require_progress = elim (failure_marker output) [
  | some marker ↦ some (terminal_failure marker)
  | none ↦ elim (diagnostics_contract_problem output minimum require_flip require_progress) [
    | some problem ↦ some (diagnostics problem)
    | none ↦ elim (scanout_contract_problem output minimum require_flip require_progress) [
      | some problem ↦ some (scanout problem)
      | none ↦ none
    ]
  ]
]
