-- ===== src/Hardware/Contract/Health.antt =====
-- What `display_health_problem` demands of a log, and what holds along its samples.
use micro_nux.Base.{ℕ, ◌<◌, ◌≡◌, ◌↔◌, Bool, none, some, Text, get_elem?, refl, arith}
use micro_nux.Hardware.{failure_marker}
use micro_nux.Hardware.Samples.{Sample, after, frames, scanout_samples, diagnostics_samples}
use micro_nux.Hardware.Contract.{scanout_counters, diagnostics_counters, display_health_problem}
use micro_nux.Hardware.Contract.Checks.{Meets, NotFalling, Steady-NotFalling}
use micro_nux.Hardware.Contract.Scanout.{IsScanning, scanout_contract_problem-Meets}
use micro_nux.Hardware.Contract.Diagnostics.{IsHealthy, diagnostics_contract_problem-Meets}

-- A log that passes.
pub record HealthyLog (output : Text) (minimum : ℕ) (require_flip require_progress : Bool)
    : Type 0 where
  pub unmarked : failure_marker output ≡ none
  pub runtime :
      Meets IsHealthy diagnostics_counters frames
        (diagnostics_samples output)
        minimum
        require_flip
        require_progress
  pub scanning :
      Meets IsScanning scanout_counters after
        (scanout_samples output)
        minimum
        require_flip
        require_progress

-- A log has no display health problem exactly if it has no failure marker, its diagnostics lines
-- and its scanout lines reach the minimum, each line shows a healthy display with one role for each
-- buffer, no counter falls along the lines, and the counters that the caller requires advance.
pub display_health_problem-HealthyLog :
    (output : Text) (minimum : ℕ) (require_flip require_progress : Bool)
    → (display_health_problem output minimum require_flip require_progress ≡ none)
      ↔ HealthyLog output minimum require_flip require_progress
unfolding display_health_problem
display_health_problem-HealthyLog output minimum require_flip require_progress =
    let (runs, ran) =
      diagnostics_contract_problem-Meets output minimum require_flip require_progress in
    let (scans, scanned) =
      scanout_contract_problem-Meets output minimum require_flip require_progress in
    (
      λ h. record {
        unmarked = ground arith;
        runtime = runs (ground arith);
        scanning = scans (ground arith);
      },
      λ log. rw (display_health_problem, log.unmarked, ran log.runtime, scanned log.scanning) refl,
    )

-- In a log without a display health problem no scanout counter falls from any line to any later one.
pub display_health_problem-NotFalling :
    (output : Text) (minimum : ℕ) (require_flip require_progress : Bool) (i j : ℕ) (v w : Sample)
    → display_health_problem output minimum require_flip require_progress ≡ none
    → i < j
    → get_elem? (scanout_samples output) i ≡ some v
    → get_elem? (scanout_samples output) j ≡ some w
    → NotFalling scanout_counters v w
display_health_problem-NotFalling output minimum require_flip require_progress i j v w h lt e k =
    let log =
      (display_health_problem-HealthyLog output minimum require_flip require_progress).0 h in
    Steady-NotFalling IsScanning scanout_counters (scanout_samples output) i j log.scanning.steady
      lt e k
