-- ===== src/Hardware/Preflight.antt =====
-- `run_preflight` of m9-hardware-test.py.
pub mod Commands
pub mod Checks
pub mod Judged
pub mod Passed
use micro_nux.Base.{
  ℕ, Bool, true, false, not, ◌&&◌, ◌||◌, Option, none, some, List, [], ◌∷◌, Text, codes, ◌==◌,
  Result, ok, raise, ◌>>=◌, ◌>>◌, raise_if,
}
use micro_nux.Base.Regex.{Re, searches, lit, ◌&◌, number_after, digits}
use micro_nux.Base.Strings.{is_within}
use micro_nux.Hardware.Boot.{BootProblem, boot_contract_problem, first_missing}
use micro_nux.Hardware.Contract.{HealthProblem, display_health_problem}
use micro_nux.Hardware.Framebuffer.{HashProblem, framebuffer_hash_problem, runtime_status_problem}
use micro_nux.Hardware.Payload.{PayloadProblem}
use micro_nux.Hardware.Phases.{PhaseProblem}
use micro_nux.Hardware.Rate.{RateProblem}
use micro_nux.Hardware.Samples.{line_break}
use micro_nux.Hardware.Serial.{
  CommandResult, Outcome, returned, kernel_failure, short_write, timed_out,
}
use micro_nux.Hardware.Preflight.Commands.{
  check_command, sysfs_command, vpg_unavailable_command, presentation_command, signal_command,
}

-- `OWNERSHIP_LINE_RE` and `TOUCH_LINE_RE`.
abbrev pub ownership_line_re : Re
ownership_line_re =
    Re.line_start
    & lit "linux abi=3 mode=native-cold-init fb0 buffers=3 dma-channel=0"
    & number_after " frame-irq="
    & lit " rearm=explicit mmap=denied i2c=active-serialized"
    & line_break

abbrev pub touch_line_re : Re
touch_line_re =
    Re.line_start
    & Re.seq
        (Re.alt (lit "unavailable") (
          lit "ready product=9271 address=0x"
          & Re.seq (Re.alt (lit "5d") (lit "14")) (
              lit " mode=poll interval_ms=10 reads="
              & digits
              & lit " errors=0 down="
              & Re.one (λ c. c == b'0' || c == b'1'))))
        line_break

-- What `verify_runtime_identity` returns.
pub data IdentityProblem : Type 0 where
  command_return_code : ℕ → IdentityProblem
  boot_id_samples_invalid boot_id_changed : IdentityProblem
  uptime_samples_invalid uptime_not_advancing : IdentityProblem

-- The detail that `fail` prints.
pub data Detail : Type 0 where
  return_code : ℕ → Detail
  boot : BootProblem → Detail
  hashes : HashProblem → Detail
  health : HealthProblem → Detail
  status_count : ℕ × ℕ → Detail
  missing : Text → Detail
  pass_marker_missing ready_or_unavailable_missing ready_has_errors : Detail
  ownership_missing touch_invalid : Detail
  point_count ready_timeout sample_count shell_count status_state touch_sample_count : Detail
  stages_invalid memfree_loss memavailable_loss restore_state snapshot_count : Detail
  phases : PhaseProblem → Detail
  payload : PayloadProblem → Detail
  touch_return_code : ℕ → Detail
  terminal_failure : Text → Detail
  identity : IdentityProblem → Detail
  reset_unprotected boot_id_missing arm_failed after_boot_id_failed after_boot_id_missing
        unexpected_reboot :
      Detail
  post_command_failed evidence_incomplete source_or_backlight scanout_stopped display_fault : Detail
  rate : RateProblem → Detail

-- How a handler stops: by `fail` with a stage, or by the exception of a command of an empty list or of
-- a division.
pub data Stop : Type 0 where
  failed : Text → Detail → Stop
  crashed : Text → Stop
  unwritten overdue index_error overflow_error zero_division : Stop

unfoldable pub answer : Outcome CommandResult → Result Stop CommandResult
answer (returned result) = ok result
answer (kernel_failure marker) = raise (crashed marker)
answer short_write = raise unwritten
answer timed_out = raise overdue

-- `if problem is not None: return fail(stage, problem)`
unfoldable pub stop_at : {P : Type 0} → Text → (P → Detail) → Option P → Result Stop (Unit {0})
stop_at stage detail none = ok tt
stop_at stage detail (some problem) = raise (failed stage (detail problem))

unfoldable pub stop_hashes : Text → Result HashProblem (Unit {0}) → Result Stop (Unit {0})
stop_hashes stage (ok _) = ok tt
stop_hashes stage (raise problem) = raise (failed stage (hashes problem))

-- What the handler asks of a command that leaves the display as it was: the stages of its failures, the
-- phases of the framebuffer, the markers, and the arguments of `display_health_problem`.
pub record Demand : Type 0 where
  pub stage : Text
  pub hash_stage : Text
  pub health_stage : Text
  pub phases : List Text
  pub markers : List Text
  pub minimum : ℕ
  pub require_flip : Bool

unfoldable pub judge : Demand → CommandResult → Result Stop (Unit {0})
judge d result = do
  raise_if (not (result.return_code == 0)) (failed d.stage (return_code result.return_code))
  stop_hashes d.hash_stage (framebuffer_hash_problem result.output d.phases)
  stop_at d.stage missing (first_missing d.markers result.output)
  stop_at d.stage status_count (runtime_status_problem result.output 1)
  stop_at d.health_stage health (display_health_problem result.output d.minimum d.require_flip true)

abbrev pub vpg_demand : Demand
vpg_demand = record {
  stage = codes "native-vpg-unavailable";
  hash_stage = codes "native-vpg-unavailable";
  health_stage = codes "native-vpg-unavailable";
  phases = codes "vpg-reject-before" ∷ codes "vpg-reject-after" ∷ [];
  markers = codes "MICRONUX:M9:VPG-UNAVAILABLE absent=1" ∷ [];
  minimum = 2;
  require_flip = false;
}

abbrev pub presentation_demand : Demand
presentation_demand = record {
  stage = codes "presentation";
  hash_stage = codes "presentation-framebuffer";
  health_stage = codes "presentation-health";
  phases = codes "presentation-before" ∷ codes "presentation-after" ∷ [];
  markers =
      codes "MICRONUX:M9:SHELL state=responsive"
      ∷ codes "MICRONUX:M9:DRAW rc=0"
      ∷ codes "MICRONUX:M9:DISPLAY-TEST:PASS mode=draw console=restored"
      ∷ [];
  minimum = 3;
  require_flip = true;
}

abbrev pub signal_demand : Demand
signal_demand = record {
  stage = codes "signal-recovery";
  hash_stage = codes "signal-framebuffer";
  health_stage = codes "signal-health";
  phases = codes "signal-before" ∷ codes "signal-after" ∷ [];
  markers =
      codes "MICRONUX:M9:SIGNAL rc=143" ∷ codes "MICRONUX:M9:SIGNAL-SHELL state=responsive" ∷ [];
  minimum = 2;
  require_flip = true;
}

-- The checks on the answer to `micronux-display-test check`.
unfoldable pub judge_check : CommandResult → Result Stop (Unit {0})
judge_check check = do
  raise_if (not (check.return_code == 0))
      (failed (codes "interface-check") (return_code check.return_code))
  raise_if (not (is_within (codes "MICRONUX:M9:DISPLAY-TEST:PASS mode=check") check.output))
      (failed (codes "interface-check") pass_marker_missing)
  raise_if
      (not (is_within (codes "ready product=9271") check.output)
        && not (is_within (codes "touch=unavailable") check.output)
        && not (is_within (codes "input=unavailable") check.output))
      (failed (codes "touch-status") ready_or_unavailable_missing)
  raise_if
      (is_within (codes "ready product=9271") check.output
        && not (is_within (codes "errors=0") check.output))
      (failed (codes "touch-status") ready_has_errors)

-- The checks on the display's files.
unfoldable pub judge_sysfs : CommandResult → Result Stop (Unit {0})
judge_sysfs sysfs = do
  raise_if (not (sysfs.return_code == 0))
      (failed (codes "display-sysfs") (return_code sysfs.return_code))
  raise_if (not (searches ownership_line_re sysfs.output))
      (failed (codes "display-sysfs") ownership_missing)
  raise_if (not (searches touch_line_re sysfs.output))
      (failed (codes "display-sysfs") touch_invalid)
  stop_at (codes "display-sysfs") status_count (runtime_status_problem sysfs.output 1)
  stop_at (codes "display-sysfs") health (display_health_problem sysfs.output 1 false false)

-- A command, by its text, label and timeout in milliseconds, and a judgement of what it returns.
unfoldable pub step :
    (Text → Text → ℕ → Outcome CommandResult)
    → Text
    → Text
    → ℕ
    → (CommandResult → Result Stop (Unit {0}))
    → Result Stop (Unit {0})
step run command label milliseconds judgement = do
  result ← answer (run command label milliseconds)
  judgement result

-- `run` is the board's answer to each command, as `run_command` gives it. `return 0` is `ok`.
unfoldable pub run_preflight :
    (Text → Text → ℕ → Outcome CommandResult) → Text → Result Stop (Unit {0})
run_preflight run boot_log = do
  stop_at (codes "boot-markers") boot (boot_contract_problem boot_log)
  step run check_command (codes "CHECK") 30_000 judge_check
  step run sysfs_command (codes "DISPLAY_SYSFS") 20_000 judge_sysfs
  step run vpg_unavailable_command (codes "VPG_UNAVAILABLE") 20_000 (judge vpg_demand)
  step run presentation_command (codes "PRESENTATION") 45_000 (judge presentation_demand)
  step run signal_command (codes "SIGNAL") 45_000 (judge signal_demand)
