-- ===== src/Hardware/Disconnect.antt =====
-- `run_disconnect` of m9-hardware-test.py, over the board's answer to each command, what is captured when
-- the port opens again, and the outcome of `recover_reconnect_prompt`.
pub mod Commands
pub mod Lines
pub mod Sound
pub mod Continued
pub mod Retained
pub mod Passed
use micro_nux.Base.{
  ℕ, ◌+◌, ◌++◌, not, Bool, true, false, ◌&&◌, ◌||◌, ltb, Option, none, some, List, [], ◌∷◌, Text,
  codes, text_eq, ◌==◌, length, Result, ok, raise, raise_if, ◌>>=◌, ◌>>◌, if◌then◌else◌,
}
use micro_nux.Base.Regex.{Re, ◌&◌, digits, find_all, is_hex, lit, literal, searches}
use micro_nux.Base.Strings.{is_within, join, str}
use micro_nux.Hardware.{failure_marker}
use micro_nux.Hardware.Contract.{display_health_problem}
use micro_nux.Hardware.Framebuffer.{first_groups, framebuffer_hash_problem}
use micro_nux.Hardware.Phases.{diagnostics_phase_problem}
use micro_nux.Hardware.Rate.{RateProblem, disconnect_progress_rate, overflow}
use micro_nux.Hardware.Samples.{Sample, after, diagnostics_samples, line_break, scanout_samples}
use micro_nux.Hardware.Serial.{CommandResult, Outcome}
use micro_nux.Hardware.Preflight.{
  Detail, Stop, after_boot_id_failed, after_boot_id_missing, answer, arm_failed, boot_id_missing,
  display_fault, evidence_incomplete, failed, health, index_error, overflow_error,
  post_command_failed, rate, reset_unprotected, return_code, scanout_stopped, source_or_backlight,
  stop_at, stop_hashes, terminal_failure, touch_invalid, touch_line_re, unexpected_reboot,
}
use micro_nux.Hardware.Disconnect.Commands.{
  after_id_command, after_scanout_command, after_state_command, before_command, boundary_command,
  boundary_read_command, policy_command,
}
use micro_nux.Hardware.Disconnect.Lines.{
  all_phases, armed_re, before_phases, boot_ids, boundary_phases, scans_on, status_line_re,
  touch_lines,
}
use micro_nux.Hardware.Snapshot.{awaited, stop_phases}

unfoldable pub last_text : Text → List Text → Text
last_text text [] = text
last_text text (next ∷ rest) = last_text next rest

-- `boot_ids[-1]`, where there is one.
unfoldable pub last_id : Stop → List Text → Result Stop Text
last_id none_there [] = raise none_there
last_id none_there (id ∷ ids) = ok (last_text id ids)

-- The checks on a later list of boot identifiers.
unfoldable pub check_boot : Stop → Text → List Text → Result Stop (Unit {0})
check_boot none_there boot_id ids = do
  shown ← last_id none_there ids
  raise_if (not (text_eq boot_id shown)) (failed (codes "disconnect-after") unexpected_reboot)

unfoldable pub judge_policy : CommandResult → Result Stop (Unit {0})
judge_policy policy =
    raise_if (not (policy.return_code == 0) || not (is_within (codes "disabled") policy.output))
      (failed (codes "disconnect-policy") reset_unprotected)

-- The checks on the board before the port is closed, and its boot identifier.
unfoldable pub judge_before : CommandResult → Result Stop Text
judge_before before = do
  raise_if (not (before.return_code == 0))
      (failed (codes "disconnect-before") (return_code before.return_code))
  stop_hashes (codes "disconnect-before-framebuffer")
      (framebuffer_hash_problem before.output (codes "disconnect-before" ∷ []))
  stop_phases (codes "disconnect-before-telemetry")
      (diagnostics_phase_problem before.output before_phases)
  raise_if
      (not (
        searches (status_line_re (codes "MICRONUX:M9:USB-DISCONNECT:STATUS-BEFORE")) before.output))
      (failed (codes "disconnect-before") source_or_backlight)
  stop_at (codes "disconnect-before") health (display_health_problem before.output 1 false false)
  raise_if (not (touch_lines before.output == 1)) (failed (codes "disconnect-before") touch_invalid)
  last_id (failed (codes "disconnect-before") boot_id_missing)
      (boot_ids (codes "MICRONUX:M9:USB-DISCONNECT:BEFORE") before.output)

unfoldable pub judge_armed : ℕ → CommandResult → Result Stop (Unit {0})
judge_armed boundary_delay armed =
    raise_if (not (armed.return_code == 0) || not (searches (armed_re boundary_delay) armed.output))
      (failed (codes "disconnect-boundary") arm_failed)

-- The message of `disconnect_progress_rate`; its exception ends the handler.
unfoldable pub rated : Result RateProblem ℕ → Result Stop (Option RateProblem)
rated (ok hz) = ok none
rated (raise overflow) = raise overflow_error
rated (raise problem) = ok (some problem)

-- What is asked behind a part of the test. The problems are reported in the order of the fields' checks.
pub record Evidence : Type 0 where
  pub stage : Text
  pub output : Text
  pub phases : List Text
  pub minimum : ℕ
  pub rate_problem : Option RateProblem
  pub hash_output : Text
  pub hash_phases : List Text
  pub status_ok : Bool
  pub continues : Bool

unfoldable pub judge_evidence : Evidence → Result Stop (Unit {0})
judge_evidence e = do
  stop_phases e.stage (diagnostics_phase_problem e.output e.phases)
  stop_at e.stage health (display_health_problem e.output e.minimum false true)
  stop_at e.stage rate e.rate_problem
  stop_hashes e.stage (framebuffer_hash_problem e.hash_output e.hash_phases)
  raise_if (not e.status_ok) (failed e.stage source_or_backlight)
  raise_if (not e.continues) (failed e.stage scanout_stopped)

abbrev pub boundary_evidence : Text → Text → Option RateProblem → Evidence
boundary_evidence before boundary rate_problem = record {
  stage = codes "disconnect-failure";
  output = before ++ (codes "\n" ++ boundary);
  phases = boundary_phases;
  minimum = 2;
  rate_problem = rate_problem;
  hash_output = before ++ (codes "\n" ++ boundary);
  hash_phases = codes "disconnect-before" ∷ codes "disconnect-boundary" ∷ [];
  status_ok =
      searches (status_line_re (codes "MICRONUX:M9:USB-DISCONNECT:STATUS-BOUNDARY")) boundary;
  continues =
      length (diagnostics_samples before) == 2
      && length (diagnostics_samples boundary) == 2
      && touch_lines boundary == 1
      && scans_on (scanout_samples before) (scanout_samples boundary);
}

abbrev pub after_evidence : Text → Text → Text → Text → Option RateProblem → Evidence
after_evidence before boundary after_state after_scanout rate_problem = record {
  stage = codes "reconnect-driver-fault";
  output = join (codes "\n") (before ∷ boundary ∷ after_state ∷ after_scanout ∷ []);
  phases = all_phases;
  minimum = 3;
  rate_problem = rate_problem;
  hash_output = join (codes "\n") (before ∷ boundary ∷ after_state ∷ []);
  hash_phases =
      codes "disconnect-before" ∷ codes "disconnect-boundary" ∷ codes "disconnect-after" ∷ [];
  status_ok =
      searches (status_line_re (codes "MICRONUX:M9:USB-DISCONNECT:STATUS-AFTER")) after_state;
  continues =
      length (diagnostics_samples after_state) == 2
      && touch_lines after_state == 1
      && scans_on (scanout_samples boundary) (scanout_samples after_scanout);
}

-- A display fault in what was captured takes the place of another detail.
unfoldable pub blamed : Text → Result Stop (Unit {0}) → Result Stop (Unit {0})
blamed captured (ok _) = ok tt
blamed captured (raise stop) =
    if is_within (codes "MICRONUX:M9:DISPLAY-FAULT") captured
    then raise (failed (codes "reconnect-driver-fault") display_fault)
    else raise stop

-- The four results behind the reconnection.
pub record Afterwards : Type 0 where
  pub boundary : CommandResult
  pub after_id : CommandResult
  pub after_state : CommandResult
  pub after_scanout : CommandResult

unfoldable pub check_boundary : Text → Text → Result Stop (Unit {0})
check_boundary before boundary = do
  problem ← rated (
      disconnect_progress_rate before (codes "BEFORE-POSTHASH") boundary (codes "BOUNDARY-PREHASH"))
  judge_evidence (boundary_evidence before boundary problem)

unfoldable pub check_after : Text → Text → Afterwards → Result Stop (Unit {0})
check_after before reconnect_log a = do
  problem ← rated (
      disconnect_progress_rate a.boundary.output (codes "BOUNDARY-POSTHASH") a.after_state.output
        (codes "AFTER-PREHASH"))
  blamed (reconnect_log ++ (a.after_id.output ++ (a.after_state.output ++ a.after_scanout.output)))
      (judge_evidence (
        after_evidence before a.boundary.output a.after_state.output a.after_scanout.output
          problem))

unfoldable pub judge_afterwards : Text → Text → Text → Afterwards → Result Stop (Unit {0})
judge_afterwards before boot_id reconnect_log a = do
  raise_if (not (a.after_id.return_code == 0))
      (failed (codes "disconnect-evidence") after_boot_id_failed)
  check_boot (failed (codes "disconnect-evidence") after_boot_id_missing) boot_id
      (boot_ids (codes "MICRONUX:M9:USB-DISCONNECT:AFTER") a.after_id.output)
  raise_if
      (not (a.boundary.return_code == 0)
        || not (a.after_state.return_code == 0)
        || not (a.after_scanout.return_code == 0))
      (failed (codes "disconnect-evidence") post_command_failed)
  raise_if
      (not (is_within (codes "MICRONUX:M9:USB-DISCONNECT:BOUNDARY:COMPLETE") a.boundary.output))
      (failed (codes "disconnect-boundary") evidence_incomplete)
  check_boot (failed (codes "disconnect-boundary") boot_id_missing) boot_id
      (boot_ids (codes "MICRONUX:M9:USB-DISCONNECT:BOUNDARY:BEGIN") a.boundary.output)
  check_boundary before a.boundary.output
  check_after before reconnect_log a

module _ (run : Text → Text → ℕ → Outcome CommandResult) where
  -- The four commands behind the reconnection, in their order.
  unfoldable pub afterwards : Result Stop Afterwards
  afterwards = do
    boundary ← answer (run boundary_read_command (codes "DISCONNECT_BOUNDARY_READ") 20_000)
    after_id ← answer (run after_id_command (codes "DISCONNECT_AFTER_ID") 20_000)
    after_state ← answer (run after_state_command (codes "DISCONNECT_AFTER_STATE") 20_000)
    after_scanout ← answer (run after_scanout_command (codes "DISCONNECT_AFTER_SCANOUT") 20_000)
    ok (record {
      boundary = boundary;
      after_id = after_id;
      after_state = after_state;
      after_scanout = after_scanout;
    })

  unfoldable pub reconnect : Outcome Text → Outcome Text → Text → Text → Result Stop (Unit {0})
  reconnect passive recovery before boot_id = do
    passive_log ← awaited passive
    prompt_log ← awaited recovery
    stop_at (codes "reconnect-driver-fault") terminal_failure
        (failure_marker (passive_log ++ prompt_log))
    a ← afterwards
    judge_afterwards before boot_id (passive_log ++ prompt_log) a

  unfoldable pub run_disconnect : Outcome Text → Outcome Text → ℕ → Result Stop (Unit {0})
  run_disconnect passive recovery disconnect_seconds = do
    policy ← answer (run policy_command (codes "DISCONNECT_POLICY") 20_000)
    judge_policy policy
    before ← answer (run before_command (codes "DISCONNECT_BEFORE") 20_000)
    boot_id ← judge_before before
    armed ←
        answer
          (run (boundary_command (disconnect_seconds + 1)) (codes "DISCONNECT_BOUNDARY_ARM") 20_000)
    judge_armed (disconnect_seconds + 1) armed
    reconnect passive recovery before.output boot_id
