-- ===== src/Hardware/Snapshot.antt =====
-- `run_snapshot` of m9-hardware-test.py, from the text that it captures before it writes anything.
pub mod Commands
pub mod Captured
use micro_nux.Base.{
  ℕ, not, false, true, List, [], ◌∷◌, Text, codes, ◌==◌, none, Result, ok, raise, raise_if, ◌>>=◌,
  ◌>>◌,
}
use micro_nux.Base.Regex.{searches}
use micro_nux.Hardware.{failure_marker}
use micro_nux.Hardware.Contract.{display_health_problem}
use micro_nux.Hardware.Framebuffer.{framebuffer_hash_problem, runtime_status_problem}
use micro_nux.Hardware.Phases.{PhaseProblem, diagnostics_phase_problem}
use micro_nux.Hardware.Serial.{
  CommandResult, Outcome, returned, kernel_failure, short_write, timed_out,
}
use micro_nux.Hardware.Preflight.{
  Detail, Stop, crashed, failed, health, overdue, ownership_line_re, ownership_missing, phases,
  return_code, status_count, step, stop_at, stop_hashes, terminal_failure, touch_invalid,
  touch_line_re, unwritten,
}
use micro_nux.Hardware.Snapshot.Commands.{snapshot_command}
use micro_nux.Hardware.Touch.{wait_for_touch_terminal}

-- The outcome of a wait for a text: its exceptions end the handler.
unfoldable pub awaited : Outcome Text → Result Stop Text
awaited (returned text) = ok text
awaited (kernel_failure marker) = raise (crashed marker)
awaited short_write = raise unwritten
awaited timed_out = raise overdue

unfoldable pub stop_phases : Text → Result PhaseProblem (Unit {0}) → Result Stop (Unit {0})
stop_phases stage (ok _) = ok tt
stop_phases stage (raise problem) = raise (failed stage (phases problem))

abbrev pub snapshot_phases : List Text
snapshot_phases =
    codes "SNAPSHOT-A-PREHASH"
    ∷ codes "SNAPSHOT-A-POSTHASH"
    ∷ codes "SNAPSHOT-B-PREHASH"
    ∷ codes "SNAPSHOT-B-POSTHASH"
    ∷ []

unfoldable pub judge_snapshot : CommandResult → Result Stop (Unit {0})
judge_snapshot snapshot = do
  raise_if (not (snapshot.return_code == 0))
      (failed (codes "snapshot") (return_code snapshot.return_code))
  stop_phases (codes "snapshot-telemetry")
      (diagnostics_phase_problem snapshot.output snapshot_phases)
  stop_hashes (codes "snapshot-framebuffer")
      (framebuffer_hash_problem snapshot.output (codes "snapshot-a" ∷ codes "snapshot-b" ∷ []))
  raise_if (not (searches ownership_line_re snapshot.output))
      (failed (codes "snapshot") ownership_missing)
  raise_if (not (searches touch_line_re snapshot.output)) (failed (codes "snapshot") touch_invalid)
  stop_at (codes "snapshot") status_count (runtime_status_problem snapshot.output 1)
  stop_at (codes "snapshot-health") health (display_health_problem snapshot.output 2 false true)

-- `passive` is what is captured first, and `recovery` the outcome of `recover_reconnect_prompt`.
unfoldable pub run_snapshot :
    (Text → Text → ℕ → Outcome CommandResult) → Text → Outcome Text → Result Stop (Unit {0})
run_snapshot run passive recovery = do
  stop_at (codes "snapshot-passive") terminal_failure (failure_marker passive)
  recovered ← awaited recovery
  stop_at (codes "snapshot-reconnect") terminal_failure (failure_marker recovered)
  wait_for_touch_terminal run (codes "snapshot-touch")
  step run snapshot_command (codes "SNAPSHOT") 30_000 judge_snapshot
