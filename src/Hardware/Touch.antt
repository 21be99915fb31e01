-- ===== src/Hardware/Touch.antt =====
-- `wait_for_touch_terminal` and `run_touch` of m9-hardware-test.py.
pub mod Commands
pub mod Passed
use micro_nux.Base.{
  ℕ, ◌+◌, ◌*◌, not, ◌||◌, Bool, true, false, List, [], ◌∷◌, Text, codes, ◌==◌, length, Result, ok,
  raise, raise_if, ◌>>=◌, ◌>>◌,
}
use micro_nux.Base.Regex.{Re, ◌&◌, digits, find_all, lit, literal, searches}
use micro_nux.Base.Strings.{is_within}
use micro_nux.Hardware.Contract.{display_health_problem}
use micro_nux.Hardware.Framebuffer.{framebuffer_hash_problem, runtime_status_problem}
use micro_nux.Hardware.Samples.{line_break}
use micro_nux.Hardware.Serial.{CommandResult, Outcome}
use micro_nux.Hardware.Preflight.{
  Detail, Stop, answer, failed, health, pass_marker_missing, point_count, ready_timeout,
  return_code, status_count, step, stop_at, stop_hashes, touch_invalid, touch_line_re,
  touch_return_code,
}
use micro_nux.Hardware.Touch.Commands.{touch_command, touch_terminal_command}

-- The checks of `wait_for_touch_terminal`, whose message its callers give to `fail` with a stage.
unfoldable pub judge_terminal : Text → CommandResult → Result Stop (Unit {0})
judge_terminal stage result = do
  raise_if (not (result.return_code == 0)) (failed stage (touch_return_code result.return_code))
  raise_if (not (searches touch_line_re result.output)) (failed stage touch_invalid)

unfoldable pub wait_for_touch_terminal :
    (Text → Text → ℕ → Outcome CommandResult) → Text → Result Stop (Unit {0})
wait_for_touch_terminal run stage =
    step run touch_terminal_command (codes "TOUCH_TERMINAL") 30_000 (judge_terminal stage)

-- The line of a touch controller that is ready.
abbrev pub ready_re : Re
ready_re =
    Re.line_start
    & lit "ready product=9271 address=0x"
    & Re.seq (Re.alt (lit "5d") (lit "14")) (
        lit " mode=poll interval_ms=10 reads="
        & digits
        & lit " errors=0 down="
        & Re.one (λ c. c == b'0' || c == b'1')
        & line_break)

-- `output.count(marker)`: the occurrences that do not overlap.
abbrev pub count_of : Text → Text → ℕ
count_of marker output = length (find_all (literal marker) output)

unfoldable pub judge_touch : CommandResult → Result Stop (Unit {0})
judge_touch touch = do
  raise_if (not (touch.return_code == 0))
      (failed (codes "five-point-touch") (return_code touch.return_code))
  stop_hashes (codes "touch-framebuffer")
      (framebuffer_hash_problem touch.output (codes "touch-before" ∷ codes "touch-after" ∷ []))
  raise_if
      (not (is_within (codes "MICRONUX:M9:DISPLAY-TEST:PASS mode=touch points=5") touch.output))
      (failed (codes "five-point-touch") pass_marker_missing)
  raise_if (not (count_of (codes "MICRONUX:M9:TOUCH-TARGET:PASS") touch.output == 5))
      (failed (codes "five-point-touch") point_count)
  raise_if
      (length (find_all ready_re touch.output) == 0
        || not (is_within (codes "MICRONUX:M9:TOUCH-READY ready=1") touch.output))
      (failed (codes "five-point-touch") ready_timeout)
  stop_at (codes "touch-runtime") status_count (runtime_status_problem touch.output 1)
  stop_at (codes "touch-health") health (display_health_problem touch.output 2 true true)

-- The timeout is that of five points and 65 seconds.
unfoldable pub run_touch : (Text → Text → ℕ → Outcome CommandResult) → ℕ → Result Stop (Unit {0})
run_touch run point_timeout_ms =
    step run (touch_command point_timeout_ms) (codes "TOUCH") (point_timeout_ms * 5 + 65_000)
      judge_touch
