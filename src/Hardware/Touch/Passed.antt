-- ===== src/Hardware/Touch/Passed.antt =====
-- What a board has shown when `run_touch` (m9-hardware-test.py) returns 0.
use micro_nux.Base.{
  ℕ, none, refl, ◌+◌, ◌*◌, ◌≡◌, ◌≢◌, ◌↔◌, true, false, not, ◌||◌, List, [], ◌∷◌, Text, codes, ◌==◌,
  length, ok, raise_if, both, arith,
}
use micro_nux.Base.Find.{Occurs}
use micro_nux.Base.Regex.{find_all, searches}
use micro_nux.Base.Strings.{is_within}
use micro_nux.Hardware.Contract.Health.{HealthyLog}
use micro_nux.Hardware.Framebuffer.{runtime_status_problem}
use micro_nux.Hardware.Framebuffer.Unchanged.{Unchanged}
use micro_nux.Hardware.Serial.{CommandResult, Outcome}
use micro_nux.Hardware.Preflight.{Stop, touch_line_re}
use micro_nux.Hardware.Preflight.Checks.{
  equals, occurs, searched, no_status_problem, stays_healthy, keeps_framebuffer,
}
use micro_nux.Hardware.Preflight.Passed.{Answers, step-Answers}
use micro_nux.Hardware.Touch.{
  count_of, judge_terminal, judge_touch, ready_re, run_touch, wait_for_touch_terminal,
}
use micro_nux.Hardware.Touch.Commands.{touch_command, touch_terminal_command}

-- The five points are touched: the command succeeds, leaves the framebuffer as it was, reports five points
-- and five targets and a ready controller, and the display is healthy and makes progress.
abbrev pub Touched : CommandResult → Type 0
Touched touch =
    (touch.return_code ≡ 0)
    × (Unchanged touch.output (codes "touch-before" ∷ codes "touch-after" ∷ [])
        × (Occurs (codes "MICRONUX:M9:DISPLAY-TEST:PASS mode=touch points=5") touch.output
            × ((count_of (codes "MICRONUX:M9:TOUCH-TARGET:PASS") touch.output ≡ 5)
                × (((find_all ready_re touch.output ≢ [])
                      × Occurs (codes "MICRONUX:M9:TOUCH-READY ready=1") touch.output)
                    × ((runtime_status_problem touch.output 1 ≡ none)
                        × HealthyLog touch.output 2 true true)))))

ready_shown :
    {A : Type 0} (samples : List A) (marker output : Text) (e : Stop)
    → (raise_if (length samples == 0 || not (is_within marker output)) e ≡ ok tt)
      ↔ ((samples ≢ []) × Occurs marker output)
ready_shown [] marker output e = (λ h. cc, λ h. absurd (h.0 refl))
ready_shown (sample ∷ samples) marker output e =
    let (asks, passes) = occurs marker output e in
    let some_sample : (length (sample ∷ samples) == 0) ≡ false = ground arith in
    (λ h. (λ no. cc, asks (rw some_sample at h)), λ h. rw some_sample (passes h.1))

judge_touch-Touched : (touch : CommandResult) → (judge_touch touch ≡ ok tt) ↔ Touched touch
unfolding judge_touch
judge_touch-Touched touch = both (equals touch.return_code 0 _) (
    both (keeps_framebuffer _ touch.output _) (
      both (occurs _ touch.output _) (
        both (equals _ 5 _) (
          both (ready_shown (find_all ready_re touch.output) _ touch.output _)
            (both (no_status_problem _ touch.output) (stays_healthy _ touch.output 2 true true))))))

-- `run_touch` returns 0 exactly if the board answers its command, with a time for five points and 65 seconds,
-- by a result that shows the five points touched: it succeeds, leaves the framebuffer as it was, reports
-- five points and five targets and a ready controller, and the display is healthy and makes progress.
pub run_touch-Touched :
    (run : Text → Text → ℕ → Outcome CommandResult) (point_timeout_ms : ℕ)
    → (run_touch run point_timeout_ms ≡ ok tt)
      ↔ Answers run
          (touch_command point_timeout_ms)
          (codes "TOUCH")
          (point_timeout_ms * 5 + 65_000)
          Touched
unfolding run_touch
run_touch-Touched run point_timeout_ms =
    step-Answers run (touch_command point_timeout_ms) (codes "TOUCH")
      (point_timeout_ms * 5 + 65_000) judge_touch Touched judge_touch-Touched

-- The touch controller settles, ready or unavailable.
abbrev pub Settled : CommandResult → Type 0
Settled result = (result.return_code ≡ 0) × (searches touch_line_re result.output ≡ true)

pub wait_for_touch_terminal-Settled :
    (run : Text → Text → ℕ → Outcome CommandResult) (stage : Text)
    → (wait_for_touch_terminal run stage ≡ ok tt)
      ↔ Answers run touch_terminal_command (codes "TOUCH_TERMINAL") 30_000 Settled
unfolding wait_for_touch_terminal judge_terminal
wait_for_touch_terminal-Settled run stage =
    step-Answers run touch_terminal_command (codes "TOUCH_TERMINAL") 30_000 (judge_terminal stage)
      Settled judged
  where
    judged : (result : CommandResult) → (judge_terminal stage result ≡ ok tt) ↔ Settled result
    judged result = both (equals result.return_code 0 _) (searched _ result.output _)
