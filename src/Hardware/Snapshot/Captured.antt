-- ===== src/Hardware/Snapshot/Captured.antt =====
-- What a board has shown when `run_snapshot` (m9-hardware-test.py) returns 0.
use micro_nux.Base.{
  ℕ, ◌≡◌, ◌↔◌, refl, false, true, none, List, [], ◌∷◌, Text, codes, Result, ok, raise, both, ◌>>◌,
}
use micro_nux.Base.Regex.{searches}
use micro_nux.Hardware.{failure_marker}
use micro_nux.Hardware.Contract.Health.{HealthyLog}
use micro_nux.Hardware.Framebuffer.{runtime_status_problem}
use micro_nux.Hardware.Framebuffer.Unchanged.{Unchanged}
use micro_nux.Hardware.Phases.{PhaseProblem, diagnostics_phase_problem}
use micro_nux.Hardware.Phases.Steps.{PhasesPass, diagnostics_phase_problem-PhasesPass}
use micro_nux.Hardware.Serial.{
  CommandResult, Outcome, returned, kernel_failure, short_write, timed_out,
}
use micro_nux.Hardware.Preflight.{Detail, Stop, ownership_line_re, stop_at, touch_line_re}
use micro_nux.Hardware.Preflight.Checks.{
  equals, no_status_problem, searched, stays_healthy, keeps_framebuffer, stop_at-none,
}
use micro_nux.Hardware.Preflight.Passed.{Answers, step-Answers}
use micro_nux.Hardware.Snapshot.{
  awaited, judge_snapshot, run_snapshot, snapshot_phases, stop_phases,
}
use micro_nux.Hardware.Snapshot.Commands.{snapshot_command}
use micro_nux.Hardware.Touch.Commands.{touch_terminal_command}
use micro_nux.Hardware.Touch.Passed.{Settled, wait_for_touch_terminal-Settled}

stop_phases-ok :
    (stage : Text) (r : Result PhaseProblem (Unit {0}))
    → (stop_phases stage r ≡ ok tt) ↔ (r ≡ ok tt)
unfolding stop_phases
stop_phases-ok stage (ok u) = (λ h. refl, λ h. refl)
stop_phases-ok stage (raise p) = (λ h. cc, λ h. cc)

pub phases_pass :
    (stage output : Text) (expected : List Text)
    → (stop_phases stage (diagnostics_phase_problem output expected) ≡ ok tt)
      ↔ PhasesPass output expected
phases_pass stage output expected =
    let (asks, passes) = stop_phases-ok stage (diagnostics_phase_problem output expected) in
    let (pass, back) = diagnostics_phase_problem-PhasesPass output expected in
    (λ h. pass (asks h), λ h. passes (back h))

-- The display reveals the framebuffer in two looks a second apart: four phases in order without a late or
-- empty one, one framebuffer, its owner, a touch state, its status, and a healthy display in progress.
abbrev pub Captured : CommandResult → Type 0
Captured snapshot =
    (snapshot.return_code ≡ 0)
    × (PhasesPass snapshot.output snapshot_phases
        × (Unchanged snapshot.output (codes "snapshot-a" ∷ codes "snapshot-b" ∷ [])
            × ((searches ownership_line_re snapshot.output ≡ true)
                × ((searches touch_line_re snapshot.output ≡ true)
                    × ((runtime_status_problem snapshot.output 1 ≡ none)
                        × HealthyLog snapshot.output 2 false true)))))

judge_snapshot-Captured :
    (snapshot : CommandResult) → (judge_snapshot snapshot ≡ ok tt) ↔ Captured snapshot
unfolding judge_snapshot
judge_snapshot-Captured snapshot =
    let output = snapshot.output in
    both (equals snapshot.return_code 0 _) (
      both (phases_pass _ output snapshot_phases) (
        both (keeps_framebuffer _ output _) (
          both (searched ownership_line_re output _) (
            both (searched touch_line_re output _)
              (both (no_status_problem _ output) (stays_healthy _ output 2 false true))))))

abbrev pub Recovers : Outcome Text → Type 0
Recovers recovery = (text : Text) × (recovery ≡ returned text) × (failure_marker text ≡ none)

never_ok :
    (r : Result Stop (Unit {0})) (s : Stop)
    → let stopped : Result Stop (Unit {0}) = raise s in (r >> stopped) ≡ ok tt → ⊥
never_ok (ok u) s h = cc
never_ok (raise e) s h = cc

abbrev silence : Text → Result Stop (Unit {0})
silence passive =
    stop_at (codes "snapshot-passive") Detail.terminal_failure (failure_marker passive)

abbrev pub SnapshotTaken : (Text → Text → ℕ → Outcome CommandResult) → Text → Outcome Text → Type 0
SnapshotTaken run passive recovery =
    (failure_marker passive ≡ none)
    × Recovers recovery
    × Answers run touch_terminal_command (codes "TOUCH_TERMINAL") 30_000 Settled
    × Answers run snapshot_command (codes "SNAPSHOT") 30_000 Captured

-- `run_snapshot` returns 0 exactly if the passive capture shows no failure, the prompt is recovered with a text
-- that shows none, the touch controller settles, and the board answers the snapshot's command by a result that
-- shows a healthy display: four phases in order with no late or empty one, one framebuffer in both looks, its
-- owner, a touch state and its status.
pub run_snapshot-SnapshotTaken :
    (run : Text → Text → ℕ → Outcome CommandResult) (passive : Text) (recovery : Outcome Text)
    → (run_snapshot run passive recovery ≡ ok tt) ↔ SnapshotTaken run passive recovery
unfolding run_snapshot awaited
run_snapshot-SnapshotTaken run passive (returned text) =
    let silent =
      stop_at-none (codes "snapshot-passive") Detail.terminal_failure (failure_marker passive) in
    let alive =
      stop_at-none (codes "snapshot-reconnect") Detail.terminal_failure (failure_marker text) in
    let touch = wait_for_touch_terminal-Settled run (codes "snapshot-touch") in
    let look =
      step-Answers run snapshot_command (codes "SNAPSHOT") 30_000 judge_snapshot Captured
        judge_snapshot-Captured in
    let (asks, passes) = both silent (both alive (both touch look)) in
    (
      λ h. let (a, (b, (c, d))) = asks h in (a, (text, refl, b), c, d),
      λ (a, (t, e, b), c, d). passes (a, (rw (returned-injective e) b, (c, d))),
    )
  where
    returned-injective : {a b : Text} → returned a ≡ returned b → a ≡ b
    returned-injective h = cc
run_snapshot-SnapshotTaken run passive (kernel_failure marker) =
    (λ h. absurd (never_ok (silence passive) _ h), λ (a, (t, e, b), c, d). cc)
run_snapshot-SnapshotTaken run passive short_write =
    (λ h. absurd (never_ok (silence passive) _ h), λ (a, (t, e, b), c, d). cc)
run_snapshot-SnapshotTaken run passive timed_out =
    (λ h. absurd (never_ok (silence passive) _ h), λ (a, (t, e, b), c, d). cc)
