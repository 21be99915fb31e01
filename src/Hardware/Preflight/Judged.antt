-- ===== src/Hardware/Preflight/Judged.antt =====
-- What the judgements of `run_preflight` (m9-hardware-test.py) ask of a command's result.
use micro_nux.Base.{
  ℕ, ◌≡◌, refl, ◌↔◌, Bool, true, false, not, ◌||◌, ◌&&◌, ap, none, Text, codes, All, ok, Result,
  ◌>>=◌, raise_if-false, both,
}
use micro_nux.Base.Find.{Occurs}
use micro_nux.Base.Regex.{searches}
use micro_nux.Base.Strings.{is_within}
use micro_nux.Hardware.Contract.Health.{HealthyLog}
use micro_nux.Hardware.Framebuffer.{runtime_status_problem}
use micro_nux.Hardware.Framebuffer.Unchanged.{Unchanged}
use micro_nux.Hardware.Serial.{
  CommandResult, Outcome, returned, kernel_failure, short_write, timed_out,
}
use micro_nux.Hardware.Preflight.{
  Stop, Demand, answer, judge, judge_check, judge_sysfs, step, ownership_line_re, touch_line_re,
}
use micro_nux.Hardware.Preflight.Checks.{
  not-false, equals, no_status_problem, stays_healthy, keeps_framebuffer, searched, all_there,
}

-- The command has left the display as it was: it succeeds, the framebuffer is the same before and
-- after, the markers stand in the output, and the display is healthy throughout.
pub record Restored (d : Demand) (result : CommandResult) : Type 0 where
  pub succeeded : result.return_code ≡ 0
  pub unchanged : Unchanged result.output d.phases
  pub marked : All (λ m. Occurs m result.output) d.markers
  pub status : runtime_status_problem result.output 1 ≡ none
  pub healthy : HealthyLog result.output d.minimum d.require_flip true

pub judge-Restored :
    (d : Demand) (result : CommandResult) → (judge d result ≡ ok tt) ↔ Restored d result
unfolding judge
judge-Restored d result =
    let output = result.output in
    let (asks, passes) = both (equals result.return_code 0 _) (
      both (keeps_framebuffer _ output d.phases) (
        both (all_there _ d.markers output) (
          both (no_status_problem _ output)
            (stays_healthy _ output d.minimum d.require_flip true)))) in
    (
      λ h.
          let (succeeded, (unchanged, (marked, (status, healthy)))) = asks h in
          record {
            succeeded = succeeded;
            unchanged = unchanged;
            marked = marked;
            status = status;
            healthy = healthy;
          },
      λ r. passes (r.succeeded, (r.unchanged, (r.marked, (r.status, r.healthy)))),
    )

answered :
    (outcome : Outcome CommandResult) (judgement : CommandResult → Result Stop (Unit {0}))
    → ((answer outcome >>= judgement) ≡ ok tt)
      ↔ ((result : CommandResult) × (outcome ≡ returned result) × (judgement result ≡ ok tt))
unfolding answer
answered (returned result) judgement =
    (λ h. (result, refl, h), λ (r, e, h). let same : result ≡ r = cc in rw same h)
answered (kernel_failure m) judgement = (λ h. cc, λ (r, e, h). cc)
answered short_write judgement = (λ h. cc, λ (r, e, h). cc)
answered timed_out judgement = (λ h. cc, λ (r, e, h). cc)

pub step-returned :
    (run : Text → Text → ℕ → Outcome CommandResult) (command label : Text) (seconds : ℕ)
    (judgement : CommandResult → Result Stop (Unit {0}))
    → (step run command label seconds judgement ≡ ok tt) ↔ (
        (result : CommandResult) × (run command label seconds ≡ returned result)
        × (judgement result ≡ ok tt))
unfolding step
step-returned run command label seconds judgement = answered (run command label seconds) judgement

-- The board's own check passes, and the touch controller is ready without errors, or not there.
pub record Checked (check : CommandResult) : Type 0 where
  pub succeeded : check.return_code ≡ 0
  pub passed : is_within (codes "MICRONUX:M9:DISPLAY-TEST:PASS mode=check") check.output ≡ true
  pub touch_known :
      (is_within (codes "ready product=9271") check.output
        || (is_within (codes "touch=unavailable") check.output
            || is_within (codes "input=unavailable") check.output))
      ≡ true
  pub no_touch_error :
      is_within (codes "ready product=9271") check.output ≡ true
      → is_within (codes "errors=0") check.output ≡ true

none_of-false : (a b c : Bool) → (not a && not b && not c) ≡ false → (a || (b || c)) ≡ true
none_of-false true b c h = refl
none_of-false false true c h = refl
none_of-false false false true h = refl
none_of-false false false false h = cc

some_of-true : (a b c : Bool) → (a || (b || c)) ≡ true → (not a && not b && not c) ≡ false
some_of-true true b c h = refl
some_of-true false true c h = refl
some_of-true false false true h = refl
some_of-true false false false h = cc

and_not-false : (a b : Bool) → (a && not b) ≡ false → a ≡ true → b ≡ true
and_not-false true true h k = refl
and_not-false true false h k = cc
and_not-false false b h k = cc

implies-true : (a b : Bool) → (a ≡ true → b ≡ true) → (a && not b) ≡ false
implies-true true b h = ap not (h refl)
implies-true false b h = refl

pub judge_check-Checked : (check : CommandResult) → (judge_check check ≡ ok tt) ↔ Checked check
unfolding judge_check
judge_check-Checked check =
    let output = check.output in
    let ready = is_within (codes "ready product=9271") output in
    let absent = is_within (codes "touch=unavailable") output in
    let no_input = is_within (codes "input=unavailable") output in
    let clean = is_within (codes "errors=0") output in
    let pass = is_within (codes "MICRONUX:M9:DISPLAY-TEST:PASS mode=check") output in
    let (asks, passes) = both (equals check.return_code 0 _) (
      both (raise_if-false (not pass) _) (
        both (raise_if-false (not ready && not absent && not no_input) _)
          (raise_if-false (ready && not clean) _))) in
    (
      λ h.
          let (succeeded, (passed, (known, errors))) = asks h in
          record {
            succeeded = succeeded;
            passed = not-false pass passed;
            touch_known = none_of-false ready absent no_input known;
            no_touch_error = and_not-false ready clean errors;
          },
      λ c. passes (
        c.succeeded,
        (
          ap not c.passed,
          (
            some_of-true ready absent no_input c.touch_known,
            implies-true ready clean c.no_touch_error,
          ),
        ),
      ),
    )

-- The display's files show who owns it, a touch state, its status and a healthy display.
pub record Shown (sysfs : CommandResult) : Type 0 where
  pub succeeded : sysfs.return_code ≡ 0
  pub owned : searches ownership_line_re sysfs.output ≡ true
  pub touch : searches touch_line_re sysfs.output ≡ true
  pub status : runtime_status_problem sysfs.output 1 ≡ none
  pub healthy : HealthyLog sysfs.output 1 false false

pub judge_sysfs-Shown : (sysfs : CommandResult) → (judge_sysfs sysfs ≡ ok tt) ↔ Shown sysfs
unfolding judge_sysfs
judge_sysfs-Shown sysfs =
    let output = sysfs.output in
    let (asks, passes) = both (equals sysfs.return_code 0 _) (
      both (searched ownership_line_re output _) (
        both (searched touch_line_re output _)
          (both (no_status_problem _ output) (stays_healthy _ output 1 false false)))) in
    (
      λ h.
          let (succeeded, (owned, (touch, (status, healthy)))) = asks h in
          record {
            succeeded = succeeded;
            owned = owned;
            touch = touch;
            status = status;
            healthy = healthy;
          },
      λ s. passes (s.succeeded, (s.owned, (s.touch, (s.status, s.healthy)))),
    )
