-- ===== src/Hardware/Disconnect/Retained.antt =====
-- What a board has shown when `run_disconnect` (m9-hardware-test.py) returns 0.
use micro_nux.Base.{
  ℕ, ◌≡◌, ◌↔◌, not, true, false, ◌||◌, [], ◌∷◌, Text, codes, ◌==◌, ok, raise_if, raise_if-false,
  both, arith,
}
use micro_nux.Base.Find.{Occurs}
use micro_nux.Base.Regex.{searches}
use micro_nux.Hardware.Contract.Health.{HealthyLog}
use micro_nux.Hardware.Framebuffer.Unchanged.{Unchanged}
use micro_nux.Hardware.Phases.Steps.{PhasesPass}
use micro_nux.Hardware.Serial.{CommandResult}
use micro_nux.Hardware.Preflight.{Stop}
use micro_nux.Hardware.Preflight.Checks.{equals, keeps_framebuffer, occurs, searched, stays_healthy}
use micro_nux.Hardware.Disconnect.{Afterwards, judge_afterwards, judge_before}
use micro_nux.Hardware.Disconnect.Continued.{
  Kept, Regained, check_after-Regained, check_boundary-Kept,
}
use micro_nux.Hardware.Disconnect.Lines.{before_phases, boot_ids, status_line_re, touch_lines}
use micro_nux.Hardware.Disconnect.Sound.{EndsWith, check_boot-EndsWith, last_id-EndsWith}
use micro_nux.Hardware.Snapshot.Captured.{phases_pass}

-- The display before the port is closed: the framebuffer's hash, two phases, the status, health, one touch
-- line, and the boot identifier that is shown last.
abbrev pub Steady : CommandResult → Text → Type 0
Steady before boot_id =
    (before.return_code ≡ 0)
    × (Unchanged before.output (codes "disconnect-before" ∷ [])
        × (PhasesPass before.output before_phases
            × ((searches (status_line_re (codes "MICRONUX:M9:USB-DISCONNECT:STATUS-BEFORE"))
                    before.output
                  ≡ true)
                × (HealthyLog before.output 1 false false
                    × ((touch_lines before.output ≡ 1)
                        × EndsWith
                            (boot_ids (codes "MICRONUX:M9:USB-DISCONNECT:BEFORE") before.output)
                            boot_id)))))

pub judge_before-Steady :
    (before : CommandResult) (boot_id : Text)
    → (judge_before before ≡ ok boot_id) ↔ Steady before boot_id
unfolding judge_before
judge_before-Steady before boot_id =
    let output = before.output in
    both (equals before.return_code 0 _) (
      both (keeps_framebuffer _ output _) (
        both (phases_pass _ output before_phases) (
          both (searched _ output _) (
            both (stays_healthy _ output 1 false false)
              (both (equals (touch_lines output) 1 _) (last_id-EndsWith _ _ boot_id))))))

-- The same boot, three commands that succeed, a complete record of the disconnection, and a display that has
-- been kept and regained.
abbrev pub Retained : Text → Text → Afterwards → Type 0
Retained before boot_id a =
    (a.after_id.return_code ≡ 0)
    × (EndsWith (boot_ids (codes "MICRONUX:M9:USB-DISCONNECT:AFTER") a.after_id.output) boot_id
        × (((a.boundary.return_code ≡ 0)
              × ((a.after_state.return_code ≡ 0) × (a.after_scanout.return_code ≡ 0)))
            × (Occurs (codes "MICRONUX:M9:USB-DISCONNECT:BOUNDARY:COMPLETE") a.boundary.output
                × (EndsWith
                      (boot_ids (codes "MICRONUX:M9:USB-DISCONNECT:BOUNDARY:BEGIN")
                        a.boundary.output)
                      boot_id
                    × (Kept before a.boundary.output × Regained before a)))))

three_succeed :
    (a b c : ℕ) (e : Stop)
    → (raise_if (not (a == 0) || not (b == 0) || not (c == 0)) e ≡ ok tt)
      ↔ ((a ≡ 0) × ((b ≡ 0) × (c ≡ 0)))
three_succeed a b c e =
    let (asks, passes) = raise_if-false (not (a == 0) || not (b == 0) || not (c == 0)) e in
    (
      λ h. let no = asks h in (ground (arith, no), (ground (arith, no), ground (arith, no))),
      λ h. passes (ground (arith, h)),
    )

pub judge_afterwards-Retained :
    (before boot_id reconnect_log : Text) (a : Afterwards)
    → (judge_afterwards before boot_id reconnect_log a ≡ ok tt) ↔ Retained before boot_id a
unfolding judge_afterwards
judge_afterwards-Retained before boot_id reconnect_log a =
    both (equals a.after_id.return_code 0 _) (
      both (check_boot-EndsWith _ boot_id _) (
        both
          (three_succeed a.boundary.return_code a.after_state.return_code
            a.after_scanout.return_code _)
          (both (occurs _ a.boundary.output _) (
            both (check_boot-EndsWith _ boot_id _) (
              both (check_boundary-Kept before a.boundary.output)
                (check_after-Regained before reconnect_log a))))))
