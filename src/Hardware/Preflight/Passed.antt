-- ===== src/Hardware/Preflight/Passed.antt =====
-- What a board has shown when `run_preflight` (m9-hardware-test.py) returns 0.
use micro_nux.Base.{then_ok, ℕ, ◌≡◌, ◌↔◌, Text, codes, ok, Result}
use micro_nux.Hardware.Boot.{boot_contract_problem}
use micro_nux.Hardware.Boot.Order.{GoodBoot, boot_contract_problem-GoodBoot}
use micro_nux.Hardware.Serial.{CommandResult, Outcome, returned}
use micro_nux.Hardware.Preflight.{
  Stop, Detail, judge, judge_check, judge_sysfs, step, run_preflight, vpg_demand,
  presentation_demand, signal_demand,
}
use micro_nux.Hardware.Preflight.Commands.{
  check_command, sysfs_command, vpg_unavailable_command, presentation_command, signal_command,
}
use micro_nux.Hardware.Preflight.Checks.{stop_at-none}
use micro_nux.Hardware.Preflight.Judged.{
  Restored, Checked, Shown, judge-Restored, step-returned, judge_check-Checked, judge_sysfs-Shown,
}

module _ (run : Text → Text → ℕ → Outcome CommandResult) where
  -- The board answers the command with a result of this kind.
  abbrev pub Answers : Text → Text → ℕ → (CommandResult → Type 0) → Type 0
  Answers command label milliseconds Good =
      (result : CommandResult) × (run command label milliseconds ≡ returned result) × Good result

  pub step-Answers :
      (command label : Text) (milliseconds : ℕ) (judgement : CommandResult → Result Stop (Unit {0}))
      (Good : CommandResult → Type 0)
      → ((result : CommandResult) → (judgement result ≡ ok tt) ↔ Good result)
      → (step run command label milliseconds judgement ≡ ok tt)
        ↔ Answers command label milliseconds Good
  step-Answers command label milliseconds judgement Good judged =
      let (forth, back) = step-returned run command label milliseconds judgement in
      (
        λ h. let (r, e, passed) = forth h in (r, e, (judged r).0 passed),
        λ (r, e, good). back (r, e, (judged r).1 good),
      )

  -- What the preflight asks of the boot log and of the five commands.
  pub record PreflightPassed (boot_log : Text) : Type 0 where
    pub booted : GoodBoot boot_log
    pub check : Answers check_command (codes "CHECK") 30_000 Checked
    pub sysfs : Answers sysfs_command (codes "DISPLAY_SYSFS") 20_000 Shown
    pub vpg : Answers vpg_unavailable_command (codes "VPG_UNAVAILABLE") 20_000 (Restored vpg_demand)
    pub presentation :
        Answers presentation_command (codes "PRESENTATION") 45_000 (Restored presentation_demand)
    pub signal : Answers signal_command (codes "SIGNAL") 45_000 (Restored signal_demand)

  -- run_preflight returns 0 exactly if the boot log has no problem and the board answers the five
  -- commands: its own check passes with a touch controller that has no error or is not there, the
  -- display's files show a healthy display, and the rejected test pattern, the presentation and the
  -- interrupted presentation each leave the framebuffer as it was, with their markers and a healthy
  -- display that makes progress.
  pub run_preflight-PreflightPassed :
      (boot_log : Text) → (run_preflight run boot_log ≡ ok tt) ↔ PreflightPassed boot_log
  unfolding run_preflight
  run_preflight-PreflightPassed boot_log =
      let (boot, good_boot) =
        stop_at-none (codes "boot-markers") Detail.boot (boot_contract_problem boot_log) in
      let (booted, boots) = boot_contract_problem-GoodBoot boot_log in
      let check =
        step-Answers check_command (codes "CHECK") 30_000 judge_check Checked judge_check-Checked in
      let sysfs =
        step-Answers sysfs_command (codes "DISPLAY_SYSFS") 20_000 judge_sysfs Shown
          judge_sysfs-Shown in
      let vpg =
        step-Answers vpg_unavailable_command (codes "VPG_UNAVAILABLE") 20_000 (judge vpg_demand)
          (Restored vpg_demand) (judge-Restored vpg_demand) in
      let presentation =
        step-Answers presentation_command (codes "PRESENTATION") 45_000 (judge presentation_demand)
          (Restored presentation_demand) (judge-Restored presentation_demand) in
      let signal =
        step-Answers signal_command (codes "SIGNAL") 45_000 (judge signal_demand)
          (Restored signal_demand) (judge-Restored signal_demand) in
      (
        λ h.
            let (one, h1) = (then_ok _ _).0 h in
            let (two, h2) = (then_ok _ _).0 h1 in
            let (three, h3) = (then_ok _ _).0 h2 in
            let (four, h4) = (then_ok _ _).0 h3 in
            let (five, six) = (then_ok _ _).0 h4 in
            record {
              booted = booted (boot one);
              check = check.0 two;
              sysfs = sysfs.0 three;
              vpg = vpg.0 four;
              presentation = presentation.0 five;
              signal = signal.0 six;
            },
        λ p. (then_ok _ _).1 (
          good_boot (boots p.booted),
          (then_ok _ _).1 (
            check.1 p.check,
            (then_ok _ _).1 (
              sysfs.1 p.sysfs,
              (then_ok _ _).1
                  (vpg.1 p.vpg, (then_ok _ _).1 (presentation.1 p.presentation, signal.1 p.signal)),
            ),
          ),
        ),
      )
