-- ===== src/Hardware/Gate/Passed.antt =====
-- What `main` (m9-hardware-test.py) has checked when it returns 0.
use micro_nux.Base.{
  ◌≢◌, through, chained, ◌+◌, ◌*◌, ◌≡◌, ◌↔◌, refl, Text, codes, Result, ok, raise, both, chained,
}
use micro_nux.Hardware.Boot.Order.{GoodBoot, boot_contract_problem-GoodBoot}
use micro_nux.Hardware.Gate.{
  Arguments, Bench, Mode, as_exit, boot_and_handle, count_of, dispatch, disconnect, handle, main,
  preflight, snapshot, soak, stop_payload, stress, touch,
}
use micro_nux.Hardware.Gate.Bounds.{ArgumentsFit, check_arguments-ArgumentsFit}
use micro_nux.Hardware.Disconnect.Passed.{Disconnected, run_disconnect-Disconnected}
use micro_nux.Hardware.Disconnect.Sound.{awaited-returned}
use micro_nux.Hardware.Identity.Commands.{identity_command}
use micro_nux.Hardware.Identity.Verified.{Identified, verify_runtime_identity-Identified}
use micro_nux.Hardware.Payload.{PayloadProblem}
use micro_nux.Hardware.Payload.Verified.{VerifiedFiles, verify_boot_payload-VerifiedFiles}
use micro_nux.Hardware.Preflight.{Detail, Stop}
use micro_nux.Hardware.Preflight.Checks.{stop_at-none}
use micro_nux.Hardware.Preflight.Passed.{Answers, PreflightPassed, run_preflight-PreflightPassed}
use micro_nux.Hardware.Serial.{returned}
use micro_nux.Hardware.Snapshot.Captured.{SnapshotTaken, run_snapshot-SnapshotTaken}
use micro_nux.Hardware.Soak.{samples_in}
use micro_nux.Hardware.Soak.Commands.{soak_command}
use micro_nux.Hardware.Soak.Passed.{Soaked, run_soak-Soaked}
use micro_nux.Hardware.Stress.Commands.{stress_command}
use micro_nux.Hardware.Stress.Passed.{Stressed, run_stress-Stressed}
use micro_nux.Hardware.Touch.Commands.{touch_command, touch_terminal_command}
use micro_nux.Hardware.Touch.Passed.{
  Settled, Touched, run_touch-Touched, wait_for_touch_terminal-Settled,
}

-- What each handler asks, of the boot log and the board.
abbrev pub Handled : Bench → Text → Mode → Arguments → Type 0
Handled bench boot_log preflight args = PreflightPassed bench.run boot_log
Handled bench boot_log touch args =
    let timeout = count_of args.point_timeout_ms in
    Answers bench.run (touch_command timeout) (codes "TOUCH") (timeout * 5 + 65_000) Touched
Handled bench boot_log soak args =
    let seconds = count_of args.soak_seconds in
    let apart = count_of args.sample_seconds in
    let count = samples_in seconds apart in
    (apart ≢ 0)
    × Answers bench.run (soak_command apart count) (codes "SOAK") (seconds * 1000 + 60_000)
        (Soaked count)
Handled bench boot_log stress args =
    let cycles = count_of args.stress_cycles in
    Answers bench.run (stress_command cycles) (codes "STRESS") 520_000 (Stressed cycles)
Handled bench boot_log disconnect args =
    Disconnected bench.run bench.reconnected bench.recovery (count_of args.disconnect_seconds)
Handled bench boot_log snapshot args = SnapshotTaken bench.run bench.passive bench.recovery

handle-Handled :
    (bench : Bench) (boot_log : Text) (mode : Mode) (args : Arguments)
    → (handle bench boot_log mode args ≡ ok tt) ↔ Handled bench boot_log mode args
unfolding handle
handle-Handled bench boot_log preflight args = run_preflight-PreflightPassed bench.run boot_log
handle-Handled bench boot_log touch args =
    run_touch-Touched bench.run (count_of args.point_timeout_ms)
handle-Handled bench boot_log soak args =
    run_soak-Soaked bench.run (count_of args.soak_seconds) (count_of args.sample_seconds)
handle-Handled bench boot_log stress args =
    run_stress-Stressed bench.run (count_of args.stress_cycles)
handle-Handled bench boot_log disconnect args =
    run_disconnect-Disconnected bench.run bench.reconnected bench.recovery
      (count_of args.disconnect_seconds)
handle-Handled bench boot_log snapshot args =
    run_snapshot-SnapshotTaken bench.run bench.passive bench.recovery

stop_payload-ok : (r : Result PayloadProblem (Unit {0})) → (stop_payload r ≡ ok tt) ↔ (r ≡ ok tt)
unfolding stop_payload
stop_payload-ok (ok u) = (λ h. refl, λ h. refl)
stop_payload-ok (raise p) = (λ h. cc, λ h. cc)

-- The board boots the files into a shell, shows one running boot and a touch controller that settles, and
-- the handler has what it asks.
abbrev pub BootedAndHandled : Bench → Arguments → Type 0
BootedAndHandled bench args =
    (boot_log : Text) × (bench.shell ≡ returned boot_log)
    × (VerifiedFiles boot_log bench.image bench.dtb bench.metadata
        × (GoodBoot boot_log
            × (Answers bench.run identity_command (codes "RUNTIME_IDENTITY") 20_000 Identified
                × (Answers bench.run touch_terminal_command (codes "TOUCH_TERMINAL") 30_000 Settled
                    × Handled bench boot_log args.mode args))))

boot_and_handle-BootedAndHandled :
    (bench : Bench) (args : Arguments)
    → (boot_and_handle bench args ≡ ok tt) ↔ BootedAndHandled bench args
unfolding boot_and_handle
boot_and_handle-BootedAndHandled bench args = chained (awaited-returned bench.shell) λ boot_log.
    both
      (through (stop_payload-ok _)
        (verify_boot_payload-VerifiedFiles boot_log bench.image bench.dtb bench.metadata))
      (both (through (stop_at-none _ Detail.boot _) (boot_contract_problem-GoodBoot boot_log)) (
        both (verify_runtime_identity-Identified bench.run) (
          both (wait_for_touch_terminal-Settled bench.run _)
            (handle-Handled bench boot_log args.mode args))))

-- A snapshot does not reset the board.
abbrev pub Dispatched : Bench → Mode → Arguments → Type 0
Dispatched bench snapshot args = SnapshotTaken bench.run bench.passive bench.recovery
Dispatched bench preflight args = BootedAndHandled bench args
Dispatched bench touch args = BootedAndHandled bench args
Dispatched bench soak args = BootedAndHandled bench args
Dispatched bench stress args = BootedAndHandled bench args
Dispatched bench disconnect args = BootedAndHandled bench args

dispatch-Dispatched :
    (bench : Bench) (mode : Mode) (args : Arguments)
    → (dispatch bench mode args ≡ ok tt) ↔ Dispatched bench mode args
unfolding dispatch
dispatch-Dispatched bench snapshot args =
    run_snapshot-SnapshotTaken bench.run bench.passive bench.recovery
dispatch-Dispatched bench preflight args = boot_and_handle-BootedAndHandled bench args
dispatch-Dispatched bench touch args = boot_and_handle-BootedAndHandled bench args
dispatch-Dispatched bench soak args = boot_and_handle-BootedAndHandled bench args
dispatch-Dispatched bench stress args = boot_and_handle-BootedAndHandled bench args
dispatch-Dispatched bench disconnect args = boot_and_handle-BootedAndHandled bench args

as_exit-ok : (r : Result Stop (Unit {0})) → (as_exit r ≡ ok tt) ↔ (r ≡ ok tt)
unfolding as_exit
as_exit-ok (ok u) = (λ h. refl, λ h. refl)
as_exit-ok (raise s) = (λ h. cc, λ h. cc)

abbrev pub GatePassed : Bench → Arguments → Type 0
GatePassed bench args = ArgumentsFit args × Dispatched bench args.mode args

-- `main` returns 0 exactly if every argument lies in its bounds, and, in snapshot mode, the snapshot is taken;
-- in every other mode, the shell comes up with a boot log that verifies the three files and has no problem,
-- the board shows one running boot and a touch controller that settles, and the mode's handler has what it
-- asks: the preflight's commands, five touched points, a whole soak, a passed stress, or a display retained
-- over a disconnection.
pub main-GatePassed :
    (bench : Bench) (args : Arguments) → (main bench args ≡ ok tt) ↔ GatePassed bench args
unfolding main
main-GatePassed bench args = both (check_arguments-ArgumentsFit args) (
    through (as_exit-ok (dispatch bench args.mode args)) (dispatch-Dispatched bench args.mode args))
