-- ===== src/Hardware/Gate.antt =====
-- `main` of m9-hardware-test.py: the bounds of its arguments, and the handler of each mode.
pub mod Bounds
pub mod Passed
use micro_nux.Base.{
  ℕ, ◌<◌, not, Bool, true, false, ◌||◌, ltb, ℤ, pos, negsuc, Option, some, none, Text, codes,
  Result, ok, raise, raise_if, ◌>>=◌, ◌>>◌, if◌then◌else◌,
}
use micro_nux.Hardware.Boot.{boot_contract_problem}
use micro_nux.Hardware.Disconnect.{run_disconnect}
use micro_nux.Hardware.Identity.{verify_runtime_identity}
use micro_nux.Hardware.Payload.{PayloadProblem, verify_boot_payload}
use micro_nux.Hardware.Preflight.{Detail, Stop, boot, failed, payload, run_preflight, stop_at}
use micro_nux.Hardware.Serial.{CommandResult, Outcome}
use micro_nux.Hardware.Snapshot.{awaited, run_snapshot}
use micro_nux.Hardware.Soak.{run_soak}
use micro_nux.Hardware.Stress.{run_stress}
use micro_nux.Hardware.Touch.{run_touch, wait_for_touch_terminal}

pub data Mode : Type 0 where
  preflight touch soak stress disconnect snapshot : Mode

-- The parsed arguments, apart from the port and the directory.
pub record Arguments : Type 0 where
  pub mode : Mode
  pub point_timeout_ms : ℤ
  pub soak_seconds : ℤ
  pub sample_seconds : ℤ
  pub disconnect_seconds : ℤ
  pub snapshot_seconds : ℤ
  pub stress_cycles : ℤ

-- `add_argument(default=...)`
abbrev pub default_arguments : Mode → Arguments
default_arguments mode = record {
  mode = mode;
  point_timeout_ms = pos 60_000;
  soak_seconds = pos 240;
  sample_seconds = pos 15;
  disconnect_seconds = pos 600;
  snapshot_seconds = pos 2;
  stress_cycles = pos 3;
}

-- The argument that `parser.error` names.
pub data Usage : Type 0 where
  bad_point_timeout bad_soak bad_sample sample_exceeds_soak : Usage
  bad_disconnect bad_snapshot bad_stress : Usage

-- How `main` ends other than by 0: `parser.error` leaves with 2, and the rest is a returned 1.
pub data Exit : Type 0 where
  usage : Usage → Exit
  stopped : Stop → Exit

-- `value < least or value > most`
unfoldable pub outside : ℤ → ℕ → ℕ → Bool
outside (pos n) least most = ltb n least || ltb most n
outside (negsuc n) least most = true

-- `a > b`
unfoldable pub exceeds : ℤ → ℤ → Bool
exceeds (pos a) (pos b) = ltb b a
exceeds (pos a) (negsuc b) = true
exceeds (negsuc a) (pos b) = false
exceeds (negsuc a) (negsuc b) = ltb a b

unfoldable pub check_arguments : Arguments → Result Exit (Unit {0})
check_arguments args = do
  raise_if (outside args.point_timeout_ms 5_000 120_000) (usage bad_point_timeout)
  raise_if (outside args.soak_seconds 60 900) (usage bad_soak)
  raise_if (outside args.sample_seconds 5 60) (usage bad_sample)
  raise_if (exceeds args.sample_seconds args.soak_seconds) (usage sample_exceeds_soak)
  raise_if (outside args.disconnect_seconds 5 900) (usage bad_disconnect)
  raise_if (outside args.snapshot_seconds 1 30) (usage bad_snapshot)
  raise_if (outside args.stress_cycles 1 10) (usage bad_stress)

-- An argument that has passed its bounds.
abbrev pub count_of : ℤ → ℕ
count_of (pos n) = n
count_of (negsuc n) = 0

-- What `main` works on: the three files of the directory, the board's answers to commands, the outcome of
-- `wait_for_shell` behind a reset, what a snapshot captures first, what is captured when the port opens again
-- behind a disconnection, and the outcome of `recover_reconnect_prompt`.
pub record Bench : Type 0 where
  pub image : Option Text
  pub dtb : Option Text
  pub metadata : Option Text
  pub run : Text → Text → ℕ → Outcome CommandResult
  pub shell : Outcome Text
  pub passive : Text
  pub recovery : Outcome Text
  pub reconnected : Outcome Text

unfoldable pub stop_payload : Result PayloadProblem (Unit {0}) → Result Stop (Unit {0})
stop_payload (ok _) = ok tt
stop_payload (raise problem) = raise (failed (codes "boot-payload") (payload problem))

-- The handler behind the checks on the boot.
unfoldable pub handle : Bench → Text → Mode → Arguments → Result Stop (Unit {0})
handle bench boot_log preflight args = run_preflight bench.run boot_log
handle bench boot_log touch args = run_touch bench.run (count_of args.point_timeout_ms)
handle bench boot_log soak args =
    run_soak bench.run (count_of args.soak_seconds) (count_of args.sample_seconds)
handle bench boot_log stress args = run_stress bench.run (count_of args.stress_cycles)
handle bench boot_log disconnect args =
    run_disconnect bench.run bench.reconnected bench.recovery (count_of args.disconnect_seconds)
handle bench boot_log snapshot args = run_snapshot bench.run bench.passive bench.recovery

-- The modes that reset the board.
unfoldable pub boot_and_handle : Bench → Arguments → Result Stop (Unit {0})
boot_and_handle bench args = do
  boot_log ← awaited bench.shell
  stop_payload (verify_boot_payload boot_log bench.image bench.dtb bench.metadata)
  stop_at (codes "boot-markers") boot (boot_contract_problem boot_log)
  verify_runtime_identity bench.run
  wait_for_touch_terminal bench.run (codes "touch-terminal")
  handle bench boot_log args.mode args

unfoldable pub dispatch : Bench → Mode → Arguments → Result Stop (Unit {0})
dispatch bench snapshot args = run_snapshot bench.run bench.passive bench.recovery
dispatch bench mode args = boot_and_handle bench args

unfoldable pub as_exit : Result Stop (Unit {0}) → Result Exit (Unit {0})
as_exit (ok _) = ok tt
as_exit (raise stop) = raise (stopped stop)

unfoldable pub main : Bench → Arguments → Result Exit (Unit {0})
main bench args = check_arguments args >> as_exit (dispatch bench args.mode args)
