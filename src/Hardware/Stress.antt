-- ===== src/Hardware/Stress.antt =====
-- `run_stress` of m9-hardware-test.py.
pub mod Commands
pub mod Passed
use micro_nux.Base.{
  ℕ, ◌+◌, not, Bool, true, false, ◌&&◌, ◌||◌, ◌++◌, List, [], ◌∷◌, Text, codes, ltb, leb, ◌==◌,
  length, map, none, Result, ok, raise, raise_if, ◌>>=◌, ◌>>◌,
}
use micro_nux.Base.Regex.{Re, Found, ◌&◌, digits, find_all, lit, optional, searches}
use micro_nux.Base.Strings.{decimal, str}
use micro_nux.Hardware.Boot.{first_missing}
use micro_nux.Hardware.Contract.{display_health_problem}
use micro_nux.Hardware.Framebuffer.{first_groups, framebuffer_hash_problem}
use micro_nux.Hardware.Phases.{texts_eq}
use micro_nux.Hardware.Samples.{diagnostics_samples, line_break, scanout_samples}
use micro_nux.Hardware.Serial.{CommandResult, Outcome}
use micro_nux.Hardware.Preflight.{
  Detail, Stop, failed, health, index_error, memavailable_loss, memfree_loss, missing,
  restore_state, return_code, snapshot_count, stages_invalid, step, stop_at, stop_hashes,
  touch_line_re, touch_sample_count,
}
use micro_nux.Hardware.Stress.Commands.{stress_command}

abbrev pub expected_stages : List Text
expected_stages =
    codes "before"
    ∷ codes "graphics"
    ∷ codes "storage"
    ∷ codes "network"
    ∷ codes "io"
    ∷ codes "memory"
    ∷ codes "after"
    ∷ []

-- `[a-z-]+`
abbrev stage_name : Re
stage_name = Re.run (λ c. (leb b'a' c && leb c b'z') || c == b'-') 1 none

-- `\s` of a Python pattern on a text: the ASCII and Latin-1 spaces, and those of Unicode.
abbrev is_space : ℕ → Bool
is_space c =
    (leb 9 c && leb c 13)
    || (leb 28 c && leb c 32)
    || c == 0x85
    || c == 0xa0
    || c == 0x1680
    || (leb 0x2000 c && leb c 0x200a)
    || c == 0x2028
    || c == 0x2029
    || c == 0x202f
    || c == 0x205f
    || c == 0x3000

abbrev spaces : Re
spaces = Re.run is_space 1 none

abbrev pub snapshot_re : Re
snapshot_re =
    Re.line_start & lit "MICRONUX:M9.2:STRESS:SNAPSHOT stage=" & Re.group stage_name & line_break

-- `\r?\n`
abbrev new_line : Re
new_line = optional (lit "\r") & lit "\n"

abbrev pub memory_re : Re
memory_re =
    Re.line_start
    & lit "MICRONUX:M9.2:STRESS:MEM stage="
    & Re.group stage_name
    & new_line
    & lit "MemFree:"
    & spaces
    & Re.group digits
    & lit " kB"
    & new_line
    & lit "MemAvailable:"
    & spaces
    & Re.group digits
    & lit " kB"
    & line_break

abbrev pub restored_re : Re
restored_re =
    Re.line_start
    & lit
        "MICRONUX:M9.2:STRESS:STATUS pattern=framebuffer boot_ready=1 native_state=RUNTIME_REVEALED brightness=63 bl_power=0 actual_brightness=63"
    & line_break

-- A memory sample: its stage, and the free and the available kilobytes.
pub record Memory : Type 0 where
  pub stage : Text
  pub free : ℕ
  pub available : ℕ

unfoldable pub memories_of : List Found → List Memory
memories_of [] = []
memories_of ((stage ∷ free ∷ available ∷ [], _) ∷ rest) =
    record { stage = stage; free = decimal free; available = decimal available } ∷ memories_of rest
memories_of (_ ∷ rest) = memories_of rest

unfoldable pub last_memory : Memory → List Memory → Memory
last_memory sample [] = sample
last_memory sample (next ∷ rest) = last_memory next rest

-- The checks on the first sample and the last.
unfoldable pub check_loss : List Memory → Result Stop (Unit {0})
check_loss [] = raise index_error
check_loss (before ∷ rest) =
    let after = last_memory before rest in
    do
      raise_if (ltb (after.free + 512) before.free) (failed (codes "stress-memory") memfree_loss)
      raise_if (ltb (after.available + 512) before.available)
          (failed (codes "stress-memory") memavailable_loss)

abbrev pub required_markers : ℕ → List Text
required_markers stress_cycles =
    codes "MICRONUX:M6:STORAGE:PASS mode=idmac-sram-poll access=write-tested cleanup=pass"
    ∷ codes "MICRONUX:M6:NET:ONLINE state=ready name=ethsta0"
    ∷ (codes "MICRONUX:M6:COMBINED:SOAK:PASS cycles=" ++ str stress_cycles)
    ∷ codes "MICRONUX:M5:PASS exec=64 signals=64 timers=32 memory_kib=4096"
    ∷ codes "MICRONUX:M9.2:STRESS:WORKLOAD stage=storage rc=0"
    ∷ codes "MICRONUX:M9.2:STRESS:WORKLOAD stage=network-online rc=0"
    ∷ (codes "MICRONUX:M9.2:STRESS:WORKLOAD stage=sd-network cycles="
        ++ (str stress_cycles ++ codes " rc=0"))
    ∷ codes "MICRONUX:M9.2:STRESS:WORKLOAD stage=memory-pressure kib=4096 rc=0"
    ∷ codes "MICRONUX:M9.2:STRESS:WORKLOAD stage=graphics-restore rc=143"
    ∷ []

abbrev pub stress_memories : Text → List Memory
stress_memories output = memories_of (find_all memory_re output)

unfoldable pub judge_stress : ℕ → CommandResult → Result Stop (Unit {0})
judge_stress stress_cycles result = do
  raise_if (not (result.return_code == 0))
      (failed (codes "stress") (return_code result.return_code))
  stop_hashes (codes "stress-framebuffer")
      (framebuffer_hash_problem result.output (codes "stress-before" ∷ codes "stress-after" ∷ []))
  raise_if (not (texts_eq (first_groups (find_all snapshot_re result.output)) expected_stages))
      (failed (codes "stress-snapshots") stages_invalid)
  raise_if
      (not
        (texts_eq (map (λ (m : Memory). m.stage) (stress_memories result.output)) expected_stages))
      (failed (codes "stress-memory") stages_invalid)
  check_loss (stress_memories result.output)
  stop_at (codes "stress-workload") missing
      (first_missing (required_markers stress_cycles) result.output)
  raise_if (not (searches restored_re result.output))
      (failed (codes "stress-restore") restore_state)
  stop_at (codes "stress-health") health (display_health_problem result.output 7 true true)
  raise_if (not (length (diagnostics_samples result.output) == 7))
      (failed (codes "stress-diagnostics") snapshot_count)
  raise_if (not (length (scanout_samples result.output) == 7))
      (failed (codes "stress-scanout") snapshot_count)
  raise_if (not (length (find_all touch_line_re result.output) == 7))
      (failed (codes "stress-touch") touch_sample_count)

unfoldable pub run_stress : (Text → Text → ℕ → Outcome CommandResult) → ℕ → Result Stop (Unit {0})
run_stress run stress_cycles =
    step run (stress_command stress_cycles) (codes "STRESS") 520_000 (judge_stress stress_cycles)
