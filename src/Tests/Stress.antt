-- ===== src/Tests/Stress.antt =====
-- A run of `run_stress` (m9-hardware-test.py) that returns 0.
use Prim.Native.String.{String}
use micro_nux.Base.{◌≡◌, ◌↔◌, refl, ◌++◌, [], ◌∷◌, Text, codes, ok, text_eq}
use micro_nux.Base.Regex.{find_all, search, searches}
use micro_nux.Base.Strings.{is_within, join, number, str}
use micro_nux.Hardware.{failure_marker, first_within}
use micro_nux.Hardware.Contract.{
  any_stalled, bad_front_back, bad_queued, check_rest, contract_problem,
  diagnostics_contract_problem, display_health_problem, ends_of, first_failing, last_of,
  not_advanced, scanout_contract_problem,
}
use micro_nux.Hardware.Framebuffer.{
  collect_hashes, compare_all, compare_hashes, first_groups, framebuffer_hash_problem, phase_hashes,
}
use micro_nux.Hardware.Phases.{texts_eq}
use micro_nux.Hardware.Samples.{diagnostics_samples, scanout_samples}
use micro_nux.Hardware.Preflight.{answer, step, stop_at, stop_hashes}
use micro_nux.Tests.Passing.{
  diagnostics_line, scanout_line, hash_line, ready_line, status_line, shows,
}
use micro_nux.Hardware.Boot.{first_missing}
use micro_nux.Hardware.Preflight.Passed.{Answers}
use micro_nux.Hardware.Stress.{check_loss, judge_stress, last_memory, memories_of, run_stress}
use micro_nux.Hardware.Stress.Commands.{stress_command}
use micro_nux.Hardware.Stress.Passed.{Stressed, run_stress-Stressed}

abbrev look : String → Text → Text → Text → Text
look stage frames span flips = join [] (
    codes "MICRONUX:M9.2:STRESS:SNAPSHOT stage="
    ∷ codes stage
    ∷ codes "\n"
    ∷ diagnostics_line frames flips
    ∷ scanout_line span flips
    ∷ ready_line
    ∷ codes "MICRONUX:M9.2:STRESS:MEM stage="
    ∷ codes stage
    ∷ codes "\nMemFree:     5000 kB\nMemAvailable:     6000 kB\n"
    ∷ [])

abbrev stressed : Text
stressed = join [] (
    hash_line (codes "stress-before")
    ∷ look "before" (codes "160") (codes "100->160") (codes "4/4 generation=6 commit=6")
    ∷ look "graphics" (codes "170") (codes "100->170") (codes "4/4 generation=6 commit=6")
    ∷ look "storage" (codes "180") (codes "100->180") (codes "4/4 generation=6 commit=6")
    ∷ look "network" (codes "190") (codes "100->190") (codes "5/5 generation=7 commit=7")
    ∷ look "io" (codes "200") (codes "100->200") (codes "5/5 generation=7 commit=7")
    ∷ look "memory" (codes "210") (codes "100->210") (codes "5/5 generation=7 commit=7")
    ∷ look "after" (codes "220") (codes "100->220") (codes "5/5 generation=7 commit=7")
    ∷ hash_line (codes "stress-after")
    ∷ codes "MICRONUX:M6:STORAGE:PASS mode=idmac-sram-poll access=write-tested cleanup=pass\n"
    ∷ codes "MICRONUX:M6:NET:ONLINE state=ready name=ethsta0\n"
    ∷ codes "MICRONUX:M6:COMBINED:SOAK:PASS cycles=3\n"
    ∷ codes "MICRONUX:M5:PASS exec=64 signals=64 timers=32 memory_kib=4096\n"
    ∷ codes "MICRONUX:M9.2:STRESS:WORKLOAD stage=storage rc=0\n"
    ∷ codes "MICRONUX:M9.2:STRESS:WORKLOAD stage=network-online rc=0\n"
    ∷ codes "MICRONUX:M9.2:STRESS:WORKLOAD stage=sd-network cycles=3 rc=0\n"
    ∷ codes "MICRONUX:M9.2:STRESS:WORKLOAD stage=memory-pressure kib=4096 rc=0\n"
    ∷ codes "MICRONUX:M9.2:STRESS:WORKLOAD stage=graphics-restore rc=143\n"
    ∷ (codes "MICRONUX:M9.2:STRESS:STATUS " ++ status_line)
    ∷ [])

stress_passes : run_stress (shows stressed) 3 ≡ ok tt
unfolding run_stress judge_stress step check_loss last_memory memories_of first_missing str answer
    stop_at stop_hashes failure_marker first_within is_within join display_health_problem
    diagnostics_contract_problem scanout_contract_problem contract_problem diagnostics_samples
    scanout_samples find_all micro_nux.Hardware.Contract.check_samples check_rest first_failing
    number bad_front_back bad_queued not_advanced ends_of last_of any_stalled
    framebuffer_hash_problem phase_hashes collect_hashes compare_hashes compare_all text_eq texts_eq
    first_groups search searches
stress_passes = refl

run_stress-Stressed_example :
    (run_stress (shows stressed) 3 ≡ ok tt)
    ↔ Answers (shows stressed) (stress_command 3) (codes "STRESS") 520_000 (Stressed 3)
run_stress-Stressed_example = run_stress-Stressed (shows stressed) 3
