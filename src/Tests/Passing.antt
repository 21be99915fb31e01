-- ===== src/Tests/Passing.antt =====
-- Runs of the handlers of m9-hardware-test.py that return 0.
use micro_nux.Base.{none, ◌↔◌, ◌≢◌, ◌*◌, ◌+◌, ◌≡◌, refl, ℕ, ◌++◌, [], ◌∷◌, Text, codes, ok, text_eq}
use micro_nux.Base.Regex.{find_all, search, searches}
use micro_nux.Base.Strings.{is_within, join, number, numbers_from, str}
use micro_nux.Hardware.{failure_marker, first_within}
use micro_nux.Hardware.Contract.{
  any_stalled, bad_front_back, bad_queued, check_rest, check_samples, contract_problem,
  diagnostics_contract_problem, display_health_problem, ends_of, first_failing, last_of,
  not_advanced, scanout_contract_problem,
}
use micro_nux.Hardware.Framebuffer.{
  collect_hashes, compare_all, compare_hashes, first_groups, framebuffer_hash_problem, phase_hashes,
  runtime_status_problem,
}
use micro_nux.Hardware.Phases.{
  check_groups, check_steps, diagnostics_phase_groups, diagnostics_phase_problem, groups_of_marks,
  single_samples, texts_eq,
}
use micro_nux.Hardware.Samples.{diagnostics_samples, scanout_samples}
use micro_nux.Hardware.Serial.{CommandResult, Outcome, returned, timed_out}
use micro_nux.Hardware.Preflight.{answer, step, stop_at, stop_hashes}
use micro_nux.Hardware.Gate.{
  Bench, as_exit, check_arguments, default_arguments, dispatch, exceeds, main, outside, snapshot,
}
use micro_nux.Hardware.Gate.Passed.{GatePassed, main-GatePassed}
use micro_nux.Hardware.Preflight.Passed.{Answers}
use micro_nux.Hardware.Snapshot.Captured.{SnapshotTaken, run_snapshot-SnapshotTaken}
use micro_nux.Hardware.Soak.Commands.{soak_command}
use micro_nux.Hardware.Soak.Passed.{Soaked, run_soak-Soaked}
use micro_nux.Hardware.Touch.Commands.{touch_command}
use micro_nux.Hardware.Touch.Passed.{Touched, run_touch-Touched}
use micro_nux.Hardware.Snapshot.{awaited, judge_snapshot, run_snapshot, stop_phases}
use micro_nux.Hardware.Soak.{judge_soak, run_soak, samples_in}
use micro_nux.Hardware.Touch.{judge_terminal, judge_touch, run_touch, wait_for_touch_terminal}

-- The two lines of a healthy display, with the frames that they show, and the flips with their generation.
abbrev pub diagnostics_line : Text → Text → Text
diagnostics_line frames flips =
    codes "abi=3 state=RUNTIME_REVEALED frames="
    ++ (frames
        ++ (codes
              " faults=00000000 error=00000000 host-errors=00000000:00000000 underruns=0 buffers=3 front=0 queued=-1 back=1 rearm=5/0 flips="
            ++ (flips
                ++ codes
                    " guards=ok guard-errors=0 policy=ok arm-to-irq-ns=100/200 arm-to-irq-over20ms=0 rearm-ns=10/20 fifo-irq=100/100/0 fifo-poll=90/80/0 bridge-filler=00000000 bridge-misc=00003201 i2c=active-serialized physical-panel-state=unobserved\n")))

abbrev pub scanout_line : Text → Text → Text
scanout_line frames flips =
    codes "running abi=3 state=RUNTIME_REVEALED frames="
    ++ (frames
        ++ (codes
              " error=00000000 underruns=0 chen=1 faults=00000000 host-errors=00000000:00000000 frame-ack=on clock=auto lp=enabled backlight-gate=on buffers=3 front=0 queued=-1 back=1 rearm=5/0 flips="
            ++ (flips
                ++ codes
                    " guards=ok guard-errors=0 arm-to-irq-ns=100/200 arm-to-irq-over20ms=0 rearm-ns=10/20 fifo-irq=100/100/0 fifo-poll=90/80/0 bridge-filler=00000000 bridge-misc=00003201 i2c=active-serialized\n")))

abbrev pub hash_line : Text → Text
hash_line phase =
    codes "MICRONUX:M9:FB-SHA256 phase="
    ++ (phase ++ codes " sha256=abababababababababababababababababababababababababababababababab\n")

abbrev pub ready_line : Text
ready_line =
    codes "ready product=9271 address=0x5d mode=poll interval_ms=10 reads=12 errors=0 down=0\n"

abbrev pub status_line : Text
status_line =
    codes
      "pattern=framebuffer boot_ready=1 native_state=RUNTIME_REVEALED brightness=63 bl_power=0 actual_brightness=63\n"

abbrev target : Text
target = codes "MICRONUX:M9:TOUCH-TARGET:PASS\n"

abbrev touched : Text
touched = join [] (
    codes "MICRONUX:M9:TOUCH-READY ready=1 wait_seconds=0\n"
    ∷ diagnostics_line (codes "160") (codes "4/4 generation=6 commit=6")
    ∷ scanout_line (codes "100->160") (codes "4/4 generation=6 commit=6")
    ∷ hash_line (codes "touch-before")
    ∷ target
    ∷ target
    ∷ target
    ∷ target
    ∷ target
    ∷ codes "MICRONUX:M9:DISPLAY-TEST:PASS mode=touch points=5\n"
    ∷ hash_line (codes "touch-after")
    ∷ diagnostics_line (codes "260") (codes "5/5 generation=7 commit=7")
    ∷ scanout_line (codes "200->260") (codes "5/5 generation=7 commit=7")
    ∷ ready_line
    ∷ status_line
    ∷ [])

abbrev pub shows : Text → Text → Text → ℕ → Outcome CommandResult
shows output command label timeout = returned (record { output = output; return_code = 0 })

touch_passes : run_touch (shows touched) 5_000 ≡ ok tt
unfolding run_touch judge_touch step answer stop_at stop_hashes failure_marker first_within
    is_within join display_health_problem diagnostics_contract_problem scanout_contract_problem
    contract_problem diagnostics_samples scanout_samples find_all check_samples check_rest
    first_failing number bad_front_back bad_queued not_advanced ends_of last_of any_stalled
    framebuffer_hash_problem phase_hashes collect_hashes compare_hashes compare_all text_eq texts_eq
    first_groups runtime_status_problem search searches
touch_passes = refl

abbrev soak_sample : Text → Text → Text → Text
soak_sample index frames span = join [] (
    codes "MICRONUX:M9:SOAK-SAMPLE index="
    ∷ index
    ∷ codes "\n"
    ∷ diagnostics_line frames (codes "4/4 generation=6 commit=6")
    ∷ scanout_line span (codes "4/4 generation=6 commit=6")
    ∷ ready_line
    ∷ hash_line (codes "soak-" ++ index)
    ∷ codes "MICRONUX:M9:SOAK-STATUS index="
    ∷ index
    ∷ codes " "
    ∷ status_line
    ∷ codes "MICRONUX:M9:SOAK-SHELL state=responsive index="
    ∷ index
    ∷ codes "\n"
    ∷ [])

abbrev soaked : Text
soaked =
    soak_sample (codes "0") (codes "160") (codes "100->160")
    ++ soak_sample (codes "1") (codes "260") (codes "200->260")

soak_passes : run_soak (shows soaked) 60 60 ≡ ok tt
unfolding run_soak judge_soak numbers_from str step answer stop_at stop_hashes failure_marker
    first_within is_within join display_health_problem diagnostics_contract_problem
    scanout_contract_problem contract_problem diagnostics_samples scanout_samples find_all
    check_samples check_rest first_failing number bad_front_back bad_queued not_advanced ends_of
    last_of any_stalled framebuffer_hash_problem phase_hashes collect_hashes compare_hashes
    compare_all text_eq texts_eq first_groups runtime_status_problem search searches
soak_passes = refl

abbrev pub phase_mark : Text → Text
phase_mark phase = codes "MICRONUX:M9:DIAGNOSTICS phase=" ++ (phase ++ codes "\n")

abbrev captured : Text
captured = join [] (
    status_line
    ∷ codes
        "linux abi=3 mode=native-cold-init fb0 buffers=3 dma-channel=0 frame-irq=7 rearm=explicit mmap=denied i2c=active-serialized\n"
    ∷ phase_mark (codes "SNAPSHOT-A-PREHASH")
    ∷ diagnostics_line (codes "160") (codes "4/4 generation=6 commit=6")
    ∷ hash_line (codes "snapshot-a")
    ∷ phase_mark (codes "SNAPSHOT-A-POSTHASH")
    ∷ diagnostics_line (codes "170") (codes "4/4 generation=6 commit=6")
    ∷ scanout_line (codes "100->170") (codes "4/4 generation=6 commit=6")
    ∷ phase_mark (codes "SNAPSHOT-B-PREHASH")
    ∷ diagnostics_line (codes "180") (codes "4/4 generation=6 commit=6")
    ∷ hash_line (codes "snapshot-b")
    ∷ phase_mark (codes "SNAPSHOT-B-POSTHASH")
    ∷ diagnostics_line (codes "190") (codes "4/4 generation=6 commit=6")
    ∷ scanout_line (codes "180->190") (codes "4/4 generation=6 commit=6")
    ∷ ready_line
    ∷ [])

snapshot_passes : run_snapshot (shows captured) (codes "quiet") (returned (codes "/ # ")) ≡ ok tt
unfolding run_snapshot judge_snapshot awaited wait_for_touch_terminal judge_terminal stop_phases
    diagnostics_phase_problem diagnostics_phase_groups groups_of_marks check_groups check_steps
    micro_nux.Hardware.Phases.check_samples single_samples step answer stop_at stop_hashes
    failure_marker first_within is_within join display_health_problem diagnostics_contract_problem
    scanout_contract_problem contract_problem diagnostics_samples scanout_samples find_all
    check_samples check_rest first_failing number bad_front_back bad_queued not_advanced ends_of
    last_of any_stalled framebuffer_hash_problem phase_hashes collect_hashes compare_hashes
    compare_all text_eq texts_eq first_groups runtime_status_problem search searches
snapshot_passes = refl

abbrev bench : Bench
bench = record {
  image = none;
  dtb = none;
  metadata = none;
  run = shows captured;
  shell = timed_out;
  passive = codes "quiet";
  recovery = returned (codes "/ # ");
  reconnected = timed_out;
}

gate_passes : main bench (default_arguments snapshot) ≡ ok tt
unfolding main check_arguments outside exceeds as_exit dispatch run_snapshot judge_snapshot awaited
    wait_for_touch_terminal judge_terminal stop_phases diagnostics_phase_problem
    diagnostics_phase_groups groups_of_marks check_groups check_steps
    micro_nux.Hardware.Phases.check_samples single_samples step answer stop_at stop_hashes
    failure_marker first_within is_within join display_health_problem diagnostics_contract_problem
    scanout_contract_problem contract_problem diagnostics_samples scanout_samples find_all
    check_samples check_rest first_failing number bad_front_back bad_queued not_advanced ends_of
    last_of any_stalled framebuffer_hash_problem phase_hashes collect_hashes compare_hashes
    compare_all text_eq texts_eq first_groups runtime_status_problem search searches
gate_passes = refl

main-GatePassed_example :
    (main bench (default_arguments snapshot) ≡ ok tt)
    ↔ GatePassed bench (default_arguments snapshot)
main-GatePassed_example = main-GatePassed bench (default_arguments snapshot)

run_touch-Touched_example :
    (run_touch (shows touched) 5_000 ≡ ok tt)
    ↔ Answers (shows touched) (touch_command 5_000) (codes "TOUCH") (5_000 * 5 + 65_000) Touched
run_touch-Touched_example = run_touch-Touched (shows touched) 5_000

run_soak-Soaked_example : (run_soak (shows soaked) 60 60 ≡ ok tt) ↔ (
    (◌≢◌ {A = ℕ} 60 0)
    × Answers
        (shows soaked)
        (soak_command 60 (samples_in 60 60))
        (codes "SOAK")
        (60 * 1000 + 60_000)
        (Soaked (samples_in 60 60)))
run_soak-Soaked_example = run_soak-Soaked (shows soaked) 60 60

run_snapshot-SnapshotTaken_example :
    (run_snapshot (shows captured) (codes "quiet") (returned (codes "/ # ")) ≡ ok tt)
    ↔ SnapshotTaken (shows captured) (codes "quiet") (returned (codes "/ # "))
run_snapshot-SnapshotTaken_example =
    run_snapshot-SnapshotTaken (shows captured) (codes "quiet") (returned (codes "/ # "))
