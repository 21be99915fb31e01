-- ===== src/Tests/Preflight.antt =====
-- Runs of `run_preflight` (m9-hardware-test.py) with a board that gives one answer to every command.
use micro_nux.Base.{◌≡◌, ◌↔◌, refl, ℕ, ◌++◌, Text, codes, ok, raise, text_eq}
use micro_nux.Base.Find.{find_from, find_in}
use micro_nux.Base.Regex.{find_all, search, searches}
use micro_nux.Base.Strings.{join, is_within, number}
use micro_nux.Hardware.{failure_marker, first_within}
use micro_nux.Hardware.Boot.{
  ordered_markers, required_fragments, boot_contract_problem, first_out_of_order, first_missing,
}
use micro_nux.Hardware.Contract.{
  contract_problem, check_samples, check_rest, first_failing, bad_front_back, bad_queued,
  not_advanced, ends_of, last_of, any_stalled, scanout_contract_problem,
  diagnostics_contract_problem, display_health_problem,
}
use micro_nux.Hardware.Framebuffer.{
  phase_hashes, collect_hashes, compare_hashes, compare_all, framebuffer_hash_problem,
  runtime_status_problem,
}
use micro_nux.Hardware.Samples.{scanout_samples, diagnostics_samples}
use micro_nux.Hardware.Serial.{CommandResult, Outcome, returned, timed_out}
use micro_nux.Hardware.Preflight.{
  answer, stop_at, stop_hashes, judge, judge_check, judge_sysfs, step, run_preflight, overdue,
}
use micro_nux.Hardware.Preflight.Passed.{PreflightPassed, run_preflight-PreflightPassed}

abbrev boot_log : Text
boot_log =
    codes "Linux version 6.12.27\n"
    ++ (join (codes "\n") ordered_markers ++ join (codes "\n") required_fragments)

abbrev output : Text
output =
    codes
      "abi=3 state=RUNTIME_REVEALED frames=160 faults=00000000 error=00000000 host-errors=00000000:00000000 underruns=0 buffers=3 front=0 queued=-1 back=1 rearm=5/0 flips=4/4 generation=6 commit=6 guards=ok guard-errors=0 policy=ok arm-to-irq-ns=100/200 arm-to-irq-over20ms=0 rearm-ns=10/20 fifo-irq=100/100/0 fifo-poll=90/80/0 bridge-filler=00000000 bridge-misc=00003201 i2c=active-serialized physical-panel-state=unobserved\r\n"
    ++ (codes
          "running abi=3 state=RUNTIME_REVEALED frames=100->160 error=00000000 underruns=0 chen=1 faults=00000000 host-errors=00000000:00000000 frame-ack=on clock=auto lp=enabled backlight-gate=on buffers=3 front=0 queued=-1 back=1 rearm=5/0 flips=4/4 generation=6 commit=6 guards=ok guard-errors=0 arm-to-irq-ns=100/200 arm-to-irq-over20ms=0 rearm-ns=10/20 fifo-irq=100/100/0 fifo-poll=90/80/0 bridge-filler=00000000 bridge-misc=00003201 i2c=active-serialized\r\n"
        ++ (codes
              "abi=3 state=RUNTIME_REVEALED frames=260 faults=00000000 error=00000000 host-errors=00000000:00000000 underruns=0 buffers=3 front=0 queued=-1 back=1 rearm=5/0 flips=5/5 generation=7 commit=7 guards=ok guard-errors=0 policy=ok arm-to-irq-ns=100/200 arm-to-irq-over20ms=0 rearm-ns=10/20 fifo-irq=100/100/0 fifo-poll=90/80/0 bridge-filler=00000000 bridge-misc=00003201 i2c=active-serialized physical-panel-state=unobserved\r\n"
            ++ (codes
                  "running abi=3 state=RUNTIME_REVEALED frames=200->260 error=00000000 underruns=0 chen=1 faults=00000000 host-errors=00000000:00000000 frame-ack=on clock=auto lp=enabled backlight-gate=on buffers=3 front=0 queued=-1 back=1 rearm=5/0 flips=5/5 generation=7 commit=7 guards=ok guard-errors=0 arm-to-irq-ns=100/200 arm-to-irq-over20ms=0 rearm-ns=10/20 fifo-irq=100/100/0 fifo-poll=90/80/0 bridge-filler=00000000 bridge-misc=00003201 i2c=active-serialized\r\n"
                ++ (codes
                      "abi=3 state=RUNTIME_REVEALED frames=360 faults=00000000 error=00000000 host-errors=00000000:00000000 underruns=0 buffers=3 front=0 queued=-1 back=1 rearm=5/0 flips=6/6 generation=8 commit=8 guards=ok guard-errors=0 policy=ok arm-to-irq-ns=100/200 arm-to-irq-over20ms=0 rearm-ns=10/20 fifo-irq=100/100/0 fifo-poll=90/80/0 bridge-filler=00000000 bridge-misc=00003201 i2c=active-serialized physical-panel-state=unobserved\r\n"
                    ++ (codes
                          "running abi=3 state=RUNTIME_REVEALED frames=300->360 error=00000000 underruns=0 chen=1 faults=00000000 host-errors=00000000:00000000 frame-ack=on clock=auto lp=enabled backlight-gate=on buffers=3 front=0 queued=-1 back=1 rearm=5/0 flips=6/6 generation=8 commit=8 guards=ok guard-errors=0 arm-to-irq-ns=100/200 arm-to-irq-over20ms=0 rearm-ns=10/20 fifo-irq=100/100/0 fifo-poll=90/80/0 bridge-filler=00000000 bridge-misc=00003201 i2c=active-serialized\r\n"
                        ++ (codes
                              "MICRONUX:M9:FB-SHA256 phase=vpg-reject-before sha256=abababababababababababababababababababababababababababababababab\r\n"
                            ++ (codes
                                  "MICRONUX:M9:FB-SHA256 phase=vpg-reject-after sha256=abababababababababababababababababababababababababababababababab\r\n"
                                ++ (codes
                                      "MICRONUX:M9:FB-SHA256 phase=presentation-before sha256=abababababababababababababababababababababababababababababababab\r\n"
                                    ++ (codes
                                          "MICRONUX:M9:FB-SHA256 phase=presentation-after sha256=abababababababababababababababababababababababababababababababab\r\n"
                                        ++ (codes
                                              "MICRONUX:M9:FB-SHA256 phase=signal-before sha256=abababababababababababababababababababababababababababababababab\r\n"
                                            ++ (codes
                                                  "MICRONUX:M9:FB-SHA256 phase=signal-after sha256=abababababababababababababababababababababababababababababababab\r\n"
                                                ++ (codes
                                                      "MICRONUX:M9:DISPLAY-TEST:PASS mode=check\r\n"
                                                    ++ (codes "touch=unavailable\r\n"
                                                        ++ (codes
                                                            "linux abi=3 mode=native-cold-init fb0 buffers=3 dma-channel=0 frame-irq=7 rearm=explicit mmap=denied i2c=active-serialized\r\n"
                                                            ++ (codes
                                                            "ready product=9271 address=0x5d mode=poll interval_ms=10 reads=12 errors=0 down=0\r\n"
                                                            ++ (codes
                                                            "pattern=framebuffer boot_ready=1 native_state=RUNTIME_REVEALED brightness=63 bl_power=0 actual_brightness=63\r\n"
                                                            ++ (codes
                                                            "MICRONUX:M9:VPG-UNAVAILABLE absent=1\r\n"
                                                            ++ (codes
                                                            "MICRONUX:M9:SHELL state=responsive\r\n"
                                                            ++ (codes "MICRONUX:M9:DRAW rc=0\r\n"
                                                            ++ (codes
                                                            "MICRONUX:M9:DISPLAY-TEST:PASS mode=draw console=restored\r\n"
                                                            ++ (codes
                                                            "MICRONUX:M9:SIGNAL rc=143\r\n"
                                                            ++ (codes
                                                            "MICRONUX:M9:SIGNAL-SHELL state=responsive\r\n"))))))))))))))))))))))

abbrev board : Text → Text → ℕ → Outcome CommandResult
board command label seconds = returned (record { output = output; return_code = 0 })

abbrev silent : Text → Text → ℕ → Outcome CommandResult
silent command label seconds = timed_out

board_passes : run_preflight board boot_log ≡ ok tt
unfolding run_preflight stop_at stop_hashes answer step judge judge_check judge_sysfs
    boot_contract_problem failure_marker first_within first_out_of_order first_missing find_from
    find_in is_within join display_health_problem diagnostics_contract_problem
    scanout_contract_problem contract_problem diagnostics_samples scanout_samples find_all
    check_samples check_rest first_failing number bad_front_back bad_queued not_advanced ends_of
    last_of any_stalled framebuffer_hash_problem phase_hashes collect_hashes compare_hashes
    compare_all text_eq runtime_status_problem search searches
board_passes = refl

silent_board : run_preflight silent boot_log ≡ raise overdue
unfolding run_preflight stop_at answer step boot_contract_problem failure_marker first_within
    first_out_of_order first_missing find_from find_in is_within join
silent_board = refl

run_preflight-PreflightPassed_example :
    (run_preflight board boot_log ≡ ok tt) ↔ PreflightPassed board boot_log
run_preflight-PreflightPassed_example = run_preflight-PreflightPassed board boot_log
