-- ===== src/Tests/Hardware.antt =====
-- Runs of m9-hardware-test.py on what a board prints.
use micro_nux.Base.{
  ◌≡◌, refl, none, some, Text, codes, true, false, ◌++◌, ℕ, zero, suc, ◌<◌, ◌↔◌, arith, get_elem?,
  pos,
}
use micro_nux.Hardware.{failure_marker, first_within}
use micro_nux.Hardware.Samples.{scanout_samples, diagnostics_samples, Sample}
use micro_nux.Base.Regex.{find_all}
use micro_nux.Base.Strings.{is_within, number}
use micro_nux.Hardware.Contract.{
  contract_problem, check_samples, check_rest, first_failing, bad_front_back, bad_queued,
  not_advanced, ends_of, last_of, any_stalled, flip_not_observed, scanout_counters,
  scanout_contract_problem, diagnostics_contract_problem, display_health_problem,
}
use micro_nux.Hardware.Contract.Checks.{NotFalling}
use micro_nux.Hardware.Contract.Health.{
  HealthyLog, display_health_problem-HealthyLog, display_health_problem-NotFalling,
}

abbrev scanout_line : Text
scanout_line =
    codes
      "running abi=3 state=RUNTIME_REVEALED frames=100->160 error=00000000 underruns=0 chen=1 faults=00000000 host-errors=00000000:00000000 frame-ack=on clock=auto lp=enabled backlight-gate=on buffers=3 front=0 queued=-1 back=1 rearm=5/0 flips=4/4 generation=6 commit=6 guards=ok guard-errors=0 arm-to-irq-ns=100/200 arm-to-irq-over20ms=0 rearm-ns=10/20 fifo-irq=100/100/0 fifo-poll=90/80/0 bridge-filler=00000000 bridge-misc=00003201 i2c=active-serialized\r\n"

abbrev later_scanout_line : Text
later_scanout_line =
    codes
      "running abi=3 state=RUNTIME_REVEALED frames=200->260 error=00000000 underruns=0 chen=1 faults=00000000 host-errors=00000000:00000000 frame-ack=on clock=auto lp=enabled backlight-gate=on buffers=3 front=0 queued=-1 back=1 rearm=5/0 flips=9/8 generation=11 commit=10 guards=ok guard-errors=0 arm-to-irq-ns=100/200 arm-to-irq-over20ms=0 rearm-ns=10/20 fifo-irq=100/100/0 fifo-poll=90/80/0 bridge-filler=00000000 bridge-misc=00003201 i2c=active-serialized\r\n"

abbrev diagnostics_line : Text
diagnostics_line =
    codes
      "abi=3 state=RUNTIME_REVEALED frames=160 faults=00000000 error=00000000 host-errors=00000000:00000000 underruns=0 buffers=3 front=0 queued=-1 back=1 rearm=5/0 flips=4/4 generation=6 commit=6 guards=ok guard-errors=0 policy=ok arm-to-irq-ns=100/200 arm-to-irq-over20ms=0 rearm-ns=10/20 fifo-irq=100/100/0 fifo-poll=90/80/0 bridge-filler=00000000 bridge-misc=00003201 i2c=active-serialized physical-panel-state=unobserved\r\n"

abbrev log : Text
log = diagnostics_line ++ scanout_line ++ diagnostics_line ++ later_scanout_line

abbrev unseen : Sample
unseen = record { count = λ key. 0; role = λ role. pos 0 }

-- The samples of the log's scanout lines.
abbrev scanned : ℕ → Sample
scanned i = elim (get_elem? (scanout_samples log) i) [ none ↦ unseen | some values ↦ values ]

log_is_healthy : display_health_problem log 2 false false ≡ none
unfolding display_health_problem failure_marker first_within is_within diagnostics_contract_problem
    contract_problem diagnostics_samples scanout_samples scanout_contract_problem find_all
    check_samples check_rest first_failing number bad_front_back bad_queued
log_is_healthy = refl

scanned_at : (i : ℕ) → i < 2 → get_elem? (scanout_samples log) i ≡ some (scanned i)
unfolding scanout_samples find_all
scanned_at zero h = refl
scanned_at (suc zero) h = refl
scanned_at (suc (suc i)) h = absurd (omega arith)

-- The flips that the first line lacks stand in the last one.
flips_stand : diagnostics_contract_problem log 2 true true ≡ some flip_not_observed
unfolding diagnostics_contract_problem contract_problem diagnostics_samples find_all check_samples
    check_rest first_failing number bad_front_back bad_queued not_advanced ends_of last_of
    any_stalled
flips_stand = refl

flips_move : scanout_contract_problem log 2 true true ≡ none
unfolding scanout_contract_problem contract_problem scanout_samples find_all check_samples
    check_rest first_failing number bad_front_back bad_queued not_advanced ends_of last_of
    any_stalled
flips_move = refl

display_health_problem-HealthyLog_example :
    (display_health_problem log 2 false false ≡ none) ↔ HealthyLog log 2 false false
display_health_problem-HealthyLog_example = display_health_problem-HealthyLog log 2 false false

display_health_problem-NotFalling_example : NotFalling scanout_counters (scanned 0) (scanned 1)
display_health_problem-NotFalling_example =
    display_health_problem-NotFalling log 2 false false 0 1 (scanned 0) (scanned 1) log_is_healthy
      (omega arith) (scanned_at 0 (omega arith)) (scanned_at 1 (omega arith))
