-- ===== src/Tests/Rate.antt =====
-- A run of `disconnect_progress_rate` (m9-hardware-test.py).
use micro_nux.Base.{◌≡◌, refl, ◌++◌, Text, codes, ok, text_eq}
use micro_nux.Base.Floats.{
  difference, double_of, float_of, infinity, quotient_of, rounded, whole_units,
}
use micro_nux.Base.Regex.{find_all}
use micro_nux.Base.Strings.{number}
use micro_nux.Hardware.Phases.{diagnostics_phase_groups, groups_of_marks}
use micro_nux.Hardware.Samples.{diagnostics_samples}
use micro_nux.Hardware.Rate.{
  check_hz, disconnect_progress_rate, groups_of, is_not_positive, only_group, only_uptime, rate_of,
  uptimes_of,
}

abbrev before_output : Text
before_output =
    codes "MICRONUX:M9:DIAGNOSTICS phase=BEFORE-POSTHASH\r\n"
    ++ (codes "MICRONUX:M9:USB-DISCONNECT:BEFORE-POSTHASH:UPTIME 10.00 1.00\r\n"
        ++ codes
            "abi=3 state=RUNTIME_REVEALED frames=160 faults=00000000 error=00000000 host-errors=00000000:00000000 underruns=0 buffers=3 front=0 queued=-1 back=1 rearm=5/0 flips=4/4 generation=6 commit=6 guards=ok guard-errors=0 policy=ok arm-to-irq-ns=100/200 arm-to-irq-over20ms=0 rearm-ns=10/20 fifo-irq=100/100/0 fifo-poll=90/80/0 bridge-filler=00000000 bridge-misc=00003201 i2c=active-serialized physical-panel-state=unobserved\r\n")

abbrev boundary_output : Text
boundary_output =
    codes "MICRONUX:M9:DIAGNOSTICS phase=BOUNDARY-PREHASH\r\n"
    ++ (codes "MICRONUX:M9:USB-DISCONNECT:BOUNDARY-PREHASH:UPTIME 20.00 1.00\r\n"
        ++ codes
            "abi=3 state=RUNTIME_REVEALED frames=360 faults=00000000 error=00000000 host-errors=00000000:00000000 underruns=0 buffers=3 front=0 queued=-1 back=1 rearm=5/0 flips=4/4 generation=6 commit=6 guards=ok guard-errors=0 policy=ok arm-to-irq-ns=100/200 arm-to-irq-over20ms=0 rearm-ns=10/20 fifo-irq=100/100/0 fifo-poll=90/80/0 bridge-filler=00000000 bridge-misc=00003201 i2c=active-serialized physical-panel-state=unobserved\r\n")

twenty_hertz :
    disconnect_progress_rate before_output
      (codes "BEFORE-POSTHASH")
      boundary_output
      (codes "BOUNDARY-PREHASH")
    ≡ ok (whole_units 20)
unfolding disconnect_progress_rate rate_of check_hz is_not_positive difference quotient_of rounded
    infinity whole_units only_group only_uptime groups_of uptimes_of text_eq float_of double_of
    number find_all diagnostics_phase_groups groups_of_marks diagnostics_samples
twenty_hertz = refl
