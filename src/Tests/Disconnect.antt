-- ===== src/Tests/Disconnect.antt =====
-- A run of `run_disconnect` (m9-hardware-test.py) that returns 0.
use micro_nux.Base.{◌≡◌, ◌↔◌, refl, ℕ, ◌++◌, [], ◌∷◌, Text, codes, ok, text_eq, if◌then◌else◌}
use micro_nux.Base.Floats.{
  difference, double_of, float_of, infinity, quotient_of, rounded, whole_units,
}
use micro_nux.Base.Regex.{find_all, search, searches}
use micro_nux.Base.Strings.{is_within, join, number, str}
use micro_nux.Hardware.{failure_marker, first_within}
use micro_nux.Hardware.Contract.{
  any_stalled, bad_front_back, bad_queued, check_rest, contract_problem,
  diagnostics_contract_problem, display_health_problem, ends_of, first_failing, last_of,
  not_advanced, scanout_contract_problem,
}
use micro_nux.Hardware.Framebuffer.{
  collect_hashes, compare_all, compare_hashes, first_groups, framebuffer_hash_problem, phase_hashes,
}
use micro_nux.Hardware.Phases.{
  check_groups, check_steps, diagnostics_phase_groups, diagnostics_phase_problem, groups_of_marks,
  single_samples, texts_eq,
}
use micro_nux.Hardware.Samples.{diagnostics_samples, scanout_samples}
use micro_nux.Hardware.Serial.{CommandResult, Outcome, returned}
use micro_nux.Hardware.Preflight.{answer, stop_at, stop_hashes}
use micro_nux.Hardware.Snapshot.{awaited, stop_phases}
use micro_nux.Tests.Passing.{
  diagnostics_line, scanout_line, hash_line, ready_line, status_line, phase_mark, shows,
}
use micro_nux.Hardware.Rate.{
  check_hz, disconnect_progress_rate, groups_of, is_not_positive, only_group, only_uptime, rate_of,
  uptimes_of,
}
use micro_nux.Hardware.Disconnect.{
  afterwards, blamed, check_after, check_boot, check_boundary, judge_afterwards, judge_armed,
  judge_before, judge_evidence, judge_policy, last_id, last_text, rated, reconnect, run_disconnect,
}
use micro_nux.Hardware.Disconnect.Lines.{scans_on}
use micro_nux.Hardware.Disconnect.Passed.{Disconnected, run_disconnect-Disconnected}

abbrev boot_id : Text
boot_id = codes "0f0f0f0f-1a1a-2b2b-3c3c-0123456789ab\n"

abbrev uptime : Text → Text → Text
uptime phase seconds =
    codes "MICRONUX:M9:USB-DISCONNECT:"
    ++ (phase ++ (codes ":UPTIME " ++ (seconds ++ codes " 1.00\n")))

abbrev before : Text
before = join [] (
    codes "MICRONUX:M9:USB-DISCONNECT:BEFORE boot_id="
    ∷ boot_id
    ∷ phase_mark (codes "BEFORE-PREHASH")
    ∷ diagnostics_line (codes "160") (codes "4/4 generation=6 commit=6")
    ∷ hash_line (codes "disconnect-before")
    ∷ phase_mark (codes "BEFORE-POSTHASH")
    ∷ uptime (codes "BEFORE-POSTHASH") (codes "10.00")
    ∷ diagnostics_line (codes "170") (codes "4/4 generation=6 commit=6")
    ∷ scanout_line (codes "100->170") (codes "4/4 generation=6 commit=6")
    ∷ ready_line
    ∷ codes "MICRONUX:M9:USB-DISCONNECT:STATUS-BEFORE "
    ∷ status_line
    ∷ [])

abbrev boundary : Text
boundary = join [] (
    codes "MICRONUX:M9:USB-DISCONNECT:BOUNDARY:BEGIN boot_id="
    ∷ boot_id
    ∷ phase_mark (codes "BOUNDARY-PREHASH")
    ∷ uptime (codes "BOUNDARY-PREHASH") (codes "20.00")
    ∷ diagnostics_line (codes "370") (codes "4/4 generation=6 commit=6")
    ∷ hash_line (codes "disconnect-boundary")
    ∷ phase_mark (codes "BOUNDARY-POSTHASH")
    ∷ uptime (codes "BOUNDARY-POSTHASH") (codes "21.00")
    ∷ diagnostics_line (codes "390") (codes "4/4 generation=6 commit=6")
    ∷ scanout_line (codes "380->390") (codes "4/4 generation=6 commit=6")
    ∷ ready_line
    ∷ codes "MICRONUX:M9:USB-DISCONNECT:STATUS-BOUNDARY "
    ∷ status_line
    ∷ codes "MICRONUX:M9:USB-DISCONNECT:BOUNDARY:COMPLETE\n"
    ∷ [])

abbrev after_state : Text
after_state = join [] (
    phase_mark (codes "AFTER-PREHASH")
    ∷ uptime (codes "AFTER-PREHASH") (codes "26.00")
    ∷ diagnostics_line (codes "490") (codes "4/4 generation=6 commit=6")
    ∷ hash_line (codes "disconnect-after")
    ∷ phase_mark (codes "AFTER-POSTHASH")
    ∷ diagnostics_line (codes "500") (codes "4/4 generation=6 commit=6")
    ∷ ready_line
    ∷ codes "MICRONUX:M9:USB-DISCONNECT:STATUS-AFTER "
    ∷ status_line
    ∷ [])

abbrev output_of : Text → Text
output_of label =
    if text_eq label (codes "DISCONNECT_POLICY")
    then codes "disabled\n"
    else if text_eq label (codes "DISCONNECT_BEFORE")
    then before
    else if text_eq label (codes "DISCONNECT_BOUNDARY_ARM")
    then codes "MICRONUX:M9:USB-DISCONNECT:BOUNDARY:ARMED delay_seconds=6 pid=99\n"
    else if text_eq label (codes "DISCONNECT_BOUNDARY_READ")
    then boundary
    else if text_eq label (codes "DISCONNECT_AFTER_ID")
    then codes "MICRONUX:M9:USB-DISCONNECT:AFTER boot_id=" ++ boot_id
    else if text_eq label (codes "DISCONNECT_AFTER_STATE")
    then after_state
    else scanout_line (codes "490->500") (codes "4/4 generation=6 commit=6")

abbrev board : Text → Text → ℕ → Outcome CommandResult
board command label timeout = shows (output_of label) command label timeout

disconnect_passes :
    run_disconnect board (returned (codes "quiet")) (returned (codes "/ # ")) 5 ≡ ok tt
unfolding run_disconnect judge_policy judge_before judge_armed reconnect afterwards judge_afterwards
    check_boot last_id last_text check_boundary check_after rated judge_evidence blamed scans_on
    awaited str diagnostics_phase_problem diagnostics_phase_groups groups_of_marks check_groups
    check_steps micro_nux.Hardware.Phases.check_samples single_samples disconnect_progress_rate
    rate_of check_hz is_not_positive difference quotient_of rounded infinity whole_units only_group
    only_uptime groups_of uptimes_of float_of double_of answer stop_at stop_hashes stop_phases
    failure_marker first_within is_within join display_health_problem diagnostics_contract_problem
    scanout_contract_problem contract_problem diagnostics_samples scanout_samples find_all
    micro_nux.Hardware.Contract.check_samples check_rest first_failing number bad_front_back
    bad_queued not_advanced ends_of last_of any_stalled framebuffer_hash_problem phase_hashes
    collect_hashes compare_hashes compare_all text_eq texts_eq first_groups search searches
disconnect_passes = refl

run_disconnect-Disconnected_example :
    (run_disconnect board (returned (codes "quiet")) (returned (codes "/ # ")) 5 ≡ ok tt)
    ↔ Disconnected board (returned (codes "quiet")) (returned (codes "/ # ")) 5
run_disconnect-Disconnected_example =
    run_disconnect-Disconnected board (returned (codes "quiet")) (returned (codes "/ # ")) 5
