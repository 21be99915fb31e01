-- ===== src/Hardware/Boot.antt =====
-- `boot_contract_problem` of m9-hardware-test.py: what the boot log of the board must hold.
pub mod Order
use micro_nux.Base.{
  ℕ, zero, suc, ◌+◌, Bool, not, Option, none, some, List, [], ◌∷◌, Text, codes, if◌then◌else◌,
}
use micro_nux.Base.Find.{find_from}
use micro_nux.Base.Strings.{is_within}
use micro_nux.Hardware.{failure_marker}

-- The problems by message. The code shows the first words of a marker or a fragment.
pub data BootProblem : Type 0 where
  terminal_failure : Text → BootProblem
  kernel_version_missing : BootProblem
  missing_or_out_of_order contract_fragment : Text → BootProblem

abbrev pub ordered_markers : List Text
ordered_markers =
    codes "MICRONUX:M9.2:COLD-EXTERNAL state=ready"
    ∷ codes "MICRONUX:M9.2:COLD-MEMORY state=ready"
    ∷ codes "MICRONUX:M9.2:COLD-PREPARE state=ready abi=3 panel=jd9365"
    ∷ codes "MICRONUX:M9.2:COLD-HANDOFF state=ready"
    ∷ codes "MICRONUX:M9.2:COLD-STAGE state=ready abi=3 size=0x00c0"
    ∷ codes "MICRONUX:M9.2:COLD-PROBE state=PROBED_QUIESCENT abi=3"
    ∷ codes "MICRONUX:M9.2:COLD-INIT state=START trigger=sysfs"
    ∷ codes "MICRONUX:M9.2:COLD-INIT state=LDO_READY"
    ∷ codes "MICRONUX:M9.2:COLD-INIT stage=native-dsi state=READY"
    ∷ codes "MICRONUX:M9.2:COLD-INIT stage=panel-release state=READY"
    ∷ codes "MICRONUX:M9.2:COLD-INIT stage=panel-commands state=COMPLETE"
    ∷ codes "MICRONUX:M9.2:COLD-INIT state=PANEL_PROGRAMMED_QUIESCENT"
    ∷ codes "MICRONUX:M9.2:COLD-INIT state=SCANOUT_INITIALIZING"
    ∷ codes "MICRONUX:M9.2:COLD-INIT stage=memory state=READY"
    ∷ codes "MICRONUX:M9.2:COLD-INIT stage=dpi-bridge state=CONFIGURED"
    ∷ codes "MICRONUX:M9.2:COLD-INIT stage=gdma-irq state=CONFIGURED"
    ∷ codes "MICRONUX:M9.2:COLD-INIT stage=scanout-qualification state=PASSED"
    ∷ codes "MICRONUX:M9.2:COLD-INIT state=SCANOUT_QUALIFIED_QUIESCENT"
    ∷ codes "MICRONUX:M9.2:REVEAL state=REVEALING trigger=boot_ready"
    ∷ codes "MICRONUX:M9.2:REVEAL state=QUALIFIED source=userspace-status"
    ∷ codes "MICRONUX:M9.2:REVEAL stage=control state=ACKED command=0x17 pwm=0"
    ∷ codes "MICRONUX:M9.2:REVEAL state=RUNTIME_REVEALED boot-ready=1"
    ∷ codes
        "MICRONUX:M7:FB-CONSOLE state=ready tty=tty1 role=status usb=ttyGS0 reveal=userspace-ready native-state=RUNTIME_REVEALED"
    ∷ []

abbrev pub required_fragments : List Text
required_fragments =
    codes
      "pwm-zero-write=acked reset-prepare-write=acked pwm-zero-settle=elapsed reset-assert-write=acked reset-hold=elapsed i2c=released"
    ∷ codes "flags=0x00003fff route=ready dma-pms=ready panel-payload-crc=cea07f9b contract=invalid"
    ∷ codes "firmware=validated records=204 dcs-packets=205"
    ∷ codes "ctrl-hi=c0108840 host=video frame-bta=enabled lp=all lpclk=00000003"
    ∷ codes
        "frames=4 same-front=yes control-command=0x17-acked pwm-command=63-acked brightness=63 backlight=registered i2c=active-serialized"
    ∷ codes "physical-panel-state=unobserved"
    ∷ []

-- The loop over `ordered_markers`, from the position behind the marker before.
unfoldable pub first_out_of_order : List Text → Text → ℕ → Option Text
first_out_of_order [] boot_log start = none
first_out_of_order (expected ∷ rest) boot_log start = elim (find_from expected boot_log start) [
  | none ↦ some expected
  | some found ↦ first_out_of_order rest boot_log (found + 1)
]

-- The loop over `required_fragments`.
unfoldable pub first_missing : List Text → Text → Option Text
first_missing [] boot_log = none
first_missing (fragment ∷ rest) boot_log =
    let later = first_missing rest boot_log in
    if is_within fragment boot_log then later else some fragment

unfoldable pub boot_contract_problem : Text → Option BootProblem
boot_contract_problem boot_log = elim (failure_marker boot_log) [
  | some marker ↦ some (terminal_failure marker)
  | none ↦
      if not (is_within (codes "Linux version 6.12.27") boot_log)
      then some kernel_version_missing
      else elim (first_out_of_order ordered_markers boot_log 0) [
        | some expected ↦ some (missing_or_out_of_order expected)
        | none ↦ elim (first_missing required_fragments boot_log) [
          | some fragment ↦ some (contract_fragment fragment)
          | none ↦ none
        ]
      ]
]
