-- ===== src/Hardware.antt =====
-- scripts/m9-hardware-test.py: the checks that the hardware gate makes on what a board prints.
pub mod Samples
pub mod Contract
pub mod Boot
pub mod Framebuffer
pub mod Phases
pub mod Payload
pub mod Serial
pub mod Preflight
pub mod Identity
pub mod Touch
pub mod Soak
pub mod Stress
pub mod Reconnect
pub mod Rate
pub mod Snapshot
pub mod Disconnect
pub mod Gate
use micro_nux.Base.{ℕ, Option, none, some, List, [], ◌∷◌, Text, codes, if◌then◌else◌}
use micro_nux.Base.Strings.{is_within}

abbrev pub max_rearm_ns : ℕ
max_rearm_ns = 1_000_000

abbrev pub failure_markers : List Text
failure_markers =
    codes "Kernel panic"
    ∷ codes "Oops:"
    ∷ codes "BUG:"
    ∷ codes "MICRONUX:M9:DISPLAY-FAULT"
    ∷ codes "state=REJECTED_NO_WRITES"
    ∷ codes "state=FAILED_QUIESCENT"
    ∷ codes "state=FAILED_UNVERIFIED"
    ∷ codes "REMOVE_UNVERIFIED"
    ∷ []

-- `next((marker for marker in markers if marker in output), None)`
unfoldable pub first_within : List Text → Text → Option Text
first_within [] output = none
first_within (marker ∷ markers) output =
    let rest = first_within markers output in if is_within marker output then some marker else rest

unfoldable pub failure_marker : Text → Option Text
failure_marker output = first_within failure_markers output
