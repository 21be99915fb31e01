-- ===== src/Hardware/Disconnect/Lines.antt =====
-- What `run_disconnect` (m9-hardware-test.py) reads in the outputs, and the phases that it expects.
use micro_nux.Base.{ℕ, Bool, false, ltb, some, List, [], ◌∷◌, Text, codes, length}
use micro_nux.Base.Regex.{Re, ◌&◌, digits, find_all, is_hex, lit, literal}
use micro_nux.Base.Strings.{str}
use micro_nux.Hardware.Framebuffer.{first_groups}
use micro_nux.Hardware.Preflight.{touch_line_re}
use micro_nux.Hardware.Samples.{Sample, after, line_break}

-- `status_re` and `boot_id_re` behind a prefix.
abbrev pub status_line_re : Text → Re
status_line_re prefix =
    literal prefix
    & lit
        " pattern=framebuffer boot_ready=1 native_state=RUNTIME_REVEALED brightness=63 bl_power=0 actual_brightness=63"

abbrev hex_digits : ℕ → Re
hex_digits n = Re.run is_hex n (some n)

abbrev pub boot_id_line_re : Text → Re
boot_id_line_re prefix =
    literal prefix
    & lit " boot_id="
    & Re.group (
        hex_digits 8
        & lit "-"
        & hex_digits 4
        & lit "-"
        & hex_digits 4
        & lit "-"
        & hex_digits 4
        & lit "-"
        & hex_digits 12)

abbrev pub armed_re : ℕ → Re
armed_re boundary_delay =
    Re.line_start
    & lit "MICRONUX:M9:USB-DISCONNECT:BOUNDARY:ARMED delay_seconds="
    & literal (str boundary_delay)
    & lit " pid="
    & digits
    & line_break

abbrev pub boot_ids : Text → Text → List Text
boot_ids prefix output = first_groups (find_all (boot_id_line_re prefix) output)

abbrev pub touch_lines : Text → ℕ
touch_lines output = length (find_all touch_line_re output)

-- One scanout line in each list, with more frames in the second.
unfoldable pub scans_on : List Sample → List Sample → Bool
scans_on (earlier ∷ []) (later ∷ []) = ltb (earlier.count after) (later.count after)
scans_on earlier later = false

abbrev pub before_phases : List Text
before_phases = codes "BEFORE-PREHASH" ∷ codes "BEFORE-POSTHASH" ∷ []

abbrev pub boundary_phases : List Text
boundary_phases =
    codes "BEFORE-PREHASH"
    ∷ codes "BEFORE-POSTHASH"
    ∷ codes "BOUNDARY-PREHASH"
    ∷ codes "BOUNDARY-POSTHASH"
    ∷ []

abbrev pub all_phases : List Text
all_phases =
    codes "BEFORE-PREHASH"
    ∷ codes "BEFORE-POSTHASH"
    ∷ codes "BOUNDARY-PREHASH"
    ∷ codes "BOUNDARY-POSTHASH"
    ∷ codes "AFTER-PREHASH"
    ∷ codes "AFTER-POSTHASH"
    ∷ []
