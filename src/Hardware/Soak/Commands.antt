-- ===== src/Hardware/Soak/Commands.antt =====
-- The shell command of `run_soak` (m9-hardware-test.py).
use micro_nux.Base.{ℕ, zero, suc, ◌+◌, ◌++◌, List, [], ◌∷◌, Text, codes}
use micro_nux.Base.Strings.{join, remove_suffix, str}
use micro_nux.Hardware.Preflight.Commands.{framebuffer_hash_shell}

-- What the loop's body adds for a sample.
unfoldable pub sample_commands : ℕ → List Text
sample_commands index =
    (codes "echo MICRONUX:M9:SOAK-SAMPLE index=" ++ (str index))
    ∷ (codes "cat $D/diagnostics")
    ∷ (codes "cat $D/scanout")
    ∷ (codes "cat $D/touch")
    ∷ (remove_suffix (framebuffer_hash_shell (codes "soak-" ++ (str index)) (codes "m9_fb_hash"))
        (codes "; "))
    ∷ (codes "echo \"MICRONUX:M9:SOAK-STATUS index="
        ++ (str index
            ++ (codes
                " pattern=$(cat $D/pattern) boot_ready=$(cat $D/boot_ready) native_state=$(cat $D/native_state) brightness=$(cat $B/brightness) bl_power=$(cat $B/bl_power) actual_brightness=$(cat $B/actual_brightness)\"")))
    ∷ (codes "[ \"$(cat $D/pattern)\" = framebuffer ] || m9_soak_rc=1")
    ∷ (codes "[ \"$(cat $D/boot_ready)\" = 1 ] || m9_soak_rc=1")
    ∷ (codes "[ \"$(cat $D/native_state)\" = RUNTIME_REVEALED ] || m9_soak_rc=1")
    ∷ (codes "[ \"$(cat $B/brightness)\" = 63 ] || m9_soak_rc=1")
    ∷ (codes "[ \"$(cat $B/bl_power)\" = 0 ] || m9_soak_rc=1")
    ∷ (codes "[ \"$(cat $B/actual_brightness)\" = 63 ] || m9_soak_rc=1")
    ∷ (codes "echo MICRONUX:M9:SOAK-SHELL state=responsive index=" ++ (str index))
    ∷ []

-- The loop, from an index on, for so many samples.
unfoldable pub soak_loop : ℕ → ℕ → ℕ → List Text
soak_loop sample_seconds index zero = []
soak_loop sample_seconds index (suc zero) = sample_commands index
soak_loop sample_seconds index (suc (suc left)) =
    sample_commands index
    ++ ((codes "sleep " ++ str sample_seconds) ∷ soak_loop sample_seconds (index + 1) (suc left))

unfoldable pub soak_command : ℕ → ℕ → Text
soak_command sample_seconds sample_count = join (codes "; ") (
    (codes "D=/sys/bus/platform/devices/500a0000.display")
    ∷ (codes "B=/sys/class/backlight/micronux-backlight")
    ∷ (codes "m9_soak_rc=0")
    ∷ (soak_loop sample_seconds 0 sample_count ++ ((codes "[ \"$m9_soak_rc\" -eq 0 ]") ∷ [])))
