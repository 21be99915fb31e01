-- ===== src/Hardware/Snapshot/Commands.antt =====
-- The shell command of `run_snapshot`, and `diagnostics_phase_shell` (m9-hardware-test.py).
use micro_nux.Base.{◌++◌, Option, none, some, [], Text, codes}
use micro_nux.Hardware.Preflight.Commands.{framebuffer_hash_shell}

-- `uptime_phase` is an optional argument.
abbrev uptime_shell : Option Text → Text
uptime_shell none = []
uptime_shell (some uptime_phase) =
    codes "echo -n \"MICRONUX:M9:USB-DISCONNECT:"
    ++ (uptime_phase ++ codes ":UPTIME \"; cat /proc/uptime; ")

abbrev pub diagnostics_phase_shell : Text → Option Text → Text
diagnostics_phase_shell phase uptime_phase =
    codes "echo \"MICRONUX:M9:DIAGNOSTICS phase="
    ++ (phase ++ (codes "\"; " ++ (uptime_shell uptime_phase ++ codes "cat \"$D/diagnostics\"; ")))

abbrev pub snapshot_command : Text
snapshot_command =
    codes
      "echo -n \"MICRONUX:M9:SNAPSHOT boot_id=\"; cat /proc/sys/kernel/random/boot_id; echo -n \"MICRONUX:M9:SNAPSHOT uptime=\"; cat /proc/uptime; D=/sys/bus/platform/devices/500a0000.display; B=/sys/class/backlight/micronux-backlight; echo \"MICRONUX:M9:NATIVE-RUNTIME pattern=$(cat \"$D/pattern\") boot_ready=$(cat \"$D/boot_ready\") native_state=$(cat \"$D/native_state\") brightness=$(cat \"$B/brightness\") bl_power=$(cat \"$B/bl_power\") actual_brightness=$(cat \"$B/actual_brightness\")\"; cat \"$D/ownership\"; "
    ++ (diagnostics_phase_shell (codes "SNAPSHOT-A-PREHASH") none
        ++ (framebuffer_hash_shell (codes "snapshot-a") (codes "m9_fb_before")
            ++ (diagnostics_phase_shell (codes "SNAPSHOT-A-POSTHASH") none
                ++ (codes "cat \"$D/scanout\"; sleep 1; "
                    ++ (diagnostics_phase_shell (codes "SNAPSHOT-B-PREHASH") none
                        ++ (framebuffer_hash_shell (codes "snapshot-b") (codes "m9_fb_after")
                            ++ (diagnostics_phase_shell (codes "SNAPSHOT-B-POSTHASH") none
                                ++ (codes
                                    "cat \"$D/scanout\"; cat \"$D/touch\"; test \"$m9_fb_before\" = \"$m9_fb_after\" && test \"$(cat \"$D/pattern\")\" = framebuffer && test \"$(cat \"$D/boot_ready\")\" = 1 && test \"$(cat \"$D/native_state\")\" = RUNTIME_REVEALED && test \"$(cat \"$B/brightness\")\" = 63 && test \"$(cat \"$B/bl_power\")\" = 0 && test \"$(cat \"$B/actual_brightness\")\" = 63"))))))))
