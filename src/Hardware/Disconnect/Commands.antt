-- ===== src/Hardware/Disconnect/Commands.antt =====
-- The shell commands of `run_disconnect` (m9-hardware-test.py).
use micro_nux.Base.{ℕ, ◌++◌, none, some, Text, codes}
use micro_nux.Base.Strings.{shell_quote, str}
use micro_nux.Hardware.Preflight.Commands.{framebuffer_hash_shell}
use micro_nux.Hardware.Snapshot.Commands.{diagnostics_phase_shell}

abbrev pub policy_command : Text
policy_command = codes "cat /sys/kernel/micronux/usb_reset"

abbrev pub before_command : Text
before_command =
    codes
      "D=/sys/bus/platform/devices/500a0000.display; B=/sys/class/backlight/micronux-backlight; m9_boot=\"$(cat /proc/sys/kernel/random/boot_id)\"; echo \"MICRONUX:M9:USB-DISCONNECT:BEFORE boot_id=$m9_boot\"; "
    ++ (diagnostics_phase_shell (codes "BEFORE-PREHASH") none
        ++ (framebuffer_hash_shell (codes "disconnect-before") (codes "m9_fb_hash")
            ++ (diagnostics_phase_shell (codes "BEFORE-POSTHASH") (some (codes "BEFORE-POSTHASH"))
                ++ (codes
                    "cat \"$D/scanout\"; cat \"$D/touch\"; echo \"MICRONUX:M9:USB-DISCONNECT:STATUS-BEFORE pattern=$(cat $D/pattern) boot_ready=$(cat $D/boot_ready) native_state=$(cat $D/native_state) brightness=$(cat $B/brightness) bl_power=$(cat $B/bl_power) actual_brightness=$(cat $B/actual_brightness)\"; test \"$(cat $D/pattern)\" = framebuffer && test \"$(cat $D/boot_ready)\" = 1 && test \"$(cat $D/native_state)\" = RUNTIME_REVEALED && test \"$(cat $B/brightness)\" = 63 && test \"$(cat $B/bl_power)\" = 0 && test \"$(cat $B/actual_brightness)\" = 63"))))

-- What runs on the board while the port is closed.
unfoldable pub boundary_script : ℕ → Text
boundary_script boundary_delay =
    codes "trap '' HUP; sleep "
    ++ (str boundary_delay
        ++ (codes
              "; D=/sys/bus/platform/devices/500a0000.display; B=/sys/class/backlight/micronux-backlight; m9_boot=\"$(cat /proc/sys/kernel/random/boot_id)\"; echo \"MICRONUX:M9:USB-DISCONNECT:BOUNDARY:BEGIN boot_id=$m9_boot\"; "
            ++ (diagnostics_phase_shell (codes "BOUNDARY-PREHASH") (some (codes "BOUNDARY-PREHASH"))
                ++ (framebuffer_hash_shell (codes "disconnect-boundary") (codes "m9_fb_hash")
                    ++ (diagnostics_phase_shell (codes "BOUNDARY-POSTHASH")
                          (some (codes "BOUNDARY-POSTHASH"))
                        ++ (codes
                            "cat \"$D/scanout\"; cat \"$D/touch\"; echo \"MICRONUX:M9:USB-DISCONNECT:STATUS-BOUNDARY pattern=$(cat $D/pattern) boot_ready=$(cat $D/boot_ready) native_state=$(cat $D/native_state) brightness=$(cat $B/brightness) bl_power=$(cat $B/bl_power) actual_brightness=$(cat $B/actual_brightness)\"; echo \"MICRONUX:M9:USB-DISCONNECT:BOUNDARY:COMPLETE\""))))))

unfoldable pub boundary_command : ℕ → Text
boundary_command boundary_delay =
    codes "rm -f /tmp/m9-disconnect-boundary; /bin/busybox setsid /bin/busybox sh -c "
    ++ (shell_quote (boundary_script boundary_delay)
        ++ (codes
              " </dev/null >/tmp/m9-disconnect-boundary 2>&1 & echo \"MICRONUX:M9:USB-DISCONNECT:BOUNDARY:ARMED delay_seconds="
            ++ (str boundary_delay ++ (codes " pid=$!\""))))

abbrev pub boundary_read_command : Text
boundary_read_command = codes "cat /tmp/m9-disconnect-boundary"

abbrev pub after_id_command : Text
after_id_command =
    codes
      "echo -n \"MICRONUX:M9:USB-DISCONNECT:AFTER boot_id=\"; cat /proc/sys/kernel/random/boot_id"

abbrev pub after_state_command : Text
after_state_command =
    codes
      "D=/sys/bus/platform/devices/500a0000.display; B=/sys/class/backlight/micronux-backlight; "
    ++ (diagnostics_phase_shell (codes "AFTER-PREHASH") (some (codes "AFTER-PREHASH"))
        ++ (framebuffer_hash_shell (codes "disconnect-after") (codes "m9_fb_hash")
            ++ (diagnostics_phase_shell (codes "AFTER-POSTHASH") none
                ++ (codes
                    "cat \"$D/touch\"; echo \"MICRONUX:M9:USB-DISCONNECT:STATUS-AFTER pattern=$(cat $D/pattern) boot_ready=$(cat $D/boot_ready) native_state=$(cat $D/native_state) brightness=$(cat $B/brightness) bl_power=$(cat $B/bl_power) actual_brightness=$(cat $B/actual_brightness)\""))))

abbrev pub after_scanout_command : Text
after_scanout_command = codes "cat /sys/bus/platform/devices/500a0000.display/scanout"
