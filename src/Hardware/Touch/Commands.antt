-- ===== src/Hardware/Touch/Commands.antt =====
-- The shell commands of `wait_for_touch_terminal` and `run_touch` (m9-hardware-test.py).
use micro_nux.Base.{ℕ, ◌++◌, Text, codes}
use micro_nux.Base.Strings.{str}
use micro_nux.Hardware.Preflight.Commands.{framebuffer_hash_shell}

abbrev pub touch_terminal_command : Text
touch_terminal_command =
    codes
      "D=/sys/bus/platform/devices/500a0000.display; m9_touch_wait=0; m9_touch_state=registering; while [ \"$m9_touch_wait\" -lt 20 ]; do m9_touch_state=\"$(cat \"$D/touch\" 2>/dev/null)\" || exit 2; if [ \"$m9_touch_state\" != registering ]; then break; fi; m9_touch_wait=$((m9_touch_wait + 1)); sleep 1; done; printf \"%s\\n\" \"$m9_touch_state\"; test \"$m9_touch_state\" != registering"

abbrev pub touch_command : ℕ → Text
touch_command point_timeout_ms =
    codes
      "D=/sys/bus/platform/devices/500a0000.display; B=/sys/class/backlight/micronux-backlight; m9_touch_ready=0; m9_touch_wait=0; while [ \"$m9_touch_wait\" -lt 20 ]; do m9_touch_state=\"$(cat \"$D/touch\")\"; printf \"%s\\n\" \"$m9_touch_state\"; if printf '%s\\n' \"$m9_touch_state\" | /bin/busybox grep -Eq '^ready product=9271 address=0x(5d|14) mode=poll interval_ms=10 reads=[0-9]+ errors=0 down=[01]$'; then m9_touch_ready=1; break; fi; m9_touch_wait=$((m9_touch_wait + 1)); sleep 1; done; echo \"MICRONUX:M9:TOUCH-READY ready=$m9_touch_ready wait_seconds=$m9_touch_wait\"; m9_touch_rc=125; if [ \"$m9_touch_ready\" = 1 ]; then cat \"$D/diagnostics\"; cat \"$D/scanout\"; "
    ++ (framebuffer_hash_shell (codes "touch-before") (codes "m9_fb_before")
        ++ (codes "micronux-display-test touch "
            ++ (str point_timeout_ms
                ++ (codes "; m9_touch_rc=$?; "
                    ++ (framebuffer_hash_shell (codes "touch-after") (codes "m9_fb_after")
                        ++ (codes
                            "cat \"$D/diagnostics\"; cat \"$D/scanout\"; cat \"$D/touch\"; fi; echo \"MICRONUX:M9:NATIVE-RUNTIME pattern=$(cat \"$D/pattern\") boot_ready=$(cat \"$D/boot_ready\") native_state=$(cat \"$D/native_state\") brightness=$(cat \"$B/brightness\") bl_power=$(cat \"$B/bl_power\") actual_brightness=$(cat \"$B/actual_brightness\")\"; test \"$m9_touch_ready\" = 1 && test \"$m9_touch_rc\" -eq 0 && test \"$m9_fb_before\" = \"$m9_fb_after\" && test \"$(cat \"$D/pattern\")\" = framebuffer && test \"$(cat \"$D/boot_ready\")\" = 1 && test \"$(cat \"$D/native_state\")\" = RUNTIME_REVEALED && test \"$(cat \"$B/brightness\")\" = 63 && test \"$(cat \"$B/bl_power\")\" = 0 && test \"$(cat \"$B/actual_brightness\")\" = 63"))))))
