-- ===== src/Hardware/Preflight/Commands.antt =====
-- The shell commands of `run_preflight`, and `framebuffer_hash_shell` (m9-hardware-test.py).
use micro_nux.Base.{◌++◌, Text, codes}

abbrev pub framebuffer_hash_shell : Text → Text → Text
framebuffer_hash_shell phase variable =
    codes "unset "
    ++ (variable
        ++ (codes "; if m9_fb_line=\"$(/bin/busybox sha256sum /dev/fb0)\"; then "
            ++ (variable
                ++ (codes "=\"${m9_fb_line%% *}\"; echo \"MICRONUX:M9:FB-SHA256 phase="
                    ++ (phase ++ (codes " sha256=$" ++ (variable ++ codes "\"; fi; ")))))))

abbrev pub check_command : Text
check_command = codes "micronux-display-test check"

abbrev pub sysfs_command : Text
sysfs_command =
    codes
      "D=/sys/bus/platform/devices/500a0000.display; B=/sys/class/backlight/micronux-backlight; test \"$(cat \"$D/native_state\")\" = RUNTIME_REVEALED && test \"$(cat \"$D/pattern\")\" = framebuffer && test \"$(cat \"$D/boot_ready\")\" = 1 && test \"$(cat \"$B/brightness\")\" = 63 && test \"$(cat \"$B/bl_power\")\" = 0 && test \"$(cat \"$B/actual_brightness\")\" = 63 && { cat \"$D/native_state\"; cat \"$D/ownership\"; cat \"$D/diagnostics\"; cat \"$D/scanout\"; cat \"$D/touch\"; echo \"MICRONUX:M9:NATIVE-RUNTIME pattern=$(cat \"$D/pattern\") boot_ready=$(cat \"$D/boot_ready\") native_state=$(cat \"$D/native_state\") brightness=$(cat \"$B/brightness\") bl_power=$(cat \"$B/bl_power\") actual_brightness=$(cat \"$B/actual_brightness\")\"; }"

abbrev pub vpg_unavailable_command : Text
vpg_unavailable_command =
    codes
      "D=/sys/bus/platform/devices/500a0000.display; B=/sys/class/backlight/micronux-backlight; "
    ++ (framebuffer_hash_shell (codes "vpg-reject-before") (codes "m9_fb_before")
        ++ (codes
              "cat \"$D/diagnostics\"; cat \"$D/scanout\"; if [ ! -e \"$D/vpg_test_ms\" ]; then m9_vpg_unavailable=1; else m9_vpg_unavailable=0; fi; sleep 1; "
            ++ (framebuffer_hash_shell (codes "vpg-reject-after") (codes "m9_fb_after")
                ++ (codes
                    "cat \"$D/diagnostics\"; cat \"$D/scanout\"; echo \"MICRONUX:M9:VPG-UNAVAILABLE absent=$m9_vpg_unavailable pattern=$(cat \"$D/pattern\") boot_ready=$(cat \"$D/boot_ready\") native_state=$(cat \"$D/native_state\") brightness=$(cat \"$B/brightness\") bl_power=$(cat \"$B/bl_power\") actual_brightness=$(cat \"$B/actual_brightness\")\"; test \"$m9_vpg_unavailable\" = 1 && test \"$m9_fb_before\" = \"$m9_fb_after\""))))

abbrev pub presentation_command : Text
presentation_command =
    codes
      "D=/sys/bus/platform/devices/500a0000.display; B=/sys/class/backlight/micronux-backlight; "
    ++ (framebuffer_hash_shell (codes "presentation-before") (codes "m9_fb_before")
        ++ (codes
              "echo MICRONUX:M9:DIAGNOSTICS:BEFORE; cat $D/diagnostics; cat $D/scanout; micronux-display-test draw 3 & m9_pid=$!; sleep 1; echo MICRONUX:M9:DIAGNOSTICS:DURING; cat $D/diagnostics; cat $D/scanout; echo MICRONUX:M9:SHELL state=responsive; wait $m9_pid; m9_draw_rc=$?; echo MICRONUX:M9:DRAW rc=$m9_draw_rc; "
            ++ (framebuffer_hash_shell (codes "presentation-after") (codes "m9_fb_after")
                ++ (codes
                    "echo MICRONUX:M9:DIAGNOSTICS:AFTER; cat $D/diagnostics; cat $D/scanout; echo \"MICRONUX:M9:PRESENTATION:RESTORE pattern=$(cat $D/pattern) boot_ready=$(cat $D/boot_ready) native_state=$(cat $D/native_state) brightness=$(cat $B/brightness) bl_power=$(cat $B/bl_power) actual_brightness=$(cat $B/actual_brightness)\"; test \"$(cat $D/pattern)\" = framebuffer && test \"$(cat $D/boot_ready)\" = 1 && test \"$(cat $D/native_state)\" = RUNTIME_REVEALED && test \"$(cat $B/brightness)\" = 63 && test \"$(cat $B/bl_power)\" = 0 && test \"$(cat $B/actual_brightness)\" = 63 && test \"$m9_fb_before\" = \"$m9_fb_after\""))))

abbrev pub signal_command : Text
signal_command =
    codes
      "D=/sys/bus/platform/devices/500a0000.display; B=/sys/class/backlight/micronux-backlight; "
    ++ (framebuffer_hash_shell (codes "signal-before") (codes "m9_fb_before")
        ++ (codes
              "echo MICRONUX:M9:SIGNAL-DIAGNOSTICS:BEFORE; cat $D/diagnostics; cat $D/scanout; micronux-display-test draw 30 & m9_pid=$!; sleep 4; kill -TERM $m9_pid; wait $m9_pid; m9_draw_rc=$?; echo MICRONUX:M9:SIGNAL rc=$m9_draw_rc; "
            ++ (framebuffer_hash_shell (codes "signal-after") (codes "m9_fb_after")
                ++ (codes
                    "echo MICRONUX:M9:SIGNAL-DIAGNOSTICS:AFTER; cat $D/diagnostics; cat $D/scanout; echo \"MICRONUX:M9:SIGNAL:RESTORE pattern=$(cat $D/pattern) boot_ready=$(cat $D/boot_ready) native_state=$(cat $D/native_state) brightness=$(cat $B/brightness) bl_power=$(cat $B/bl_power) actual_brightness=$(cat $B/actual_brightness)\"; test \"$(cat $D/pattern)\" = framebuffer && test \"$(cat $D/boot_ready)\" = 1 && test \"$(cat $D/native_state)\" = RUNTIME_REVEALED && test \"$(cat $B/brightness)\" = 63 && test \"$(cat $B/bl_power)\" = 0 && test \"$(cat $B/actual_brightness)\" = 63 && test \"$m9_fb_before\" = \"$m9_fb_after\" && echo MICRONUX:M9:SIGNAL-SHELL state=responsive"))))
