-- ===== src/Hardware/Stress/Commands.antt =====
-- The shell command of `run_stress` (m9-hardware-test.py).
use micro_nux.Base.{ℕ, ◌++◌, List, [], ◌∷◌, Text, codes}
use micro_nux.Base.Strings.{join, numbers_from, remove_suffix, str}
use micro_nux.Hardware.Preflight.Commands.{framebuffer_hash_shell}

abbrev pub stress_snapshot_shell : Text → Text
stress_snapshot_shell stage =
    codes "echo \"MICRONUX:M9.2:STRESS:SNAPSHOT stage="
    ++ (stage
        ++ (codes
              "\"; cat \"$D/diagnostics\"; cat \"$D/scanout\"; cat \"$D/touch\"; echo \"MICRONUX:M9.2:STRESS:MEM stage="
            ++ (stage
                ++ (codes "\"; /bin/busybox grep -E '^(MemFree|MemAvailable):' /proc/meminfo"))))

unfoldable pub stress_commands : Text → ℕ → List Text
stress_commands cycle_arguments stress_cycles =
    (codes "D=/sys/bus/platform/devices/500a0000.display")
    ∷ (codes "B=/sys/class/backlight/micronux-backlight")
    ∷ (codes "m9_stress_rc=0")
    ∷ (remove_suffix (framebuffer_hash_shell (codes "stress-before") (codes "m9_fb_before"))
        (codes "; "))
    ∷ (stress_snapshot_shell (codes "before"))
    ∷ (codes "micronux-display-test draw 300 & m9_draw_pid=$!")
    ∷ (codes "sleep 1")
    ∷ (stress_snapshot_shell (codes "graphics"))
    ∷ (codes
        "/usr/bin/micronux-storage-test --write-test; m9_storage_rc=$?; [ \"$m9_storage_rc\" -eq 0 ] || m9_stress_rc=1; echo \"MICRONUX:M9.2:STRESS:WORKLOAD stage=storage rc=$m9_storage_rc\"")
    ∷ (stress_snapshot_shell (codes "storage"))
    ∷ (codes
        "/usr/bin/micronux-online; m9_online_rc=$?; [ \"$m9_online_rc\" -eq 0 ] || m9_stress_rc=1; echo \"MICRONUX:M9.2:STRESS:WORKLOAD stage=network-online rc=$m9_online_rc\"")
    ∷ (stress_snapshot_shell (codes "network"))
    ∷ (codes "/usr/bin/micronux-combined-soak "
        ++ (cycle_arguments
            ++ (codes
                  "; m9_io_rc=$?; [ \"$m9_io_rc\" -eq 0 ] || m9_stress_rc=1; echo \"MICRONUX:M9.2:STRESS:WORKLOAD stage=sd-network cycles="
                ++ (str stress_cycles ++ (codes " rc=$m9_io_rc\"")))))
    ∷ (stress_snapshot_shell (codes "io"))
    ∷ (codes
        "/usr/bin/micronux-selftest; m9_memory_rc=$?; [ \"$m9_memory_rc\" -eq 0 ] || m9_stress_rc=1; echo \"MICRONUX:M9.2:STRESS:WORKLOAD stage=memory-pressure kib=4096 rc=$m9_memory_rc\"")
    ∷ (stress_snapshot_shell (codes "memory"))
    ∷ (codes "/bin/busybox kill -TERM $m9_draw_pid 2>/dev/null || :")
    ∷ (codes "wait $m9_draw_pid; m9_draw_rc=$?")
    ∷ (codes "[ \"$m9_draw_rc\" -eq 143 ] || m9_stress_rc=1")
    ∷ (codes "echo \"MICRONUX:M9.2:STRESS:WORKLOAD stage=graphics-restore rc=$m9_draw_rc\"")
    ∷ (codes "sleep 1")
    ∷ (remove_suffix (framebuffer_hash_shell (codes "stress-after") (codes "m9_fb_after"))
        (codes "; "))
    ∷ (stress_snapshot_shell (codes "after"))
    ∷ (codes
        "echo \"MICRONUX:M9.2:STRESS:STATUS pattern=$(cat $D/pattern) boot_ready=$(cat $D/boot_ready) native_state=$(cat $D/native_state) brightness=$(cat $B/brightness) bl_power=$(cat $B/bl_power) actual_brightness=$(cat $B/actual_brightness)\"")
    ∷ (codes "[ \"$m9_fb_before\" = \"$m9_fb_after\" ] || m9_stress_rc=1")
    ∷ (codes "[ \"$(cat $D/pattern)\" = framebuffer ] || m9_stress_rc=1")
    ∷ (codes "[ \"$(cat $D/boot_ready)\" = 1 ] || m9_stress_rc=1")
    ∷ (codes "[ \"$(cat $D/native_state)\" = RUNTIME_REVEALED ] || m9_stress_rc=1")
    ∷ (codes "[ \"$(cat $B/brightness)\" = 63 ] || m9_stress_rc=1")
    ∷ (codes "[ \"$(cat $B/bl_power)\" = 0 ] || m9_stress_rc=1")
    ∷ (codes "[ \"$(cat $B/actual_brightness)\" = 63 ] || m9_stress_rc=1")
    ∷ (codes "[ \"$m9_stress_rc\" -eq 0 ]")
    ∷ []

unfoldable pub stress_command : ℕ → Text
stress_command stress_cycles =
    let cycle_arguments = join (codes " ") (numbers_from 1 stress_cycles) in
    join (codes "; ") (stress_commands cycle_arguments stress_cycles)
