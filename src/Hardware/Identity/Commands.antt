-- ===== src/Hardware/Identity/Commands.antt =====
-- The shell command of `verify_runtime_identity` (m9-hardware-test.py).
use micro_nux.Base.{Text, codes}

abbrev pub identity_command : Text
identity_command =
    codes
      "m9_boot_a=\"$(cat /proc/sys/kernel/random/boot_id)\"; m9_uptime_a=\"$(cat /proc/uptime)\"; echo \"MICRONUX:M9.2:RUNTIME sample=a boot_id=$m9_boot_a\"; echo \"MICRONUX:M9.2:RUNTIME sample=a uptime=$m9_uptime_a\"; sleep 1; m9_boot_b=\"$(cat /proc/sys/kernel/random/boot_id)\"; m9_uptime_b=\"$(cat /proc/uptime)\"; echo \"MICRONUX:M9.2:RUNTIME sample=b boot_id=$m9_boot_b\"; echo \"MICRONUX:M9.2:RUNTIME sample=b uptime=$m9_uptime_b\""
