-- ===== src/Display/Cold/Accepted.antt =====
-- The values that `validate_cold_relinquish` (m9-2-display-contract-test.py) lets pass.
use micro_nux.Base.{
  ℕ, ◌+◌, ◌*◌, ◌%◌, ◌≤◌, ◌≡◌, ◌↔◌, refl, Bool, true, false, not, List, [], ◌∷◌, Text, length, ok,
  raise_if, arith, then_ok, ap, ◌∙◌,
}
use micro_nux.Display.Layout.{
  cold_page_size, descriptor_count, descriptor_size, descriptor_sram, dsi_fifo, frame_size,
  loader_psram, sd_dma_sram, check_frames, panel_profile,
}
use micro_nux.Display.Layout.Frames.{Disjoint, check_frames_lem}
use micro_nux.Display.Cold.{
  cold_pms_read_mask, cold_pms_write_mask, ColdHardwareState, ColdValues, cold_default_values,
  cold_hardware, zeros,
}
use micro_nux.Display.Cold.Validate.{
  any_nonzero, check_cold_descriptor, check_cold_flags, check_cold_frames, check_cold_hardware,
  check_cold_peripherals, check_cold_profile, clock_enabled, cold_profile, expected_pms_regions,
  other_peripherals, regions_eq,
}

abbrev pub ProfileMatches : ColdValues → Type 0
ProfileMatches v =
    (v.silicon_revision ≡ 103)
    × (v.panel_profile_id ≡ 1)
    × (v.width ≡ 800)
    × (v.height ≡ 1280)
    × (v.stride ≡ 1600)
    × (v.pixel_format ≡ 1)
    × (v.pixel_clock_hz ≡ 60_000_000)
    × (v.lane_bit_rate_mbps ≡ 1000)
    × (v.data_lanes ≡ 2)
    × (v.buffer_count ≡ 3)
    × (v.hsync_pulse_width ≡ 20)
    × (v.hsync_back_porch ≡ 20)
    × (v.hsync_front_porch ≡ 40)
    × (v.vsync_pulse_width ≡ 4)
    × (v.vsync_back_porch ≡ 10)
    × (v.vsync_front_porch ≡ 30)

abbrev pub PeripheralsMatch : ColdValues → Type 0
PeripheralsMatch v =
    (v.dsi_fifo_address ≡ dsi_fifo)
    × (v.gdma_irq_source ≡ 24)
    × (v.gdma_clic_irq ≡ 18)
    × (v.i2c_port ≡ 0)
    × (v.i2c_sda_gpio ≡ 7)
    × (v.i2c_scl_gpio ≡ 8)
    × (v.i2c_rate_hz ≡ 100_000)
    × (v.i2c_address ≡ 69)
    × (v.display_control_register ≡ 149)
    × (v.backlight_register ≡ 150)
    × (v.display_control_reset_assert_command ≡ 0x11)
    × (v.display_control_reset_prepare_command ≡ 0x13)
    × (v.display_control_reveal_command ≡ 0x17)
    × (v.backlight_brightness ≡ 63)
    × (v.reset_hold_ms ≡ 10)
    × (v.pwm_zero_settle_ms ≡ 100)
    × (v.panel_payload_crc32 ≡ 0xcea0_7f9b)
    × (v.quiesce_sequence_id ≡ 1)

cold_profile-ProfileMatches : (v : ColdValues) → cold_profile v ≡ true → ProfileMatches v
unfolding cold_profile
cold_profile-ProfileMatches v h = ground arith

other_peripherals-PeripheralsMatch :
    (v : ColdValues) → other_peripherals v ≡ false → PeripheralsMatch v
unfolding other_peripherals
other_peripherals-PeripheralsMatch v h = ground arith

pub flags_match :
    (v : ColdValues)
    → check_cold_flags v ≡ ok tt
    → (v.flags ≡ 0x3fff) × (v.boot_mode ≡ 1) × (v.ownership_state ≡ 1)
unfolding check_cold_flags
flags_match v h = ground arith

pub profile_match :
    (v : ColdValues)
    → check_cold_profile v ≡ ok tt
    → ProfileMatches v × (v.framebuffer_size ≡ frame_size)
unfolding check_cold_profile
profile_match v h =
    let (same, rest) = (then_ok _ _).0 h in
    (cold_profile-ProfileMatches v (matched (cold_profile v) same), ground (arith, rest))
  where
    matched : (b : Bool) → raise_if (not b) panel_profile ≡ ok tt → b ≡ true
    matched true e = refl
    matched false e = cc

-- The front frame lies on a page in the loader's memory, and the other two in the display's pool.
abbrev pub FramesMatch : ColdValues → Type 0
FramesMatch v =
    (loader_psram.0 ≤ v.framebuffer0)
    × (v.framebuffer0 + frame_size ≤ loader_psram.1)
    × (v.framebuffer0 % cold_page_size ≡ 0)
    × (v.framebuffer1 ≡ 0x4930_0000)
    × (v.framebuffer2 ≡ 0x4950_0000)

pub aligned :
    (a b c : ℕ)
    → b ≡ 0x4930_0000
    → c ≡ 0x4950_0000
    → a + frame_size ≤ loader_psram.1
    → (check_frames cold_page_size (a ∷ b ∷ c ∷ []) ≡ ok tt) ↔ (a % cold_page_size ≡ 0)
aligned a b c eb ec le =
    rw (eb, ec) (check_frames_lem cold_page_size a le (omega arith) (omega arith))

pub frames_match : (v : ColdValues) → check_cold_frames v ≡ ok tt → FramesMatch v
unfolding check_cold_frames
frames_match v h =
    let second : v.framebuffer1 ≡ 0x4930_0000 = ground arith in
    let third : v.framebuffer2 ≡ 0x4950_0000 = ground arith in
    let ge : loader_psram.0 ≤ v.framebuffer0 = ground arith in
    let le : v.framebuffer0 + frame_size ≤ loader_psram.1 = ground arith in
    let frames : check_frames cold_page_size (v.framebuffer0 ∷ v.framebuffer1 ∷ v.framebuffer2 ∷ [])
        ≡ ok tt =
      ground arith in
    let page = (aligned v.framebuffer0 v.framebuffer1 v.framebuffer2 second third le).0 frames in
    (ge, le, page, second, third)

-- The descriptors' page lies in their memory, away from the SD card's buffers.
abbrev pub DescriptorMatches : ColdValues → Type 0
DescriptorMatches v =
    (descriptor_sram.0 ≤ v.descriptor_address)
    × (v.descriptor_address + cold_page_size ≤ descriptor_sram.1)
    × (v.descriptor_address % cold_page_size ≡ 0)
    × Disjoint (v.descriptor_address, v.descriptor_address + cold_page_size) sd_dma_sram
    × (v.descriptor_size ≡ descriptor_size * descriptor_count)
    × (v.descriptor_count ≡ descriptor_count)

pub descriptor_match : (v : ColdValues) → check_cold_descriptor v ≡ ok tt → DescriptorMatches v
unfolding check_cold_descriptor
descriptor_match v h = ground arith

pub peripherals_match :
    (v : ColdValues) (hardware : ColdHardwareState)
    → check_cold_peripherals v hardware ≡ ok tt
    → (v.dma_channel ≡ 0)
      × (hardware.gdma_linux_irq_data_available ≡ true)
      × (hardware.gdma_linux_hwirq ≡ v.gdma_clic_irq)
      × PeripheralsMatch v
unfolding check_cold_peripherals
peripherals_match v hardware h =
    (ground arith, ground arith, ground arith, other_peripherals-PeripheralsMatch v (ground arith))

regions_eq→eq : (xs ys : List (ℕ × ℕ)) → regions_eq xs ys ≡ true → xs ≡ ys
unfolding regions_eq
regions_eq→eq [] [] h = refl
regions_eq→eq [] (b ∷ ys) h = cc
regions_eq→eq (a ∷ xs) [] h = cc
regions_eq→eq (a ∷ xs) (b ∷ ys) h = ground (arith, regions_eq→eq xs ys)

pub regions_eq_refl : (xs : List (ℕ × ℕ)) → regions_eq xs xs ≡ true
unfolding regions_eq
regions_eq_refl [] = refl
regions_eq_refl (a ∷ xs) = ground (arith, regions_eq_refl xs)

any_nonzero-zeros : (bytes : Text) → any_nonzero bytes ≡ false → bytes ≡ zeros (length bytes)
unfolding any_nonzero zeros
any_nonzero-zeros [] h = refl
any_nonzero-zeros (b ∷ bytes) h = ground (arith, any_nonzero-zeros bytes)

-- The hardware state that goes with a record: quiet, with the DMA's windows on its frames and descriptors.
abbrev pub HardwareMatches : ColdValues → ColdHardwareState → Type 0
HardwareMatches v hardware = hardware ≡ record cold_hardware {
  gdma_linux_virq = hardware.gdma_linux_virq;
  dma_pms_regions = expected_pms_regions v;
}

pub hardware_match :
    (v : ColdValues) (hardware : ColdHardwareState)
    → v.silicon_revision ≡ 103
    → v.gdma_clic_irq ≡ 18
    → hardware.gdma_linux_irq_data_available ≡ true
    → hardware.gdma_linux_hwirq ≡ v.gdma_clic_irq
    → check_cold_hardware v hardware ≡ ok tt
    → HardwareMatches v hardware
unfolding check_cold_hardware clock_enabled
hardware_match v hardware revision irq available hwirq h =
    let same : regions_eq hardware.dma_pms_regions (expected_pms_regions v) ≡ true = ground arith in
    let all_zero : any_nonzero hardware.descriptor_backing ≡ false = ground arith in
    let full : length hardware.descriptor_backing ≡ cold_page_size = ground arith in
    let pms = regions_eq→eq hardware.dma_pms_regions (expected_pms_regions v) same in
    let zeroed = any_nonzero-zeros hardware.descriptor_backing all_zero in
    let backing : hardware.descriptor_backing ≡ zeros cold_page_size = zeroed ∙ ap zeros full in
    let reset : (hardware.gdma_reset_asserted ≡ true)
        × (hardware.dsi_module_reset_asserted ≡ true) =
      ground arith in
    let clocks : (hardware.gdma_cpu_clock_enabled ≡ false)
        × (hardware.gdma_sys_clock_enabled ≡ false)
        × (hardware.dsi_sys_clock_enabled ≡ false)
        × (hardware.dphy_config_clock_enabled ≡ false)
        × (hardware.dphy_pll_ref_clock_enabled ≡ false)
        × (hardware.dpi_clock_enabled ≡ false)
        × (hardware.i2c_apb_clock_enabled ≡ false)
        × (hardware.dphy_ldo_enabled ≡ false) =
      ground arith in
    let numbers : (hardware.silicon_revision ≡ 103)
        × (hardware.gdma_linux_hwirq ≡ 18)
        × (hardware.gdma_irq_route ≡ 18)
        × (hardware.dma_pms_read_mask ≡ cold_pms_read_mask)
        × (hardware.dma_pms_write_mask ≡ cold_pms_write_mask) =
      ground arith in
    λ i. record {
      silicon_revision = numbers.0 i;
      gdma_linux_irq_data_available = available i;
      gdma_linux_virq = hardware.gdma_linux_virq;
      gdma_linux_hwirq = numbers.1 i;
      gdma_reset_asserted = reset.0 i;
      dsi_module_reset_asserted = reset.1 i;
      gdma_cpu_clock_enabled = clocks.0 i;
      gdma_sys_clock_enabled = clocks.1 i;
      dsi_sys_clock_enabled = clocks.2 i;
      dphy_config_clock_enabled = clocks.3 i;
      dphy_pll_ref_clock_enabled = clocks.4 i;
      dpi_clock_enabled = clocks.5 i;
      i2c_apb_clock_enabled = clocks.6 i;
      dphy_ldo_enabled = clocks.7 i;
      gdma_irq_route = numbers.2 i;
      dma_pms_regions = pms i;
      dma_pms_read_mask = numbers.3 i;
      dma_pms_write_mask = numbers.4 i;
      descriptor_backing = backing i;
    }

-- The record that the loader writes for a front frame and a descriptor page, with its header fields.
abbrev pub ValuesMatch : ColdValues → Type 0
ValuesMatch v = v ≡ record cold_default_values {
  magic = v.magic;
  abi_version = v.abi_version;
  struct_size = v.struct_size;
  framebuffer0 = v.framebuffer0;
  descriptor_address = v.descriptor_address;
  crc32 = v.crc32;
}

pub values_match :
    (v : ColdValues)
    → (v.flags ≡ 0x3fff) × (v.boot_mode ≡ 1) × (v.ownership_state ≡ 1)
    → ProfileMatches v × (v.framebuffer_size ≡ frame_size)
    → FramesMatch v
    → DescriptorMatches v
    → v.dma_channel ≡ 0
    → PeripheralsMatch v
    → ValuesMatch v
values_match v flags profile frames descriptor channel periph = λ i. record {
  magic = v.magic;
  abi_version = v.abi_version;
  struct_size = v.struct_size;
  flags = flags.0 i;
  boot_mode = flags.1 i;
  ownership_state = flags.2 i;
  silicon_revision = profile.0.0 i;
  panel_profile_id = profile.0.1 i;
  width = profile.0.2 i;
  height = profile.0.3 i;
  stride = profile.0.4 i;
  pixel_format = profile.0.5 i;
  pixel_clock_hz = profile.0.6 i;
  lane_bit_rate_mbps = profile.0.7 i;
  data_lanes = profile.0.8 i;
  buffer_count = profile.0.9 i;
  hsync_pulse_width = profile.0.10 i;
  hsync_back_porch = profile.0.11 i;
  hsync_front_porch = profile.0.12 i;
  vsync_pulse_width = profile.0.13 i;
  vsync_back_porch = profile.0.14 i;
  vsync_front_porch = profile.0.15 i;
  framebuffer0 = v.framebuffer0;
  framebuffer1 = frames.3 i;
  framebuffer2 = frames.4 i;
  framebuffer_size = profile.1 i;
  descriptor_address = v.descriptor_address;
  descriptor_size = descriptor.4 i;
  descriptor_count = descriptor.5 i;
  dma_channel = channel i;
  dsi_fifo_address = periph.0 i;
  gdma_irq_source = periph.1 i;
  gdma_clic_irq = periph.2 i;
  i2c_port = periph.3 i;
  i2c_sda_gpio = periph.4 i;
  i2c_scl_gpio = periph.5 i;
  i2c_rate_hz = periph.6 i;
  i2c_address = periph.7 i;
  display_control_register = periph.8 i;
  backlight_register = periph.9 i;
  display_control_reset_assert_command = periph.10 i;
  display_control_reset_prepare_command = periph.11 i;
  display_control_reveal_command = periph.12 i;
  backlight_brightness = periph.13 i;
  reset_hold_ms = periph.14 i;
  pwm_zero_settle_ms = periph.15 i;
  panel_payload_crc32 = periph.16 i;
  quiesce_sequence_id = periph.17 i;
  crc32 = v.crc32;
}
