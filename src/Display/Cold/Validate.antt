-- ===== src/Display/Cold/Validate.antt =====
-- `validate_cold_relinquish` of m9-2-display-contract-test.py, in the order of its statements.
use micro_nux.Base.{
  ℕ, ◌+◌, ◌-◌, ◌*◌, ◌/◌, ◌%◌, Bool, true, false, not, ◌&&◌, ◌||◌, ltb, ◌==◌, List, [], ◌∷◌, Text,
  length, take, raise_if, or_raise, ◌>>◌, ◌>>=◌,
}
use micro_nux.Base.Bytes.{le_at, read_fields}
use micro_nux.Base.Crc32.{crc32}
use micro_nux.Display.Layout.{
  owner_linux_pending, Checked, cold_page_size, check_frames, descriptor_count, descriptor_size,
  descriptor_sram, display_pool, dsi_fifo, frame_size, high_bits, loader_psram, low_bits,
  magic_word, sd_dma_sram, structure_size, magic, abi_version, declared_size, crc32_mismatch,
  unknown_flags, required_flags, boot_mode, ownership_state, panel_profile, frame_size_overflow,
  frame_size_mismatch, published_frame_size, loader_front_bounds, display_pool_layout,
  descriptor_overflow, descriptor_bounds, descriptor_sd_dma_overlap, dma_channel,
  gdma_linux_irq_data, gdma_linux_hwirq, peripheral_contract, silicon_readback,
  display_reset_clock_state, dphy_ldo_enabled, i2c_not_released, gdma_irq_route, dma_pms_policy,
  descriptor_storage_not_zero,
}
use micro_nux.Display.Cold.{
  ColdHardwareState, ColdValues, cold_abi_version, cold_boot_mode, cold_clic_irq,
  cold_pms_read_mask, cold_pms_write_mask, cold_size, cold_values_of, cold_widths,
}

-- The three fields that `unpack_from` reads before the length is known to be right, and the length.
unfoldable pub check_cold_header : Text → Checked
check_cold_header blob = do
  raise_if (ltb (length blob) 8) structure_size
  raise_if (not (le_at 4 0 blob == magic_word)) magic
  raise_if (not (le_at 2 4 blob == cold_abi_version)) abi_version
  raise_if (not (le_at 2 6 blob == cold_size)) declared_size
  raise_if (not (length blob == cold_size)) structure_size

unfoldable pub check_cold_flags : ColdValues → Checked
check_cold_flags v = do
  raise_if (not (high_bits 14 v.flags == 0)) unknown_flags
  raise_if (not (low_bits 14 v.flags == 0x3fff)) required_flags
  raise_if (not (v.boot_mode == cold_boot_mode)) boot_mode
  raise_if (not (v.ownership_state == owner_linux_pending)) ownership_state

-- `profile == (...)`
unfoldable pub cold_profile : ColdValues → Bool
cold_profile v =
    v.silicon_revision == 103
    && v.panel_profile_id == 1
    && v.width == 800
    && v.height == 1280
    && v.stride == 1600
    && v.pixel_format == 1
    && v.pixel_clock_hz == 60_000_000
    && v.lane_bit_rate_mbps == 1000
    && v.data_lanes == 2
    && v.buffer_count == 3
    && v.hsync_pulse_width == 20
    && v.hsync_back_porch == 20
    && v.hsync_front_porch == 40
    && v.vsync_pulse_width == 4
    && v.vsync_back_porch == 10
    && v.vsync_front_porch == 30

unfoldable pub check_cold_profile : ColdValues → Checked
check_cold_profile v = do
  raise_if (not (cold_profile v)) panel_profile
  raise_if (ltb (0xffff_ffff / v.stride) v.height) frame_size_overflow
  raise_if (not (v.height * v.stride == frame_size)) frame_size_mismatch
  raise_if (not (v.framebuffer_size == frame_size)) published_frame_size

unfoldable pub check_cold_frames : ColdValues → Checked
check_cold_frames v = do
  let front_end = v.framebuffer0 + frame_size
  raise_if
      (ltb 0xffff_ffff front_end
        || ltb v.framebuffer0 loader_psram.0
        || ltb loader_psram.1 front_end)
      loader_front_bounds
  raise_if (not (v.framebuffer1 == 0x4930_0000 && v.framebuffer2 == 0x4950_0000))
      display_pool_layout
  check_frames cold_page_size (v.framebuffer0 ∷ v.framebuffer1 ∷ v.framebuffer2 ∷ [])

unfoldable pub check_cold_descriptor : ColdValues → Checked
check_cold_descriptor v = do
  let page_end = v.descriptor_address + cold_page_size
  raise_if (ltb 0xffff_ffff page_end) descriptor_overflow
  raise_if
      (ltb v.descriptor_address descriptor_sram.0
        || ltb descriptor_sram.1 page_end
        || not (v.descriptor_address % cold_page_size == 0)
        || not (v.descriptor_size == descriptor_size * descriptor_count)
        || not (v.descriptor_count == descriptor_count))
      descriptor_bounds
  raise_if (ltb v.descriptor_address sd_dma_sram.1 && ltb sd_dma_sram.0 page_end)
      descriptor_sd_dma_overlap

-- The disjunction of the peripheral contract.
unfoldable pub other_peripherals : ColdValues → Bool
other_peripherals v =
    not (v.dsi_fifo_address == dsi_fifo)
    || not (v.gdma_irq_source == 24)
    || not (v.gdma_clic_irq == cold_clic_irq)
    || not (v.i2c_port == 0)
    || not (v.i2c_sda_gpio == 7)
    || not (v.i2c_scl_gpio == 8)
    || not (v.i2c_rate_hz == 100_000)
    || not (v.i2c_address == 0x45)
    || not (v.display_control_register == 0x95)
    || not (v.backlight_register == 0x96)
    || not (v.display_control_reset_assert_command == 0x11)
    || not (v.display_control_reset_prepare_command == 0x13)
    || not (v.display_control_reveal_command == 0x17)
    || not (v.backlight_brightness == 63)
    || not (v.reset_hold_ms == 10)
    || not (v.pwm_zero_settle_ms == 100)
    || not (v.panel_payload_crc32 == 0xcea0_7f9b)
    || not (v.quiesce_sequence_id == 1)

unfoldable pub check_cold_peripherals : ColdValues → ColdHardwareState → Checked
check_cold_peripherals v hardware = do
  raise_if (not (v.dma_channel == 0)) dma_channel
  raise_if (not hardware.gdma_linux_irq_data_available) gdma_linux_irq_data
  raise_if (not (hardware.gdma_linux_hwirq == v.gdma_clic_irq)) gdma_linux_hwirq
  raise_if (other_peripherals v) peripheral_contract

unfoldable pub clock_enabled : ColdHardwareState → Bool
clock_enabled hardware =
    hardware.gdma_cpu_clock_enabled || hardware.gdma_sys_clock_enabled
    || hardware.dsi_sys_clock_enabled || hardware.dphy_config_clock_enabled
    || hardware.dphy_pll_ref_clock_enabled || hardware.dpi_clock_enabled

-- `==` on tuples of address ranges.
unfoldable pub regions_eq : List (ℕ × ℕ) → List (ℕ × ℕ) → Bool
regions_eq [] [] = true
regions_eq [] (b ∷ bs) = false
regions_eq (a ∷ as') [] = false
regions_eq (a ∷ as') (b ∷ bs) = a.0 == b.0 && a.1 == b.1 && regions_eq as' bs

-- `any(...)` of a byte string.
unfoldable pub any_nonzero : Text → Bool
any_nonzero [] = false
any_nonzero (b ∷ bs) = not (b == 0) || any_nonzero bs

abbrev pub expected_pms_regions : ColdValues → List (ℕ × ℕ)
expected_pms_regions v =
    (v.framebuffer0, v.framebuffer0 + frame_size)
    ∷ display_pool
    ∷ (v.descriptor_address, v.descriptor_address + cold_page_size)
    ∷ (dsi_fifo, dsi_fifo + cold_page_size)
    ∷ []

unfoldable pub check_cold_hardware : ColdValues → ColdHardwareState → Checked
check_cold_hardware v hardware = do
  raise_if (not (hardware.silicon_revision == v.silicon_revision)) silicon_readback
  raise_if (not hardware.gdma_reset_asserted || not hardware.dsi_module_reset_asserted)
      display_reset_clock_state
  raise_if (clock_enabled hardware) display_reset_clock_state
  raise_if hardware.dphy_ldo_enabled dphy_ldo_enabled
  raise_if hardware.i2c_apb_clock_enabled i2c_not_released
  raise_if (not (hardware.gdma_irq_route == v.gdma_clic_irq)) gdma_irq_route
  raise_if
      (not (regions_eq hardware.dma_pms_regions (expected_pms_regions v))
        || not (hardware.dma_pms_read_mask == cold_pms_read_mask)
        || not (hardware.dma_pms_write_mask == cold_pms_write_mask))
      dma_pms_policy
  raise_if
      (not (length hardware.descriptor_backing == cold_page_size)
        || any_nonzero hardware.descriptor_backing)
      descriptor_storage_not_zero

-- The checks on the values, after the checksum.
unfoldable pub check_cold_values : ColdValues → ColdHardwareState → Checked
check_cold_values v hardware = do
  check_cold_flags v
  check_cold_profile v
  check_cold_frames v
  check_cold_descriptor v
  check_cold_peripherals v hardware
  check_cold_hardware v hardware

unfoldable pub validate_cold_relinquish : Text → ColdHardwareState → Checked
validate_cold_relinquish blob hardware = do
  check_cold_header blob
  v ← or_raise (cold_values_of (read_fields cold_widths 0 blob)) structure_size
  raise_if (not (crc32 (take (length blob - 4) blob) == v.crc32)) crc32_mismatch
  check_cold_values v hardware
