-- ===== src/Display/Live/Validate.antt =====
-- `validate_handoff` of m9-2-display-contract-test.py, in the order of its statements.
use micro_nux.Base.{
  ℕ, ◌+◌, ◌-◌, ◌*◌, ◌/◌, ◌%◌, Bool, not, ◌&&◌, ◌||◌, ltb, leb, ◌==◌, List, [], ◌∷◌, Text, length,
  take, ok, raise_if, or_raise, ◌>>◌, ◌>>=◌,
}
use micro_nux.Base.Bytes.{read_fields}
use micro_nux.Base.Crc32.{crc32}
use micro_nux.Display.Layout.{
  owner_linux_pending, Checked, check_frames, descriptor_count, descriptor_size, descriptor_sram,
  dsi_fifo, frame_size, high_bits, loader_psram, low_bits, magic_word, structure_size, magic,
  abi_version, declared_size, crc32_mismatch, required_flags, panel_profile, frame_size_overflow,
  frame_size_mismatch, published_frame_size, loader_front_bounds, display_pool_layout,
  descriptor_overflow, descriptor_bounds, dma_channel, peripheral_contract,
  descriptor_count_mismatch, descriptor_source, descriptor_destination, descriptor_link,
  descriptor_block_size, descriptor_control_low, descriptor_control_high, dma_channel_config,
}
use micro_nux.Display.Live.{
  Descriptor, LiveValues, channel_config, live_abi_version, live_size, live_values_of, live_widths,
}

unfoldable pub check_live_header : LiveValues → Checked
check_live_header v = do
  raise_if (not (v.magic == magic_word)) magic
  raise_if (not (v.abi_version == live_abi_version)) abi_version
  raise_if (not (v.struct_size == live_size)) declared_size

-- `profile == (...)`
unfoldable pub live_profile : LiveValues → Bool
live_profile v =
    v.width == 800
    && v.height == 1280
    && v.stride == 1600
    && v.pixel_clock_hz == 80_000_000
    && v.lane_bit_rate_mbps == 1500
    && v.data_lanes == 2
    && v.buffer_count == 3
    && v.ownership_state == owner_linux_pending
    && v.hsync_pulse_width == 20
    && v.hsync_back_porch == 20
    && v.hsync_front_porch == 40
    && v.vsync_pulse_width == 4
    && v.vsync_back_porch == 10
    && v.vsync_front_porch == 30

unfoldable pub check_live_profile : LiveValues → Checked
check_live_profile v = do
  raise_if (not (low_bits 8 v.flags == 0xff)) required_flags
  raise_if (not (live_profile v)) panel_profile
  raise_if (ltb (0xffff_ffff / v.stride) v.height) frame_size_overflow
  raise_if (not (v.height * v.stride == frame_size)) frame_size_mismatch
  raise_if (not (v.framebuffer_size == frame_size)) published_frame_size

unfoldable pub check_live_frames : LiveValues → Checked
check_live_frames v = do
  let front_end = v.framebuffer0 + frame_size
  raise_if (ltb v.framebuffer0 loader_psram.0 || ltb loader_psram.1 front_end) loader_front_bounds
  raise_if (not (v.framebuffer1 == 0x4930_0000 && v.framebuffer2 == 0x4950_0000))
      display_pool_layout
  check_frames 8 (v.framebuffer0 ∷ v.framebuffer1 ∷ v.framebuffer2 ∷ [])

unfoldable pub check_live_descriptors : LiveValues → Checked
check_live_descriptors v = do
  let descriptor_end = v.descriptor_address + v.descriptor_size
  raise_if (ltb 0xffff_ffff descriptor_end) descriptor_overflow
  raise_if
      (ltb v.descriptor_address descriptor_sram.0
        || ltb descriptor_sram.1 descriptor_end
        || not (v.descriptor_address % descriptor_size == 0)
        || not (v.descriptor_size == descriptor_size * descriptor_count)
        || not (v.descriptor_count == descriptor_count))
      descriptor_bounds

-- The body of the loop over the descriptors.
unfoldable pub check_descriptor : ℕ → Descriptor → Checked
check_descriptor front d = do
  raise_if (not (d.sar == front) || not (d.sar_hi == 0)) descriptor_source
  raise_if (not (d.dar == dsi_fifo) || not (d.dar_hi == 0)) descriptor_destination
  raise_if (not (high_bits 6 d.llp == 0) || not (d.llp_hi == 0)) descriptor_link
  raise_if (not (d.block_size == 0x0003_e7ff)) descriptor_block_size
  raise_if (not (d.control_low == 0x001e_1b41)) descriptor_control_low
  raise_if (not (d.control == 0x400f_87c0)) descriptor_control_high

unfoldable pub check_descriptor_list : ℕ → List Descriptor → Checked
check_descriptor_list front [] = ok tt
check_descriptor_list front (d ∷ ds) = check_descriptor front d >> check_descriptor_list front ds

unfoldable pub check_live_channel : LiveValues → ℕ × ℕ → Checked
check_live_channel v channel_cfg = do
  raise_if (not (channel_cfg.0 == channel_config.0 && channel_cfg.1 == channel_config.1))
      dma_channel_config
  raise_if (leb 4 v.dma_channel) dma_channel
  raise_if
      (not (v.dsi_fifo_address == dsi_fifo)
        || not (v.i2c_address == 0x45)
        || not (v.display_control_register == 0x95)
        || not (v.backlight_register == 0x96)
        || ltb 255 v.backlight_brightness)
      peripheral_contract

-- The checks on the values, after the checksum.
unfoldable pub check_live_values : LiveValues → List Descriptor → ℕ × ℕ → Checked
check_live_values v descriptors channel_cfg = do
  check_live_profile v
  check_live_frames v
  check_live_descriptors v
  raise_if (not (length descriptors == descriptor_count)) descriptor_count_mismatch
  check_descriptor_list v.framebuffer0 descriptors
  check_live_channel v channel_cfg

unfoldable pub validate_handoff : Text → List Descriptor → ℕ × ℕ → Checked
validate_handoff blob descriptors channel_cfg = do
  raise_if (not (length blob == live_size)) structure_size
  v ← or_raise (live_values_of (read_fields live_widths 0 blob)) structure_size
  check_live_header v
  raise_if (not (crc32 (take (length blob - 4) blob) == v.crc32)) crc32_mismatch
  check_live_values v descriptors channel_cfg
