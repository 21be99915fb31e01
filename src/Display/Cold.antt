-- ===== src/Display/Cold.antt =====
-- The ABI v3 record of m9-2-display-contract-test.py, by which the loader relinquishes a cold display, and
-- the hardware state that Linux reads back.
pub mod Validate
pub mod Accepted
pub mod Relinquished
pub mod Written
pub mod Exact
pub mod Safety
pub mod RoundTrip
use micro_nux.Base.{
  ℕ, ◌+◌, ◌*◌, ◌-◌, zero, suc, Bool, true, false, Option, none, some, List, [], ◌∷◌, Text, take,
  drop, length,
}
use micro_nux.Base.Bytes.{pack_fields, read_fields}
use micro_nux.Base.Crc32.{crc32}
use micro_nux.Display.Layout.{
  frame_size, cold_page_size, display_pool, dsi_fifo, magic_word, descriptor_size, descriptor_count,
  owner_linux_pending,
}

abbrev pub cold_abi_version : ℕ
cold_abi_version = 3

abbrev pub cold_size : ℕ
cold_size = 0xc0

abbrev pub cold_required_flags : ℕ
cold_required_flags = 0x3fff

abbrev pub cold_boot_mode : ℕ
cold_boot_mode = 1

abbrev pub cold_clic_irq : ℕ
cold_clic_irq = 18

abbrev pub cold_pms_read_mask : ℕ
cold_pms_read_mask = 2 + 4 + 8

abbrev pub cold_pms_write_mask : ℕ
cold_pms_write_mask = 8 + 16

-- The fields of `COLD_RELINQUISH_FIELDS`, by name.
pub record ColdValues : Type 0 where
  pub magic : ℕ
  pub abi_version : ℕ
  pub struct_size : ℕ
  pub flags : ℕ
  pub boot_mode : ℕ
  pub ownership_state : ℕ
  pub silicon_revision : ℕ
  pub panel_profile_id : ℕ
  pub width : ℕ
  pub height : ℕ
  pub stride : ℕ
  pub pixel_format : ℕ
  pub pixel_clock_hz : ℕ
  pub lane_bit_rate_mbps : ℕ
  pub data_lanes : ℕ
  pub buffer_count : ℕ
  pub hsync_pulse_width : ℕ
  pub hsync_back_porch : ℕ
  pub hsync_front_porch : ℕ
  pub vsync_pulse_width : ℕ
  pub vsync_back_porch : ℕ
  pub vsync_front_porch : ℕ
  pub framebuffer0 : ℕ
  pub framebuffer1 : ℕ
  pub framebuffer2 : ℕ
  pub framebuffer_size : ℕ
  pub descriptor_address : ℕ
  pub descriptor_size : ℕ
  pub descriptor_count : ℕ
  pub dma_channel : ℕ
  pub dsi_fifo_address : ℕ
  pub gdma_irq_source : ℕ
  pub gdma_clic_irq : ℕ
  pub i2c_port : ℕ
  pub i2c_sda_gpio : ℕ
  pub i2c_scl_gpio : ℕ
  pub i2c_rate_hz : ℕ
  pub i2c_address : ℕ
  pub display_control_register : ℕ
  pub backlight_register : ℕ
  pub display_control_reset_assert_command : ℕ
  pub display_control_reset_prepare_command : ℕ
  pub display_control_reveal_command : ℕ
  pub backlight_brightness : ℕ
  pub reset_hold_ms : ℕ
  pub pwm_zero_settle_ms : ℕ
  pub panel_payload_crc32 : ℕ
  pub quiesce_sequence_id : ℕ
  pub crc32 : ℕ

abbrev pub cold_default_values : ColdValues
cold_default_values = record {
  magic = magic_word;
  abi_version = cold_abi_version;
  struct_size = cold_size;
  flags = cold_required_flags;
  boot_mode = cold_boot_mode;
  ownership_state = owner_linux_pending;
  silicon_revision = 103;
  panel_profile_id = 1;
  width = 800;
  height = 1280;
  stride = 1600;
  pixel_format = 1;
  pixel_clock_hz = 60_000_000;
  lane_bit_rate_mbps = 1000;
  data_lanes = 2;
  buffer_count = 3;
  hsync_pulse_width = 20;
  hsync_back_porch = 20;
  hsync_front_porch = 40;
  vsync_pulse_width = 4;
  vsync_back_porch = 10;
  vsync_front_porch = 30;
  framebuffer0 = 0x4804_1000;
  framebuffer1 = 0x4930_0000;
  framebuffer2 = 0x4950_0000;
  framebuffer_size = frame_size;
  descriptor_address = 0x4ff3_c000;
  descriptor_size = descriptor_size * descriptor_count;
  descriptor_count = descriptor_count;
  dma_channel = 0;
  dsi_fifo_address = dsi_fifo;
  gdma_irq_source = 24;
  gdma_clic_irq = 18;
  i2c_port = 0;
  i2c_sda_gpio = 7;
  i2c_scl_gpio = 8;
  i2c_rate_hz = 100_000;
  i2c_address = 69;
  display_control_register = 149;
  backlight_register = 150;
  display_control_reset_assert_command = 0x11;
  display_control_reset_prepare_command = 0x13;
  display_control_reveal_command = 0x17;
  backlight_brightness = 63;
  reset_hold_ms = 10;
  pwm_zero_settle_ms = 100;
  panel_payload_crc32 = 0xcea0_7f9b;
  quiesce_sequence_id = 1;
  crc32 = 0;
}

-- The widths of the format string.
abbrev pub cold_widths : List ℕ
cold_widths =
    4 ∷ 2 ∷ 2 ∷ 4 ∷ 4 ∷ 4 ∷ 4 ∷ 4 ∷ 4 ∷ 4 ∷ 4 ∷ 4 ∷ 4 ∷ 4 ∷ 4 ∷ 4 ∷ 4 ∷ 4 ∷ 4 ∷ 4 ∷ 4 ∷ 4 ∷ 4 ∷ 4
    ∷ 4 ∷ 4 ∷ 4 ∷ 4 ∷ 4 ∷ 4 ∷ 4 ∷ 4 ∷ 4 ∷ 4 ∷ 4 ∷ 4 ∷ 4 ∷ 4 ∷ 4 ∷ 4 ∷ 4 ∷ 4 ∷ 4 ∷ 4 ∷ 4 ∷ 4 ∷ 4 ∷ 4
    ∷ 4 ∷ []

-- The values in the order of the format.
abbrev pub cold_fields : ColdValues → List (ℕ × ℕ)
cold_fields v =
    (4, v.magic)
    ∷ (2, v.abi_version)
    ∷ (2, v.struct_size)
    ∷ (4, v.flags)
    ∷ (4, v.boot_mode)
    ∷ (4, v.ownership_state)
    ∷ (4, v.silicon_revision)
    ∷ (4, v.panel_profile_id)
    ∷ (4, v.width)
    ∷ (4, v.height)
    ∷ (4, v.stride)
    ∷ (4, v.pixel_format)
    ∷ (4, v.pixel_clock_hz)
    ∷ (4, v.lane_bit_rate_mbps)
    ∷ (4, v.data_lanes)
    ∷ (4, v.buffer_count)
    ∷ (4, v.hsync_pulse_width)
    ∷ (4, v.hsync_back_porch)
    ∷ (4, v.hsync_front_porch)
    ∷ (4, v.vsync_pulse_width)
    ∷ (4, v.vsync_back_porch)
    ∷ (4, v.vsync_front_porch)
    ∷ (4, v.framebuffer0)
    ∷ (4, v.framebuffer1)
    ∷ (4, v.framebuffer2)
    ∷ (4, v.framebuffer_size)
    ∷ (4, v.descriptor_address)
    ∷ (4, v.descriptor_size)
    ∷ (4, v.descriptor_count)
    ∷ (4, v.dma_channel)
    ∷ (4, v.dsi_fifo_address)
    ∷ (4, v.gdma_irq_source)
    ∷ (4, v.gdma_clic_irq)
    ∷ (4, v.i2c_port)
    ∷ (4, v.i2c_sda_gpio)
    ∷ (4, v.i2c_scl_gpio)
    ∷ (4, v.i2c_rate_hz)
    ∷ (4, v.i2c_address)
    ∷ (4, v.display_control_register)
    ∷ (4, v.backlight_register)
    ∷ (4, v.display_control_reset_assert_command)
    ∷ (4, v.display_control_reset_prepare_command)
    ∷ (4, v.display_control_reveal_command)
    ∷ (4, v.backlight_brightness)
    ∷ (4, v.reset_hold_ms)
    ∷ (4, v.pwm_zero_settle_ms)
    ∷ (4, v.panel_payload_crc32)
    ∷ (4, v.quiesce_sequence_id)
    ∷ (4, v.crc32)
    ∷ []

-- `make_cold_relinquish`: `provisional[:-4]` is all but the last four of the packed bytes.
unfoldable pub make_cold_relinquish : ColdValues → Option Text
make_cold_relinquish overridden =
    let values = record overridden { crc32 = 0 } in
    elim (pack_fields (cold_fields values)) [
      | none ↦ none
      | some provisional ↦ pack_fields (
          cold_fields (record values { crc32 = crc32 (take (length provisional - 4) provisional) }))
    ]

-- `dict(zip(FIELDS, FORMAT.unpack(blob), strict=True))`, which raises on another number of values.
unfoldable pub cold_values_of : List (ℕ × ℕ) → Option ColdValues
cold_values_of
      ((_, magic)
        ∷ (_, abi_version)
        ∷ (_, struct_size)
        ∷ (_, flags)
        ∷ (_, boot_mode)
        ∷ (_, ownership_state)
        ∷ (_, silicon_revision)
        ∷ (_, panel_profile_id)
        ∷ (_, width)
        ∷ (_, height)
        ∷ (_, stride)
        ∷ (_, pixel_format)
        ∷ (_, pixel_clock_hz)
        ∷ (_, lane_bit_rate_mbps)
        ∷ (_, data_lanes)
        ∷ (_, buffer_count)
        ∷ (_, hsync_pulse_width)
        ∷ (_, hsync_back_porch)
        ∷ (_, hsync_front_porch)
        ∷ (_, vsync_pulse_width)
        ∷ (_, vsync_back_porch)
        ∷ (_, vsync_front_porch)
        ∷ (_, framebuffer0)
        ∷ (_, framebuffer1)
        ∷ (_, framebuffer2)
        ∷ (_, framebuffer_size)
        ∷ (_, descriptor_address)
        ∷ (_, descriptor_size)
        ∷ (_, descriptor_count)
        ∷ (_, dma_channel)
        ∷ (_, dsi_fifo_address)
        ∷ (_, gdma_irq_source)
        ∷ (_, gdma_clic_irq)
        ∷ (_, i2c_port)
        ∷ (_, i2c_sda_gpio)
        ∷ (_, i2c_scl_gpio)
        ∷ (_, i2c_rate_hz)
        ∷ (_, i2c_address)
        ∷ (_, display_control_register)
        ∷ (_, backlight_register)
        ∷ (_, display_control_reset_assert_command)
        ∷ (_, display_control_reset_prepare_command)
        ∷ (_, display_control_reveal_command)
        ∷ (_, backlight_brightness)
        ∷ (_, reset_hold_ms)
        ∷ (_, pwm_zero_settle_ms)
        ∷ (_, panel_payload_crc32)
        ∷ (_, quiesce_sequence_id)
        ∷ (_, crc32)
        ∷ []) =
    some (record {
      magic = magic;
      abi_version = abi_version;
      struct_size = struct_size;
      flags = flags;
      boot_mode = boot_mode;
      ownership_state = ownership_state;
      silicon_revision = silicon_revision;
      panel_profile_id = panel_profile_id;
      width = width;
      height = height;
      stride = stride;
      pixel_format = pixel_format;
      pixel_clock_hz = pixel_clock_hz;
      lane_bit_rate_mbps = lane_bit_rate_mbps;
      data_lanes = data_lanes;
      buffer_count = buffer_count;
      hsync_pulse_width = hsync_pulse_width;
      hsync_back_porch = hsync_back_porch;
      hsync_front_porch = hsync_front_porch;
      vsync_pulse_width = vsync_pulse_width;
      vsync_back_porch = vsync_back_porch;
      vsync_front_porch = vsync_front_porch;
      framebuffer0 = framebuffer0;
      framebuffer1 = framebuffer1;
      framebuffer2 = framebuffer2;
      framebuffer_size = framebuffer_size;
      descriptor_address = descriptor_address;
      descriptor_size = descriptor_size;
      descriptor_count = descriptor_count;
      dma_channel = dma_channel;
      dsi_fifo_address = dsi_fifo_address;
      gdma_irq_source = gdma_irq_source;
      gdma_clic_irq = gdma_clic_irq;
      i2c_port = i2c_port;
      i2c_sda_gpio = i2c_sda_gpio;
      i2c_scl_gpio = i2c_scl_gpio;
      i2c_rate_hz = i2c_rate_hz;
      i2c_address = i2c_address;
      display_control_register = display_control_register;
      backlight_register = backlight_register;
      display_control_reset_assert_command = display_control_reset_assert_command;
      display_control_reset_prepare_command = display_control_reset_prepare_command;
      display_control_reveal_command = display_control_reveal_command;
      backlight_brightness = backlight_brightness;
      reset_hold_ms = reset_hold_ms;
      pwm_zero_settle_ms = pwm_zero_settle_ms;
      panel_payload_crc32 = panel_payload_crc32;
      quiesce_sequence_id = quiesce_sequence_id;
      crc32 = crc32;
    })
cold_values_of _ = none

-- The facts that Linux reads from the hardware.
pub record ColdHardwareState : Type 0 where
  pub silicon_revision : ℕ
  pub gdma_linux_irq_data_available : Bool
  pub gdma_linux_virq : ℕ
  pub gdma_linux_hwirq : ℕ
  pub gdma_reset_asserted : Bool
  pub dsi_module_reset_asserted : Bool
  pub gdma_cpu_clock_enabled : Bool
  pub gdma_sys_clock_enabled : Bool
  pub dsi_sys_clock_enabled : Bool
  pub dphy_config_clock_enabled : Bool
  pub dphy_pll_ref_clock_enabled : Bool
  pub dpi_clock_enabled : Bool
  pub i2c_apb_clock_enabled : Bool
  pub dphy_ldo_enabled : Bool
  pub gdma_irq_route : ℕ
  pub dma_pms_regions : List (ℕ × ℕ)
  pub dma_pms_read_mask : ℕ
  pub dma_pms_write_mask : ℕ
  pub descriptor_backing : Text

unfoldable pub zeros : ℕ → Text
zeros zero = []
zeros (suc n) = 0 ∷ zeros n

abbrev pub cold_hardware : ColdHardwareState
cold_hardware = record {
  silicon_revision = 103;
  gdma_linux_irq_data_available = true;
  gdma_linux_virq = 3;
  gdma_linux_hwirq = cold_clic_irq;
  gdma_reset_asserted = true;
  dsi_module_reset_asserted = true;
  gdma_cpu_clock_enabled = false;
  gdma_sys_clock_enabled = false;
  dsi_sys_clock_enabled = false;
  dphy_config_clock_enabled = false;
  dphy_pll_ref_clock_enabled = false;
  dpi_clock_enabled = false;
  i2c_apb_clock_enabled = false;
  dphy_ldo_enabled = false;
  gdma_irq_route = cold_clic_irq;
  dma_pms_regions =
      (0x4804_1000, 0x4804_1000 + frame_size)
      ∷ display_pool
      ∷ (0x4ff3_c000, 0x4ff3_c000 + cold_page_size)
      ∷ (dsi_fifo, dsi_fifo + cold_page_size)
      ∷ [];
  dma_pms_read_mask = cold_pms_read_mask;
  dma_pms_write_mask = cold_pms_write_mask;
  descriptor_backing = zeros cold_page_size;
}
