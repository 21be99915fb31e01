-- ===== src/Display/Live.antt =====
-- The ABI v2 record of m9-2-display-contract-test.py, by which the loader hands over a live display, and the
-- descriptors of the DMA.
pub mod Validate
pub mod Accepted
pub mod Handed
pub mod Written
pub mod Exact
use micro_nux.Base.{ℕ, ◌+◌, ◌*◌, ◌-◌, Option, none, some, List, [], ◌∷◌, Text, take, length}
use micro_nux.Base.Bytes.{pack_fields}
use micro_nux.Base.Crc32.{crc32}
use micro_nux.Display.Layout.{
  frame_size, dsi_fifo, magic_word, descriptor_size, descriptor_count, owner_linux_pending,
}

abbrev pub live_abi_version : ℕ
live_abi_version = 2

abbrev pub live_size : ℕ
live_size = 124

abbrev pub live_required_flags : ℕ
live_required_flags = 0xff

-- The front frame of the loader, on an eight-byte boundary.
abbrev pub legacy_front : ℕ
legacy_front = 0x4804_0a80

-- The fields of `HANDOFF_FIELDS`, by name.
pub record LiveValues : Type 0 where
  pub magic : ℕ
  pub abi_version : ℕ
  pub struct_size : ℕ
  pub flags : ℕ
  pub width : ℕ
  pub height : ℕ
  pub stride : ℕ
  pub pixel_clock_hz : ℕ
  pub lane_bit_rate_mbps : ℕ
  pub data_lanes : ℕ
  pub buffer_count : ℕ
  pub ownership_state : ℕ
  pub hsync_pulse_width : ℕ
  pub hsync_back_porch : ℕ
  pub hsync_front_porch : ℕ
  pub vsync_pulse_width : ℕ
  pub vsync_back_porch : ℕ
  pub vsync_front_porch : ℕ
  pub framebuffer0 : ℕ
  pub framebuffer1 : ℕ
  pub framebuffer2 : ℕ
  pub framebuffer_size : ℕ
  pub descriptor_address : ℕ
  pub descriptor_size : ℕ
  pub descriptor_count : ℕ
  pub dma_channel : ℕ
  pub dsi_fifo_address : ℕ
  pub i2c_address : ℕ
  pub display_control_register : ℕ
  pub backlight_register : ℕ
  pub backlight_brightness : ℕ
  pub crc32 : ℕ

abbrev pub default_values : LiveValues
default_values = record {
  magic = magic_word;
  abi_version = live_abi_version;
  struct_size = live_size;
  flags = live_required_flags;
  width = 800;
  height = 1280;
  stride = 1600;
  pixel_clock_hz = 80_000_000;
  lane_bit_rate_mbps = 1500;
  data_lanes = 2;
  buffer_count = 3;
  ownership_state = owner_linux_pending;
  hsync_pulse_width = 20;
  hsync_back_porch = 20;
  hsync_front_porch = 40;
  vsync_pulse_width = 4;
  vsync_back_porch = 10;
  vsync_front_porch = 30;
  framebuffer0 = legacy_front;
  framebuffer1 = 0x4930_0000;
  framebuffer2 = 0x4950_0000;
  framebuffer_size = frame_size;
  descriptor_address = 0x4ff3_ba80;
  descriptor_size = descriptor_size * descriptor_count;
  descriptor_count = descriptor_count;
  dma_channel = 0;
  dsi_fifo_address = dsi_fifo;
  i2c_address = 69;
  display_control_register = 149;
  backlight_register = 150;
  backlight_brightness = 63;
  crc32 = 0;
}

-- The widths of the format string.
abbrev pub live_widths : List ℕ
live_widths =
    4 ∷ 2 ∷ 2 ∷ 4 ∷ 4 ∷ 4 ∷ 4 ∷ 4 ∷ 4 ∷ 4 ∷ 4 ∷ 4 ∷ 4 ∷ 4 ∷ 4 ∷ 4 ∷ 4 ∷ 4 ∷ 4 ∷ 4 ∷ 4 ∷ 4 ∷ 4 ∷ 4
    ∷ 4 ∷ 4 ∷ 4 ∷ 4 ∷ 4 ∷ 4 ∷ 4 ∷ 4 ∷ []

-- The values in the order of the format.
abbrev pub live_fields : LiveValues → List (ℕ × ℕ)
live_fields v =
    (4, v.magic)
    ∷ (2, v.abi_version)
    ∷ (2, v.struct_size)
    ∷ (4, v.flags)
    ∷ (4, v.width)
    ∷ (4, v.height)
    ∷ (4, v.stride)
    ∷ (4, v.pixel_clock_hz)
    ∷ (4, v.lane_bit_rate_mbps)
    ∷ (4, v.data_lanes)
    ∷ (4, v.buffer_count)
    ∷ (4, v.ownership_state)
    ∷ (4, v.hsync_pulse_width)
    ∷ (4, v.hsync_back_porch)
    ∷ (4, v.hsync_front_porch)
    ∷ (4, v.vsync_pulse_width)
    ∷ (4, v.vsync_back_porch)
    ∷ (4, v.vsync_front_porch)
    ∷ (4, v.framebuffer0)
    ∷ (4, v.framebuffer1)
    ∷ (4, v.framebuffer2)
    ∷ (4, v.framebuffer_size)
    ∷ (4, v.descriptor_address)
    ∷ (4, v.descriptor_size)
    ∷ (4, v.descriptor_count)
    ∷ (4, v.dma_channel)
    ∷ (4, v.dsi_fifo_address)
    ∷ (4, v.i2c_address)
    ∷ (4, v.display_control_register)
    ∷ (4, v.backlight_register)
    ∷ (4, v.backlight_brightness)
    ∷ (4, v.crc32)
    ∷ []

-- `make_handoff`: `provisional[:-4]` is all but the last four of the packed bytes.
unfoldable pub make_handoff : LiveValues → Option Text
make_handoff overridden =
    let values = record overridden { crc32 = 0 } in
    elim (pack_fields (live_fields values)) [
      | none ↦ none
      | some provisional ↦ pack_fields (
          live_fields (record values { crc32 = crc32 (take (length provisional - 4) provisional) }))
    ]

-- `dict(zip(FIELDS, FORMAT.unpack(blob), strict=True))`, which raises on another number of values.
unfoldable pub live_values_of : List (ℕ × ℕ) → Option LiveValues
live_values_of
      ((_, magic)
        ∷ (_, abi_version)
        ∷ (_, struct_size)
        ∷ (_, flags)
        ∷ (_, width)
        ∷ (_, height)
        ∷ (_, stride)
        ∷ (_, pixel_clock_hz)
        ∷ (_, lane_bit_rate_mbps)
        ∷ (_, data_lanes)
        ∷ (_, buffer_count)
        ∷ (_, ownership_state)
        ∷ (_, hsync_pulse_width)
        ∷ (_, hsync_back_porch)
        ∷ (_, hsync_front_porch)
        ∷ (_, vsync_pulse_width)
        ∷ (_, vsync_back_porch)
        ∷ (_, vsync_front_porch)
        ∷ (_, framebuffer0)
        ∷ (_, framebuffer1)
        ∷ (_, framebuffer2)
        ∷ (_, framebuffer_size)
        ∷ (_, descriptor_address)
        ∷ (_, descriptor_size)
        ∷ (_, descriptor_count)
        ∷ (_, dma_channel)
        ∷ (_, dsi_fifo_address)
        ∷ (_, i2c_address)
        ∷ (_, display_control_register)
        ∷ (_, backlight_register)
        ∷ (_, backlight_brightness)
        ∷ (_, crc32)
        ∷ []) =
    some (record {
      magic = magic;
      abi_version = abi_version;
      struct_size = struct_size;
      flags = flags;
      width = width;
      height = height;
      stride = stride;
      pixel_clock_hz = pixel_clock_hz;
      lane_bit_rate_mbps = lane_bit_rate_mbps;
      data_lanes = data_lanes;
      buffer_count = buffer_count;
      ownership_state = ownership_state;
      hsync_pulse_width = hsync_pulse_width;
      hsync_back_porch = hsync_back_porch;
      hsync_front_porch = hsync_front_porch;
      vsync_pulse_width = vsync_pulse_width;
      vsync_back_porch = vsync_back_porch;
      vsync_front_porch = vsync_front_porch;
      framebuffer0 = framebuffer0;
      framebuffer1 = framebuffer1;
      framebuffer2 = framebuffer2;
      framebuffer_size = framebuffer_size;
      descriptor_address = descriptor_address;
      descriptor_size = descriptor_size;
      descriptor_count = descriptor_count;
      dma_channel = dma_channel;
      dsi_fifo_address = dsi_fifo_address;
      i2c_address = i2c_address;
      display_control_register = display_control_register;
      backlight_register = backlight_register;
      backlight_brightness = backlight_brightness;
      crc32 = crc32;
    })
live_values_of _ = none

-- A descriptor of the DMA's block transfer list.
pub record Descriptor : Type 0 where
  pub sar : ℕ
  pub sar_hi : ℕ
  pub dar : ℕ
  pub dar_hi : ℕ
  pub llp : ℕ
  pub llp_hi : ℕ
  pub block_size : ℕ
  pub control_low : ℕ
  pub control : ℕ

abbrev pub default_descriptor : Descriptor
default_descriptor = record {
  sar = legacy_front;
  sar_hi = 0;
  dar = dsi_fifo;
  dar_hi = 0;
  llp = 1;
  llp_hi = 0;
  block_size = 0x3_e7ff;
  control_low = 0x1e_1b41;
  control = 0x400f_87c0;
}

-- `CHANNEL_CFG`
abbrev pub channel_config : ℕ × ℕ
channel_config = (3 + 3 * 4, 0xa02_0001)
