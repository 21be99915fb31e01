-- ===== src/Display/Live/Accepted.antt =====
-- The values that `validate_handoff` (m9-2-display-contract-test.py) lets pass.
use micro_nux.Base.{
  ℕ, ◌+◌, ◌*◌, ◌%◌, ◌≤◌, ◌<◌, ◌≡◌, ◌↔◌, refl, ◌∙◌, true, List, [], ◌∷◌, All, length, ok, arith,
  then_ok, ==_refl,
}
use micro_nux.Display.Layout.{
  check_frames, descriptor_count, descriptor_size, descriptor_sram, dsi_fifo, frame_size, high_bits,
  loader_psram, low_bits, owner_linux_pending,
}
use micro_nux.Display.Layout.Frames.{check_frames_lem}
use micro_nux.Display.Live.{
  Descriptor, LiveValues, channel_config, default_descriptor, default_values,
}
use micro_nux.Display.Live.Validate.{
  check_descriptor, check_descriptor_list, check_live_channel, check_live_descriptors,
  check_live_frames, check_live_profile, live_profile,
}

-- What the record may choose: the flags above the required ones, the front frame and the descriptors' table.
abbrev pub ChoicesFit : (flags front table channel brightness : ℕ) → Type 0
ChoicesFit flags front table channel brightness =
    (low_bits 8 flags ≡ 0xff)
    × ((loader_psram.0 ≤ front) × (front + frame_size ≤ loader_psram.1) × (front % 8 ≡ 0))
    × ((descriptor_sram.0 ≤ table)
        × (table + descriptor_size * descriptor_count ≤ descriptor_sram.1)
        × (table % descriptor_size ≡ 0))
    × (channel < 4)
    × (brightness ≤ 255)

-- A descriptor that sends the front frame to the display's FIFO.
abbrev pub Describes : ℕ → Descriptor → Type 0
Describes front d = (d.llp < 64) × (d ≡ record default_descriptor { sar = front; llp = d.llp })

abbrev pub ValuesMatch : LiveValues → Type 0
ValuesMatch v = v ≡ record default_values {
  magic = v.magic;
  abi_version = v.abi_version;
  struct_size = v.struct_size;
  flags = v.flags;
  framebuffer0 = v.framebuffer0;
  descriptor_address = v.descriptor_address;
  dma_channel = v.dma_channel;
  backlight_brightness = v.backlight_brightness;
  crc32 = v.crc32;
}

pub record IsHandoff (v : LiveValues) (descriptors : List Descriptor) (channel_cfg : ℕ × ℕ)
    : Type 0 where
  pub choices :
      ChoicesFit v.flags v.framebuffer0 v.descriptor_address v.dma_channel v.backlight_brightness
  pub values : ValuesMatch v
  pub three : length descriptors ≡ descriptor_count
  pub described : All (Describes v.framebuffer0) descriptors
  pub config : channel_cfg ≡ channel_config

abbrev pub ProfileMatches : LiveValues → Type 0
ProfileMatches v =
    (v.width ≡ 800)
    × (v.height ≡ 1280)
    × (v.stride ≡ 1600)
    × (v.pixel_clock_hz ≡ 80_000_000)
    × (v.lane_bit_rate_mbps ≡ 1500)
    × (v.data_lanes ≡ 2)
    × (v.buffer_count ≡ 3)
    × (v.ownership_state ≡ owner_linux_pending)
    × (v.hsync_pulse_width ≡ 20)
    × (v.hsync_back_porch ≡ 20)
    × (v.hsync_front_porch ≡ 40)
    × (v.vsync_pulse_width ≡ 4)
    × (v.vsync_back_porch ≡ 10)
    × (v.vsync_front_porch ≡ 30)

live_profile-ProfileMatches : (v : LiveValues) → live_profile v ≡ true → ProfileMatches v
unfolding live_profile
live_profile-ProfileMatches v h = ground arith

pub profile_match :
    (v : LiveValues)
    → check_live_profile v ≡ ok tt
    → (low_bits 8 v.flags ≡ 0xff) × ProfileMatches v × (v.framebuffer_size ≡ frame_size)
unfolding check_live_profile
profile_match v h =
    let same : live_profile v ≡ true = ground arith in
    (ground arith, live_profile-ProfileMatches v same, ground arith)

pub aligned :
    (a b c : ℕ)
    → b ≡ 0x4930_0000
    → c ≡ 0x4950_0000
    → a + frame_size ≤ loader_psram.1
    → (check_frames 8 (a ∷ b ∷ c ∷ []) ≡ ok tt) ↔ (a % 8 ≡ 0)
aligned a b c eb ec le = rw (eb, ec) (check_frames_lem 8 a le (omega arith) (omega arith))

abbrev pub FrontFits : ℕ → Type 0
FrontFits front = (loader_psram.0 ≤ front) × (front + frame_size ≤ loader_psram.1) × (front % 8 ≡ 0)

pub frames_match :
    (v : LiveValues)
    → check_live_frames v ≡ ok tt
    → (v.framebuffer1 ≡ 0x4930_0000) × (v.framebuffer2 ≡ 0x4950_0000) × FrontFits v.framebuffer0
unfolding check_live_frames
frames_match v h =
    let second : v.framebuffer1 ≡ 0x4930_0000 = ground arith in
    let third : v.framebuffer2 ≡ 0x4950_0000 = ground arith in
    let ge : loader_psram.0 ≤ v.framebuffer0 = ground arith in
    let le : v.framebuffer0 + frame_size ≤ loader_psram.1 = ground arith in
    let frames : check_frames 8 (v.framebuffer0 ∷ v.framebuffer1 ∷ v.framebuffer2 ∷ []) ≡ ok tt =
      ground arith in
    (
      second,
      third,
      (ge, le, (aligned v.framebuffer0 v.framebuffer1 v.framebuffer2 second third le).0 frames),
    )

pub table_match :
    (v : LiveValues)
    → check_live_descriptors v ≡ ok tt
    → (v.descriptor_size ≡ descriptor_size * descriptor_count)
      × (v.descriptor_count ≡ descriptor_count)
      × ((descriptor_sram.0 ≤ v.descriptor_address)
          × (v.descriptor_address + descriptor_size * descriptor_count ≤ descriptor_sram.1)
          × (v.descriptor_address % descriptor_size ≡ 0))
unfolding check_live_descriptors
table_match v h = ground arith

check_descriptor-Describes :
    (front : ℕ) (d : Descriptor) → (check_descriptor front d ≡ ok tt) ↔ Describes front d
unfolding check_descriptor
check_descriptor-Describes front d = (asks, passes)
  where
    asks : check_descriptor front d ≡ ok tt → Describes front d
    asks h =
        let sar : (d.sar ≡ front) × (d.sar_hi ≡ 0) = ground arith in
        let dar : (d.dar ≡ dsi_fifo) × (d.dar_hi ≡ 0) = ground arith in
        let llp : (d.llp < 64) × (d.llp_hi ≡ 0) = ground arith in
        let block : d.block_size ≡ 0x0003_e7ff = ground arith in
        let low : d.control_low ≡ 0x001e_1b41 = ground arith in
        let high : d.control ≡ 0x400f_87c0 = ground arith in
        (
          llp.0,
          λ i. record {
            sar = sar.0 i;
            sar_hi = sar.1 i;
            dar = dar.0 i;
            dar_hi = dar.1 i;
            llp = d.llp;
            llp_hi = llp.1 i;
            block_size = block i;
            control_low = low i;
            control = high i;
          },
        )

    passes : Describes front d → check_descriptor front d ≡ ok tt
    passes (lt, e) =
        let no_bits : high_bits 6 d.llp ≡ 0 = omega arith in
        (λ i. check_descriptor front (e i)) ∙ (rw (==_refl front, no_bits) refl)

pub check_descriptor_list-All :
    (front : ℕ) (ds : List Descriptor)
    → (check_descriptor_list front ds ≡ ok tt) ↔ All (Describes front) ds
unfolding check_descriptor_list
check_descriptor_list-All front [] = (λ h. tt, λ h. refl)
check_descriptor_list-All front (d ∷ ds) =
    let (one, back) = check_descriptor-Describes front d in
    let (rest, rest_back) = check_descriptor_list-All front ds in
    (
      λ h. let (a, b) = (then_ok (check_descriptor front d) _).0 h in (one a, rest b),
      λ h. (then_ok _ _).1 (back h.0, rest_back h.1),
    )

pub channel_match :
    (v : LiveValues) (channel_cfg : ℕ × ℕ)
    → check_live_channel v channel_cfg ≡ ok tt
    → ((v.dsi_fifo_address ≡ dsi_fifo)
        × (v.i2c_address ≡ 0x45)
        × (v.display_control_register ≡ 0x95)
        × (v.backlight_register ≡ 0x96))
      × (v.dma_channel < 4)
      × (v.backlight_brightness ≤ 255)
      × (channel_cfg ≡ channel_config)
unfolding check_live_channel
channel_match v channel_cfg h =
    let low : channel_cfg.0 ≡ channel_config.0 = ground arith in
    let high : channel_cfg.1 ≡ channel_config.1 = ground arith in
    (ground arith, ground arith, ground arith, λ i. (low i, high i))

pub values_match :
    (v : LiveValues)
    → (low_bits 8 v.flags ≡ 0xff) × ProfileMatches v × (v.framebuffer_size ≡ frame_size)
    → (v.framebuffer1 ≡ 0x4930_0000) × (v.framebuffer2 ≡ 0x4950_0000) × FrontFits v.framebuffer0
    → (v.descriptor_size ≡ descriptor_size * descriptor_count)
      × (v.descriptor_count ≡ descriptor_count)
    → (v.dsi_fifo_address ≡ dsi_fifo)
      × (v.i2c_address ≡ 0x45)
      × (v.display_control_register ≡ 0x95)
      × (v.backlight_register ≡ 0x96)
    → ValuesMatch v
values_match v profile frames table channel = λ i. record {
  magic = v.magic;
  abi_version = v.abi_version;
  struct_size = v.struct_size;
  flags = v.flags;
  width = profile.1.0 i;
  height = profile.1.1 i;
  stride = profile.1.2 i;
  pixel_clock_hz = profile.1.3 i;
  lane_bit_rate_mbps = profile.1.4 i;
  data_lanes = profile.1.5 i;
  buffer_count = profile.1.6 i;
  ownership_state = profile.1.7 i;
  hsync_pulse_width = profile.1.8 i;
  hsync_back_porch = profile.1.9 i;
  hsync_front_porch = profile.1.10 i;
  vsync_pulse_width = profile.1.11 i;
  vsync_back_porch = profile.1.12 i;
  vsync_front_porch = profile.1.13 i;
  framebuffer0 = v.framebuffer0;
  framebuffer1 = frames.0 i;
  framebuffer2 = frames.1 i;
  framebuffer_size = profile.2 i;
  descriptor_address = v.descriptor_address;
  descriptor_size = table.0 i;
  descriptor_count = table.1 i;
  dma_channel = v.dma_channel;
  dsi_fifo_address = channel.0 i;
  i2c_address = channel.1 i;
  display_control_register = channel.2 i;
  backlight_register = channel.3 i;
  backlight_brightness = v.backlight_brightness;
  crc32 = v.crc32;
}
