-- ===== src/Display/Live/Handed.antt =====
-- What `validate_handoff` (m9-2-display-contract-test.py) asks of the values, the descriptors and the channel.
use micro_nux.Base.{
  ℕ, ◌≡◌, ◌↔◌, refl, ◌∙◌, ◌==◌, not, List, All, length, ok, raise_if, arith, then_ok,
}
use micro_nux.Display.Layout.{descriptor_count, descriptor_count_mismatch, low_bits}
use micro_nux.Display.Live.{Descriptor, LiveValues, channel_config, default_values}
use micro_nux.Display.Live.Validate.{
  check_descriptor_list, check_live_channel, check_live_descriptors, check_live_frames,
  check_live_profile, check_live_values, live_profile,
}
use micro_nux.Display.Live.Accepted.{
  ChoicesFit, Describes, FrontFits, IsHandoff, aligned, channel_match, check_descriptor_list-All,
  frames_match, profile_match, table_match, values_match,
}

module _ (v : LiveValues) where
  abbrev written : LiveValues
  written = record default_values {
    magic = v.magic;
    abi_version = v.abi_version;
    struct_size = v.struct_size;
    flags = v.flags;
    framebuffer0 = v.framebuffer0;
    descriptor_address = v.descriptor_address;
    dma_channel = v.dma_channel;
    backlight_brightness = v.backlight_brightness;
    crc32 = v.crc32;
  }

  profile_pass : low_bits 8 v.flags ≡ 0xff → check_live_profile written ≡ ok tt
  unfolding check_live_profile live_profile
  profile_pass e = rw e refl

  frames_pass : FrontFits v.framebuffer0 → check_live_frames written ≡ ok tt
  unfolding check_live_frames
  frames_pass (ge, le, even) =
      let frames = (aligned v.framebuffer0 0x4930_0000 0x4950_0000 refl refl le).1 even in
      ground (arith, ge, le, frames)

  choices_pass :
      ChoicesFit v.flags v.framebuffer0 v.descriptor_address v.dma_channel v.backlight_brightness
      → (check_live_descriptors written ≡ ok tt)
        × (check_live_channel written channel_config ≡ ok tt)
  unfolding check_live_descriptors check_live_channel
  choices_pass (flags, front, table, channel, brightness) = (ground arith, ground arith)

  all_pass :
      (descriptors : List Descriptor)
      → ChoicesFit v.flags v.framebuffer0 v.descriptor_address v.dma_channel v.backlight_brightness
      → length descriptors ≡ descriptor_count
      → All (Describes v.framebuffer0) descriptors
      → check_live_values written descriptors channel_config ≡ ok tt
  unfolding check_live_values
  all_pass descriptors choices three described =
      let (table, channel) = choices_pass choices in
      let list = (check_descriptor_list-All v.framebuffer0 descriptors).1 described in
      rw (profile_pass choices.0, frames_pass choices.1, table, three, list, channel) refl

pub check_live_values-IsHandoff :
    (v : LiveValues) (descriptors : List Descriptor) (channel_cfg : ℕ × ℕ)
    → (check_live_values v descriptors channel_cfg ≡ ok tt) ↔ IsHandoff v descriptors channel_cfg
unfolding check_live_values
check_live_values-IsHandoff v descriptors channel_cfg = (asks, passes)
  where
    asks : check_live_values v descriptors channel_cfg ≡ ok tt → IsHandoff v descriptors channel_cfg
    asks h =
        let (h1, r1) = (then_ok (check_live_profile v) _).0 h in
        let (h2, r2) = (then_ok (check_live_frames v) _).0 r1 in
        let (h3, r3) = (then_ok (check_live_descriptors v) _).0 r2 in
        let (h4, r4) =
          (then_ok
              (raise_if (not (length descriptors == descriptor_count)) descriptor_count_mismatch)
              _).0
            r3 in
        let (h5, h6) = (then_ok (check_descriptor_list v.framebuffer0 descriptors) _).0 r4 in
        let profile = profile_match v h1 in
        let frames = frames_match v h2 in
        let (size, count, table) = table_match v h3 in
        let (fixed, channel, brightness, config) = channel_match v channel_cfg h6 in
        record {
          choices = (profile.0, frames.2, table, channel, brightness);
          values = values_match v profile frames (size, count) fixed;
          three = ground arith;
          described = (check_descriptor_list-All v.framebuffer0 descriptors).0 h5;
          config = config;
        }

    passes :
        IsHandoff v descriptors channel_cfg → check_live_values v descriptors channel_cfg ≡ ok tt
    passes r =
        (λ i. check_live_values (r.values i) descriptors (r.config i))
        ∙ all_pass v descriptors r.choices r.three r.described
