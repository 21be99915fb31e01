-- ===== src/Display/Live/Written.antt =====
-- The blobs that `make_handoff` (m9-2-display-contract-test.py) writes pass `validate_handoff`.
use micro_nux.Base.{
  ℕ, ◌-◌, ◌^◌, ◌<◌, ◌≡◌, refl, sym, ap, subst, ◌∙◌, ==_refl, some, List, [], ◌∷◌, ◌++◌, Text, All,
  length, take, ok, arith,
}
use micro_nux.Base.Bytes.{FieldsFit, field_bytes, le_bytes, pack_fields, read_fields}
use micro_nux.Base.Crc32.{crc32, crc32-lt}
use micro_nux.Base.Fields.{
  field_bytes-sealed, pack_fields-sealed, read_fields-field_bytes, sealed, sealed-FieldsFit,
  sealed_bytes, without_seal,
}
use micro_nux.Display.Layout.{descriptor_count, magic_word}
use micro_nux.Display.Live.{
  Descriptor, LiveValues, channel_config, default_values, live_abi_version, live_fields, live_size,
  live_values_of, live_widths, make_handoff,
}
use micro_nux.Display.Live.Validate.{check_live_header, check_live_values, validate_handoff}
use micro_nux.Display.Live.Accepted.{ChoicesFit, Describes}
use micro_nux.Display.Live.Handed.{check_live_values-IsHandoff}

-- All fields but the checksum.
abbrev pub live_front : LiveValues → List (ℕ × ℕ)
live_front v =
    (4, v.magic)
    ∷ (2, v.abi_version)
    ∷ (2, v.struct_size)
    ∷ (4, v.flags)
    ∷ (4, v.width)
    ∷ (4, v.height)
    ∷ (4, v.stride)
    ∷ (4, v.pixel_clock_hz)
    ∷ (4, v.lane_bit_rate_mbps)
    ∷ (4, v.data_lanes)
    ∷ (4, v.buffer_count)
    ∷ (4, v.ownership_state)
    ∷ (4, v.hsync_pulse_width)
    ∷ (4, v.hsync_back_porch)
    ∷ (4, v.hsync_front_porch)
    ∷ (4, v.vsync_pulse_width)
    ∷ (4, v.vsync_back_porch)
    ∷ (4, v.vsync_front_porch)
    ∷ (4, v.framebuffer0)
    ∷ (4, v.framebuffer1)
    ∷ (4, v.framebuffer2)
    ∷ (4, v.framebuffer_size)
    ∷ (4, v.descriptor_address)
    ∷ (4, v.descriptor_size)
    ∷ (4, v.descriptor_count)
    ∷ (4, v.dma_channel)
    ∷ (4, v.dsi_fifo_address)
    ∷ (4, v.i2c_address)
    ∷ (4, v.display_control_register)
    ∷ (4, v.backlight_register)
    ∷ (4, v.backlight_brightness)
    ∷ []

-- What a handoff chooses.
pub record Choices : Type 0 where
  pub flags : ℕ
  pub front : ℕ
  pub table : ℕ
  pub channel : ℕ
  pub brightness : ℕ

abbrev pub Fits : Choices → Type 0
Fits c = (c.flags < 2 ^ 32) × ChoicesFit c.flags c.front c.table c.channel c.brightness

-- The loader's values with these choices.
abbrev pub chosen : Choices → LiveValues
chosen c = record default_values {
  flags = c.flags;
  framebuffer0 = c.front;
  descriptor_address = c.table;
  dma_channel = c.channel;
  backlight_brightness = c.brightness;
}

pub make_handoff_lem :
    (v : LiveValues)
    → FieldsFit (live_front v)
    → make_handoff v ≡ some (sealed_bytes (live_front v))
unfolding make_handoff
make_handoff_lem v fit =
    let before = field_bytes (live_front v) in
    let first : pack_fields (live_fields (record v { crc32 = 0 })) ≡ some (before ++ le_bytes 4 0) =
      pack_fields-sealed (live_front v) 0 fit (omega arith) in
    let crc = crc32 before in
    let second : pack_fields (live_fields (record v { crc32 = crc }))
        ≡ some (sealed_bytes (live_front v)) =
      pack_fields-sealed (live_front v) crc fit (crc32-lt before) in
    rw (first, without_seal before 0, make_handoff) second

pub chosen-FieldsFit : (c : Choices) → Fits c → FieldsFit (live_front (chosen c))
chosen-FieldsFit c (flags, (bits, front, table, channel, brightness)) =
    let lt : c.front < 2 ^ 32 = omega (arith, front.1) in
    let table_lt : c.table < 2 ^ 32 = omega (arith, table.1) in
    let channel_lt : c.channel < 2 ^ 32 = omega (arith, channel) in
    let brightness_lt : c.brightness < 2 ^ 32 = omega (arith, brightness) in
    ground (arith, flags, lt, table_lt, channel_lt, brightness_lt)

decoded :
    (blob : Text) (v : LiveValues)
    → read_fields live_widths 0 blob ≡ live_fields v
    → live_values_of (read_fields live_widths 0 blob) ≡ some v
unfolding live_values_of
decoded blob v e = ap live_values_of e

pub header_passes :
    (v : LiveValues)
    → v.magic ≡ magic_word
    → v.abi_version ≡ live_abi_version
    → v.struct_size ≡ live_size
    → check_live_header v ≡ ok tt
unfolding check_live_header
header_passes v magic abi size = ground arith

accepts :
    (blob : Text) (v : LiveValues) (descriptors : List Descriptor) (channel_cfg : ℕ × ℕ)
    → length blob ≡ live_size
    → live_values_of (read_fields live_widths 0 blob) ≡ some v
    → check_live_header v ≡ ok tt
    → crc32 (take (length blob - 4) blob) ≡ v.crc32
    → check_live_values v descriptors channel_cfg ≡ ok tt
    → validate_handoff blob descriptors channel_cfg ≡ ok tt
unfolding validate_handoff
accepts blob v descriptors channel_cfg full values header crc checked =
    rw (values, header, crc, ==_refl v.crc32, checked, full, validate_handoff) refl

sealed_blob : (v : LiveValues) → Text
sealed_blob v = field_bytes (live_front v) ++ le_bytes 4 v.crc32

module _ (v : LiveValues) (fit : FieldsFit (live_front v)) (lt : v.crc32 < 2 ^ 32) where
  sealed_decoded : read_fields live_widths 0 (sealed_blob v) ≡ live_fields v
  unfolding sealed_blob
  sealed_decoded =
      ap (read_fields live_widths 0) (sym (field_bytes-sealed (live_front v) v.crc32))
      ∙ read_fields-field_bytes (sealed (live_front v) v.crc32)
          (sealed-FieldsFit (live_front v) v.crc32 fit lt)

  length-sealed_blob : length (sealed_blob v) ≡ live_size
  unfolding sealed_blob
  length-sealed_blob = refl

pub make_handoff-passes :
    (c : Choices) (descriptors : List Descriptor) (blob : Text)
    → Fits c
    → length descriptors ≡ descriptor_count
    → All (Describes c.front) descriptors
    → make_handoff (chosen c) ≡ some blob
    → validate_handoff blob descriptors channel_config ≡ ok tt
unfolding sealed_blob
make_handoff-passes c descriptors blob fits three described e =
    let before = field_bytes (live_front (chosen c)) in
    let fit = chosen-FieldsFit c fits in
    let v = record (chosen c) { crc32 = crc32 before } in
    let written : sealed_blob v ≡ blob =
      some_injective (sym (make_handoff_lem (chosen c) fit) ∙ e) in
    let read = sealed_decoded v fit (crc32-lt before) in
    let header = header_passes v refl refl refl in
    let checked = (check_live_values-IsHandoff v descriptors channel_config).1 (record {
      choices = fits.1;
      values = refl;
      three = three;
      described = described;
      config = refl;
    }) in
    let crc : crc32 (take (length (sealed_blob v) - 4) (sealed_blob v)) ≡ v.crc32 =
      ap crc32 (without_seal before v.crc32) in
    let full = length-sealed_blob v fit (crc32-lt before) in
    subst (λ b. validate_handoff b descriptors channel_config ≡ ok tt) written
      (accepts (sealed_blob v) v descriptors channel_config full (decoded (sealed_blob v) v read)
        header crc checked)
  where
    some_injective : {a b : Text} → some a ≡ some b → a ≡ b
    some_injective h = cc
