-- ===== src/Display/Live/Exact.antt =====
-- `validate_handoff` (m9-2-display-contract-test.py) lets nothing pass but what `make_handoff` writes.
use micro_nux.Base.{
  ℕ, ◌-◌, ◌^◌, ◌<◌, ◌≡◌, ◌↔◌, refl, sym, ap, subst, ◌∙◌, ◌==◌, not, some, List, ◌++◌, Text, All,
  length, take, ok, raise_if, raise_if-equal, arith, then_ok,
}
use micro_nux.Base.Bytes.{FieldsFit, IsByte, field_bytes, le_bytes, read_fields}
use micro_nux.Base.Crc32.{crc32}
use micro_nux.Base.Fields.{
  field_bytes-read_all, field_bytes-sealed, read_fields-FieldsFit, without_seal,
}
use micro_nux.Display.Layout.{crc32_mismatch, descriptor_count, magic_word, structure_size}
use micro_nux.Display.Live.{
  Descriptor, LiveValues, channel_config, default_values, live_abi_version, live_fields, live_size,
  live_values_of, live_widths, make_handoff,
}
use micro_nux.Display.Live.Validate.{check_live_header, check_live_values, validate_handoff}
use micro_nux.Display.Live.Accepted.{Describes, ValuesMatch}
use micro_nux.Display.Live.Handed.{check_live_values-IsHandoff}
use micro_nux.Display.Live.Written.{
  Choices, Fits, chosen, chosen-FieldsFit, live_front, make_handoff-passes, make_handoff_lem,
}

pub decodes :
    (blob : Text)
    → (v : LiveValues) × (live_values_of (read_fields live_widths 0 blob) ≡ some v)
      × (live_fields v ≡ read_fields live_widths 0 blob)
unfolding live_values_of
decodes blob = (_, refl, refl)

pub header_asks :
    (v : LiveValues)
    → check_live_header v ≡ ok tt
    → (v.magic ≡ magic_word) × (v.abi_version ≡ live_abi_version) × (v.struct_size ≡ live_size)
unfolding check_live_header
header_asks v h = ground arith

-- What the record chose.
abbrev choices_of : LiveValues → Choices
choices_of v = record {
  flags = v.flags;
  front = v.framebuffer0;
  table = v.descriptor_address;
  channel = v.dma_channel;
  brightness = v.backlight_brightness;
}

module _ (blob : Text) (v : LiveValues) (descriptors : List Descriptor) (channel_cfg : ℕ × ℕ) where
  pub parts :
      live_values_of (read_fields live_widths 0 blob) ≡ some v
      → validate_handoff blob descriptors channel_cfg ≡ ok tt
      → (length blob ≡ live_size)
        × (check_live_header v ≡ ok tt)
        × (crc32 (take (length blob - 4) blob) ≡ v.crc32)
        × (check_live_values v descriptors channel_cfg ≡ ok tt)
  unfolding validate_handoff
  parts e h =
      let opened = rw e at h in
      let (one, r1) =
        (then_ok (raise_if (not (length blob == live_size)) structure_size) _).0 opened in
      let (two, r2) = (then_ok (check_live_header v) _).0 r1 in
      let (three, four) =
        (then_ok (raise_if (not (crc32 (take (length blob - 4) blob) == v.crc32)) crc32_mismatch)
            (check_live_values v descriptors channel_cfg)).0
          r2 in
      (raise_if-equal _ _ structure_size one, two, raise_if-equal _ _ crc32_mismatch three, four)

-- The header's fields are the loader's too.
as_loader :
    (v : LiveValues)
    → check_live_header v ≡ ok tt
    → ValuesMatch v
    → v ≡ record (chosen (choices_of v)) { crc32 = v.crc32 }
as_loader v header values =
    let (magic, abi, size) = header_asks v header in
    values ∙ (λ i. record default_values {
      magic = magic i;
      abi_version = abi i;
      struct_size = size i;
      flags = v.flags;
      framebuffer0 = v.framebuffer0;
      descriptor_address = v.descriptor_address;
      dma_channel = v.dma_channel;
      backlight_brightness = v.backlight_brightness;
      crc32 = v.crc32;
    })

written :
    (blob : Text) (v : LiveValues)
    → v ≡ record (chosen (choices_of v)) { crc32 = v.crc32 }
    → Fits (choices_of v)
    → blob ≡ field_bytes (live_front v) ++ le_bytes 4 v.crc32
    → crc32 (take (length blob - 4) blob) ≡ v.crc32
    → make_handoff (chosen (choices_of v)) ≡ some blob
written blob v same fits blob_is crc =
    let loader = chosen (choices_of v) in
    let made = make_handoff_lem loader (chosen-FieldsFit (choices_of v) fits) in
    let front : field_bytes (live_front v) ≡ field_bytes (live_front loader) =
      ap (λ w. field_bytes (live_front w)) same in
    let cut : take (length blob - 4) blob ≡ field_bytes (live_front v) =
      (λ i. take (length (blob_is i) - 4) (blob_is i))
      ∙ without_seal (field_bytes (live_front v)) v.crc32 in
    let sum : v.crc32 ≡ crc32 (field_bytes (live_front loader)) =
      sym crc ∙ ap crc32 (cut ∙ front) in
    made ∙ ap some (sym (blob_is ∙ (λ i. front i ++ le_bytes 4 (sum i))))

-- A field of four bytes is a word.
flags_lt : (v : LiveValues) → FieldsFit (live_fields v) → v.flags < 2 ^ 32
flags_lt v fit = omega (arith, fit.1.1.1.0)

-- The loader writes the blob, and the descriptors and the channel are set up for its front frame.
abbrev pub HandsOver : Text → List Descriptor → ℕ × ℕ → Type 0
HandsOver blob descriptors channel_cfg =
    (c : Choices) × Fits c
    × (make_handoff (chosen c) ≡ some blob)
    × (length descriptors ≡ descriptor_count)
    × All (Describes c.front) descriptors
    × (channel_cfg ≡ channel_config)

-- `validate_handoff` accepts a blob of bytes, a list of descriptors and a channel configuration exactly when
-- `make_handoff` writes the blob from the loader's values with some flags (a word with the eight required bits),
-- some front frame (on eight bytes, whole in the loader's memory), some descriptor table (on 64 bytes, whole
-- in the descriptor memory), some channel below 4 and some brightness up to 255; there are three descriptors,
-- each the default one of that front frame with a link below 64; and the configuration is `CHANNEL_CFG`.
pub validate_handoff-HandsOver :
    (blob : Text) (descriptors : List Descriptor) (channel_cfg : ℕ × ℕ)
    → All IsByte blob
    → (validate_handoff blob descriptors channel_cfg ≡ ok tt)
      ↔ HandsOver blob descriptors channel_cfg
validate_handoff-HandsOver blob descriptors channel_cfg bytes = (asks, passes)
  where
    asks :
        validate_handoff blob descriptors channel_cfg ≡ ok tt
        → HandsOver blob descriptors channel_cfg
    asks h =
        let (v, decoded, read) = decodes blob in
        let (full, header, crc, checked) = parts blob v descriptors channel_cfg decoded h in
        let r = (check_live_values-IsHandoff v descriptors channel_cfg).0 checked in
        let all = field_bytes-read_all live_widths blob bytes full in
        let blob_is =
          sym all ∙ ap field_bytes (sym read) ∙ field_bytes-sealed (live_front v) v.crc32 in
        let fit = read_fields-FieldsFit live_widths 0 blob bytes (omega (arith, full)) in
        let fits : Fits (choices_of v) = (flags_lt v (subst FieldsFit (sym read) fit), r.choices) in
        (
          choices_of v,
          fits,
          written blob v (as_loader v header r.values) fits blob_is crc,
          r.three,
          r.described,
          r.config,
        )

    passes :
        HandsOver blob descriptors channel_cfg
        → validate_handoff blob descriptors channel_cfg ≡ ok tt
    passes (c, fits, made, three, described, config) =
        (λ i. validate_handoff blob descriptors (config i))
        ∙ make_handoff-passes c descriptors blob fits three described made
