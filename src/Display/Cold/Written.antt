-- ===== src/Display/Cold/Written.antt =====
-- The blobs that `validate_cold_relinquish` (m9-2-display-contract-test.py) lets pass are those that
-- `make_cold_relinquish` writes.
use micro_nux.Base.{
  ℕ, ◌-◌, zero, suc, ==_refl, ◌^◌, ◌<◌, ◌≡◌, refl, sym, ap, subst, ◌∙◌, some, List, [], ◌∷◌, ◌++◌,
  Text, length, take, ok, arith,
}
use micro_nux.Base.Bytes.{FieldsFit, field_bytes, le_at, le_bytes, pack_fields, read_fields}
use micro_nux.Base.Crc32.{crc32, crc32-lt}
use micro_nux.Base.Fields.{
  field_bytes-sealed, pack_fields-sealed, read_fields-field_bytes, sealed, sealed-FieldsFit,
  sealed_bytes, without_seal,
}
use micro_nux.Display.Layout.{magic_word}
use micro_nux.Display.Cold.{
  cold_abi_version, ColdHardwareState, ColdValues, cold_default_values, cold_fields, cold_hardware,
  cold_size, cold_values_of, cold_widths, make_cold_relinquish,
}
use micro_nux.Display.Cold.Validate.{
  check_cold_header, check_cold_values, expected_pms_regions, validate_cold_relinquish,
}
use micro_nux.Display.Cold.Relinquished.{FrontFits, PageFits, check_cold_values-IsRelinquished}

-- All fields but the checksum.
abbrev pub cold_front : ColdValues → List (ℕ × ℕ)
cold_front v =
    (4, v.magic)
    ∷ (2, v.abi_version)
    ∷ (2, v.struct_size)
    ∷ (4, v.flags)
    ∷ (4, v.boot_mode)
    ∷ (4, v.ownership_state)
    ∷ (4, v.silicon_revision)
    ∷ (4, v.panel_profile_id)
    ∷ (4, v.width)
    ∷ (4, v.height)
    ∷ (4, v.stride)
    ∷ (4, v.pixel_format)
    ∷ (4, v.pixel_clock_hz)
    ∷ (4, v.lane_bit_rate_mbps)
    ∷ (4, v.data_lanes)
    ∷ (4, v.buffer_count)
    ∷ (4, v.hsync_pulse_width)
    ∷ (4, v.hsync_back_porch)
    ∷ (4, v.hsync_front_porch)
    ∷ (4, v.vsync_pulse_width)
    ∷ (4, v.vsync_back_porch)
    ∷ (4, v.vsync_front_porch)
    ∷ (4, v.framebuffer0)
    ∷ (4, v.framebuffer1)
    ∷ (4, v.framebuffer2)
    ∷ (4, v.framebuffer_size)
    ∷ (4, v.descriptor_address)
    ∷ (4, v.descriptor_size)
    ∷ (4, v.descriptor_count)
    ∷ (4, v.dma_channel)
    ∷ (4, v.dsi_fifo_address)
    ∷ (4, v.gdma_irq_source)
    ∷ (4, v.gdma_clic_irq)
    ∷ (4, v.i2c_port)
    ∷ (4, v.i2c_sda_gpio)
    ∷ (4, v.i2c_scl_gpio)
    ∷ (4, v.i2c_rate_hz)
    ∷ (4, v.i2c_address)
    ∷ (4, v.display_control_register)
    ∷ (4, v.backlight_register)
    ∷ (4, v.display_control_reset_assert_command)
    ∷ (4, v.display_control_reset_prepare_command)
    ∷ (4, v.display_control_reveal_command)
    ∷ (4, v.backlight_brightness)
    ∷ (4, v.reset_hold_ms)
    ∷ (4, v.pwm_zero_settle_ms)
    ∷ (4, v.panel_payload_crc32)
    ∷ (4, v.quiesce_sequence_id)
    ∷ []

pub make_cold_relinquish_lem :
    (v : ColdValues)
    → FieldsFit (cold_front v)
    → make_cold_relinquish v ≡ some (sealed_bytes (cold_front v))
unfolding make_cold_relinquish
make_cold_relinquish_lem v fit =
    let first : pack_fields (cold_fields (record v { crc32 = 0 }))
        ≡ some (field_bytes (cold_front v) ++ le_bytes 4 0) =
      pack_fields-sealed (cold_front v) 0 fit (omega arith) in
    let crc = crc32 (field_bytes (cold_front v)) in
    let second : pack_fields (cold_fields (record v { crc32 = crc }))
        ≡ some (sealed_bytes (cold_front v)) =
      pack_fields-sealed (cold_front v) crc fit (crc32-lt _) in
    let third = without_seal (field_bytes (cold_front v)) 0 in
    rw (first, third, make_cold_relinquish) second

-- The loader's values for a front frame and a descriptor page, and the hardware that Linux must find.
abbrev pub loader_values : ℕ → ℕ → ColdValues
loader_values front page = record cold_default_values {
  framebuffer0 = front;
  descriptor_address = page;
}

abbrev pub quiet_hardware : ℕ → ℕ → ℕ → ColdHardwareState
quiet_hardware virq front page = record cold_hardware {
  gdma_linux_virq = virq;
  dma_pms_regions = expected_pms_regions (loader_values front page);
}

pub front_fit :
    (front page : ℕ)
    → front < 2 ^ 32
    → page < 2 ^ 32
    → FieldsFit (cold_front (loader_values front page))
front_fit front page f p = ground arith

abbrev pub field_at : ℕ → List (ℕ × ℕ) → ℕ
field_at n [] = 0
field_at zero ((width, value) ∷ fields) = value
field_at (suc n) (field ∷ fields) = field_at n fields

pub decoded :
    (blob : Text) (v : ColdValues)
    → read_fields cold_widths 0 blob ≡ cold_fields v
    → cold_values_of (read_fields cold_widths 0 blob) ≡ some v
unfolding cold_values_of
decoded blob v e = ap cold_values_of e

header_passes :
    (blob : Text) (v : ColdValues)
    → length blob ≡ cold_size
    → read_fields cold_widths 0 blob ≡ cold_fields v
    → v.magic ≡ magic_word
    → v.abi_version ≡ cold_abi_version
    → v.struct_size ≡ cold_size
    → check_cold_header blob ≡ ok tt
unfolding check_cold_header
header_passes blob v full e magic abi size =
    let one : le_at 4 0 blob ≡ v.magic = ap (field_at 0) e in
    let two : le_at 2 4 blob ≡ v.abi_version = ap (field_at 1) e in
    let three : le_at 2 6 blob ≡ v.struct_size = ap (field_at 2) e in
    rw (full, one, two, three, magic, abi, size) refl

accepts :
    (blob : Text) (v : ColdValues) (hardware : ColdHardwareState)
    → check_cold_header blob ≡ ok tt
    → cold_values_of (read_fields cold_widths 0 blob) ≡ some v
    → crc32 (take (length blob - 4) blob) ≡ v.crc32
    → check_cold_values v hardware ≡ ok tt
    → validate_cold_relinquish blob hardware ≡ ok tt
unfolding validate_cold_relinquish
accepts blob v hardware header values crc checked =
    rw (header, values, crc, ==_refl v.crc32, checked, validate_cold_relinquish) refl

unfoldable pub sealed_blob : (v : ColdValues) → Text
sealed_blob v = field_bytes (cold_front v) ++ le_bytes 4 v.crc32

module _ (v : ColdValues) (fit : FieldsFit (cold_front v)) (lt : v.crc32 < 2 ^ 32) where
  pub sealed_decoded : read_fields cold_widths 0 (sealed_blob v) ≡ cold_fields v
  unfolding sealed_blob
  sealed_decoded =
      ap (read_fields cold_widths 0) (sym (field_bytes-sealed (cold_front v) v.crc32))
      ∙ read_fields-field_bytes (sealed (cold_front v) v.crc32)
          (sealed-FieldsFit (cold_front v) v.crc32 fit lt)

  length-sealed_blob : length (sealed_blob v) ≡ cold_size
  unfolding sealed_blob
  length-sealed_blob = refl

-- What `make_cold_relinquish` writes is accepted.
pub make_cold_relinquish-passes :
    (front page virq : ℕ) (blob : Text)
    → FrontFits front
    → PageFits page
    → make_cold_relinquish (loader_values front page) ≡ some blob
    → validate_cold_relinquish blob (quiet_hardware virq front page) ≡ ok tt
unfolding sealed_blob
make_cold_relinquish-passes front page virq blob f p e =
    let before = field_bytes (cold_front (loader_values front page)) in
    let fit = front_fit front page (omega (arith, f.1)) (omega (arith, p.1)) in
    let v = record (loader_values front page) { crc32 = crc32 before } in
    let written : sealed_blob v ≡ blob =
      some_injective (sym (make_cold_relinquish_lem (loader_values front page) fit) ∙ e) in
    let lt = crc32-lt before in
    let read = sealed_decoded v fit lt in
    let header =
      header_passes (sealed_blob v) v (length-sealed_blob v fit lt) read refl refl refl in
    let checked =
      (check_cold_values-IsRelinquished v (quiet_hardware virq front page)).1
        (record { front = f; page = p; values = refl; quiet = refl }) in
    let crc : crc32 (take (length (sealed_blob v) - 4) (sealed_blob v)) ≡ v.crc32 =
      ap crc32 (without_seal before v.crc32) in
    subst (λ b. validate_cold_relinquish b (quiet_hardware virq front page) ≡ ok tt) written
      (accepts (sealed_blob v) v _ header (decoded (sealed_blob v) v read) crc checked)
  where
    some_injective : {a b : Text} → some a ≡ some b → a ≡ b
    some_injective h = cc
