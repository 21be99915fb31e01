-- ===== src/Display/Cold/Exact.antt =====
-- `validate_cold_relinquish` (m9-2-display-contract-test.py) lets nothing pass but what
-- `make_cold_relinquish` writes.
use micro_nux.Base.{
  ℕ, ◌-◌, ◌≡◌, ◌↔◌, refl, sym, ap, ◌∙◌, some, ◌++◌, Text, All, length, take, ok, arith, then_ok,
}
use micro_nux.Base.Bytes.{IsByte, field_bytes, le_at, le_bytes, read_fields}
use micro_nux.Base.Crc32.{crc32}
use micro_nux.Base.Fields.{field_bytes-read_all, field_bytes-sealed, without_seal}
use micro_nux.Display.Layout.{magic_word}
use micro_nux.Display.Cold.{
  ColdHardwareState, ColdValues, cold_abi_version, cold_default_values, cold_fields, cold_size,
  cold_values_of, cold_widths, make_cold_relinquish,
}
use micro_nux.Display.Cold.Validate.{check_cold_header, check_cold_values, validate_cold_relinquish}
use micro_nux.Display.Cold.Accepted.{ValuesMatch}
use micro_nux.Display.Cold.Relinquished.{FrontFits, PageFits, check_cold_values-IsRelinquished}
use micro_nux.Display.Cold.Written.{
  cold_front, field_at, front_fit, loader_values, make_cold_relinquish-passes,
  make_cold_relinquish_lem, quiet_hardware,
}

pub header_asks :
    (blob : Text)
    → check_cold_header blob ≡ ok tt
    → (length blob ≡ cold_size)
      × (le_at 4 0 blob ≡ magic_word)
      × (le_at 2 4 blob ≡ cold_abi_version)
      × (le_at 2 6 blob ≡ cold_size)
unfolding check_cold_header
header_asks blob h = ground arith

pub decodes :
    (blob : Text)
    → (v : ColdValues) × (cold_values_of (read_fields cold_widths 0 blob) ≡ some v)
      × (cold_fields v ≡ read_fields cold_widths 0 blob)
unfolding cold_values_of
decodes blob = (_, refl, refl)

module _ (blob : Text) (v : ColdValues) (hardware : ColdHardwareState) where
  pub parts :
      cold_values_of (read_fields cold_widths 0 blob) ≡ some v
      → validate_cold_relinquish blob hardware ≡ ok tt
      → (check_cold_header blob ≡ ok tt)
        × (crc32 (take (length blob - 4) blob) ≡ v.crc32)
        × (check_cold_values v hardware ≡ ok tt)
  unfolding validate_cold_relinquish
  parts e h =
      let (header, rest) = (then_ok (check_cold_header blob) _).0 h in
      let opened = rw e at rest in (header, ground arith, ground arith)

  -- The header's fields are the as_loader too.
  as_loader :
      cold_fields v ≡ read_fields cold_widths 0 blob
      → check_cold_header blob ≡ ok tt
      → ValuesMatch v
      → v ≡ record (loader_values v.framebuffer0 v.descriptor_address) { crc32 = v.crc32 }
  as_loader read header values =
      let (full, m, a, s) = header_asks blob header in
      let magic : v.magic ≡ magic_word = ap (field_at 0) read ∙ m in
      let abi : v.abi_version ≡ cold_abi_version = ap (field_at 1) read ∙ a in
      let size : v.struct_size ≡ cold_size = ap (field_at 2) read ∙ s in
      values ∙ (λ i. record cold_default_values {
        magic = magic i;
        abi_version = abi i;
        struct_size = size i;
        framebuffer0 = v.framebuffer0;
        descriptor_address = v.descriptor_address;
        crc32 = v.crc32;
      })

  whole :
      All IsByte blob
      → length blob ≡ cold_size
      → cold_fields v ≡ read_fields cold_widths 0 blob
      → blob ≡ field_bytes (cold_front v) ++ le_bytes 4 v.crc32
  whole bytes full read =
      let all = field_bytes-read_all cold_widths blob bytes full in
      sym all ∙ ap field_bytes (sym read) ∙ field_bytes-sealed (cold_front v) v.crc32

-- The loader writes the blob, and the hardware is quiet.
abbrev pub Relinquishes : Text → ColdHardwareState → Type 0
Relinquishes blob hardware =
    (front : ℕ) × (page : ℕ) × FrontFits front
    × PageFits page
    × (make_cold_relinquish (loader_values front page) ≡ some blob)
    × (hardware ≡ quiet_hardware hardware.gdma_linux_virq front page)

written :
    (blob : Text) (v : ColdValues)
    → v ≡ record (loader_values v.framebuffer0 v.descriptor_address) { crc32 = v.crc32 }
    → FrontFits v.framebuffer0
    → PageFits v.descriptor_address
    → blob ≡ field_bytes (cold_front v) ++ le_bytes 4 v.crc32
    → crc32 (take (length blob - 4) blob) ≡ v.crc32
    → make_cold_relinquish (loader_values v.framebuffer0 v.descriptor_address) ≡ some blob
written blob v same f p blob_is crc =
    let loader = loader_values v.framebuffer0 v.descriptor_address in
    let fit =
      front_fit v.framebuffer0 v.descriptor_address (omega (arith, f.1)) (omega (arith, p.1)) in
    let made = make_cold_relinquish_lem loader fit in
    let front : field_bytes (cold_front v) ≡ field_bytes (cold_front loader) =
      ap (λ w. field_bytes (cold_front w)) same in
    let cut : take (length blob - 4) blob ≡ field_bytes (cold_front v) =
      (λ i. take (length (blob_is i) - 4) (blob_is i))
      ∙ without_seal (field_bytes (cold_front v)) v.crc32 in
    let sum : v.crc32 ≡ crc32 (field_bytes (cold_front loader)) =
      sym crc ∙ ap crc32 (cut ∙ front) in
    made ∙ ap some (sym (blob_is ∙ (λ i. front i ++ le_bytes 4 (sum i))))

-- `validate_cold_relinquish` accepts a blob of bytes exactly when `make_cold_relinquish` writes it from the
-- loader's values with some front frame (on a page of the loader's memory that the whole frame lies in) and
-- some descriptor page (on a page of the descriptor memory, apart from the SD card's buffers), and the
-- hardware state is the quiet one of the same addresses, with any virtual interrupt number.
pub validate_cold_relinquish-Written :
    (blob : Text) (hardware : ColdHardwareState)
    → All IsByte blob
    → (validate_cold_relinquish blob hardware ≡ ok tt) ↔ Relinquishes blob hardware
validate_cold_relinquish-Written blob hardware bytes = (asks, passes)
  where
    asks : validate_cold_relinquish blob hardware ≡ ok tt → Relinquishes blob hardware
    asks h =
        let (v, decoded, read) = decodes blob in
        let (header, crc, checked) = parts blob v hardware decoded h in
        let r = (check_cold_values-IsRelinquished v hardware).0 checked in
        let same = as_loader blob v hardware read header r.values in
        let blob_is = whole blob v hardware bytes (header_asks blob header).0 read in
        (
          v.framebuffer0,
          v.descriptor_address,
          r.front,
          r.page,
          written blob v same r.front r.page blob_is crc,
          r.quiet,
        )

    passes : Relinquishes blob hardware → validate_cold_relinquish blob hardware ≡ ok tt
    passes (front, page, f, p, made, quiet) =
        (λ i. validate_cold_relinquish blob (quiet i))
        ∙ make_cold_relinquish-passes front page hardware.gdma_linux_virq blob f p made
