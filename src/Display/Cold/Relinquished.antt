-- ===== src/Display/Cold/Relinquished.antt =====
-- What `validate_cold_relinquish` (m9-2-display-contract-test.py) asks of the values and of the hardware.
use micro_nux.Base.{
  ℕ, zero, suc, ◌+◌, ◌%◌, ◌≤◌, ◌≡◌, ◌↔◌, refl, ap, ◌∙◌, false, length, ok, arith, then_ok,
}
use micro_nux.Display.Layout.{
  cold_page_size, descriptor_sram, frame_size, loader_psram, sd_dma_sram,
}
use micro_nux.Display.Layout.Frames.{Disjoint}
use micro_nux.Display.Cold.{
  ColdHardwareState, ColdValues, cold_default_values, cold_hardware, zeros,
}
use micro_nux.Display.Cold.Validate.{
  any_nonzero, check_cold_descriptor, check_cold_flags, check_cold_frames, check_cold_hardware,
  check_cold_peripherals, check_cold_profile, check_cold_values, clock_enabled, cold_profile,
  expected_pms_regions, other_peripherals,
}
use micro_nux.Display.Cold.Accepted.{
  HardwareMatches, ValuesMatch, aligned, descriptor_match, flags_match, frames_match,
  hardware_match, peripherals_match, profile_match, regions_eq_refl, values_match,
}

abbrev pub FrontFits : ℕ → Type 0
FrontFits front =
    (loader_psram.0 ≤ front) × (front + frame_size ≤ loader_psram.1) × (front % cold_page_size ≡ 0)

abbrev pub PageFits : ℕ → Type 0
PageFits page =
    (descriptor_sram.0 ≤ page)
    × (page + cold_page_size ≤ descriptor_sram.1)
    × (page % cold_page_size ≡ 0)
    × Disjoint (page, page + cold_page_size) sd_dma_sram

-- The loader's values with another front frame and descriptor page, and the hardware that goes with them.
pub record IsRelinquished (v : ColdValues) (hardware : ColdHardwareState) : Type 0 where
  pub front : FrontFits v.framebuffer0
  pub page : PageFits v.descriptor_address
  pub values : ValuesMatch v
  pub quiet : HardwareMatches v hardware

any_nonzero-zeros : (n : ℕ) → any_nonzero (zeros n) ≡ false
unfolding any_nonzero zeros
any_nonzero-zeros zero = refl
any_nonzero-zeros (suc n) = any_nonzero-zeros n

length-zeros : (n : ℕ) → length (zeros n) ≡ n
unfolding zeros
length-zeros zero = refl
length-zeros (suc n) = ap suc (length-zeros n)

module _ (v : ColdValues) where
  abbrev written : ColdValues
  written = record cold_default_values {
    magic = v.magic;
    abi_version = v.abi_version;
    struct_size = v.struct_size;
    framebuffer0 = v.framebuffer0;
    descriptor_address = v.descriptor_address;
    crc32 = v.crc32;
  }

  abbrev quiet_hardware : ℕ → ColdHardwareState
  quiet_hardware virq = record cold_hardware {
    gdma_linux_virq = virq;
    dma_pms_regions = expected_pms_regions written;
  }

  flags_pass : check_cold_flags written ≡ ok tt
  unfolding check_cold_flags
  flags_pass = refl

  profile_pass : check_cold_profile written ≡ ok tt
  unfolding check_cold_profile cold_profile
  profile_pass = refl

  frames_pass : FrontFits v.framebuffer0 → check_cold_frames written ≡ ok tt
  unfolding check_cold_frames
  frames_pass (ge, le, page) =
      let frames = (aligned v.framebuffer0 0x4930_0000 0x4950_0000 refl refl le).1 page in
      ground (arith, ge, le, frames)

  descriptor_pass : PageFits v.descriptor_address → check_cold_descriptor written ≡ ok tt
  unfolding check_cold_descriptor
  descriptor_pass fits = ground arith

  peripherals_pass : (virq : ℕ) → check_cold_peripherals written (quiet_hardware virq) ≡ ok tt
  unfolding check_cold_peripherals other_peripherals
  peripherals_pass virq = refl

  hardware_pass : (virq : ℕ) → check_cold_hardware written (quiet_hardware virq) ≡ ok tt
  unfolding check_cold_hardware clock_enabled
  hardware_pass virq =
      rw
        (
          regions_eq_refl (expected_pms_regions written),
          length-zeros cold_page_size,
          any_nonzero-zeros cold_page_size,
        )
        refl

  all_pass :
      (virq : ℕ)
      → FrontFits v.framebuffer0
      → PageFits v.descriptor_address
      → check_cold_values written (quiet_hardware virq) ≡ ok tt
  unfolding check_cold_values
  all_pass virq front page =
      rw
        (
          flags_pass,
          profile_pass,
          frames_pass front,
          descriptor_pass page,
          peripherals_pass virq,
          hardware_pass virq,
        )
        refl

pub check_cold_values-IsRelinquished :
    (v : ColdValues) (hardware : ColdHardwareState)
    → (check_cold_values v hardware ≡ ok tt) ↔ IsRelinquished v hardware
unfolding check_cold_values
check_cold_values-IsRelinquished v hardware = (asks, passes)
  where
    asks : check_cold_values v hardware ≡ ok tt → IsRelinquished v hardware
    asks h =
        let (h1, r1) = (then_ok (check_cold_flags v) _).0 h in
        let (h2, r2) = (then_ok (check_cold_profile v) _).0 r1 in
        let (h3, r3) = (then_ok (check_cold_frames v) _).0 r2 in
        let (h4, r4) = (then_ok (check_cold_descriptor v) _).0 r3 in
        let (h5, h6) = (then_ok (check_cold_peripherals v hardware) _).0 r4 in
        let frames = frames_match v h3 in
        let descriptor = descriptor_match v h4 in
        let profile = profile_match v h2 in
        let (channel, available, hwirq, periph) = peripherals_match v hardware h5 in
        record {
          front = (frames.0, frames.1, frames.2);
          page = (descriptor.0, descriptor.1, descriptor.2, descriptor.3);
          values = values_match v (flags_match v h1) profile frames descriptor channel periph;
          quiet = hardware_match v hardware profile.0.0 periph.2 available hwirq h6;
        }

    passes : IsRelinquished v hardware → check_cold_values v hardware ≡ ok tt
    passes r =
        let pass = all_pass v hardware.gdma_linux_virq r.front r.page in
        (λ i. check_cold_values (r.values i) (r.quiet i)) ∙ pass
