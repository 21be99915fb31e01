-- ===== src/Display/Cold/Safety.antt =====
-- The memory that an accepted record and an accepted kernel take (m9-2-display-contract-test.py).
use micro_nux.Base.{ℕ, ◌+◌, ◌≤◌, ◌≡◌, ap, sym, ◌∙◌, List, [], ◌∷◌, Text, ok, pos, arith}
use micro_nux.Base.Bytes.{le_at}
use micro_nux.Display.Layout.{
  cold_page_size, dsi_fifo, frame_range, kernel_general_ram, sd_dma_sram,
  validate_kernel_memory_span,
}
use micro_nux.Display.Layout.Frames.{PairwiseDisjoint}
use micro_nux.Display.Cold.{ColdHardwareState}
use micro_nux.Display.Cold.Validate.{validate_cold_relinquish}
use micro_nux.Display.Cold.Relinquished.{PageFits, FrontFits, check_cold_values-IsRelinquished}
use micro_nux.Display.Cold.Exact.{decodes, parts}
use micro_nux.Display.Cold.Written.{field_at}

-- The kernel's load span, the record's three frames and its descriptor page, the SD card's buffers and the
-- window of the display FIFO.
abbrev pub regions : ℕ → Text → List (ℕ × ℕ)
regions memory_size blob =
    (kernel_general_ram.0, kernel_general_ram.0 + memory_size)
    ∷ frame_range (le_at 4 0x54 blob)
    ∷ frame_range (le_at 4 0x58 blob)
    ∷ frame_range (le_at 4 0x5c blob)
    ∷ (le_at 4 0x64 blob, le_at 4 0x64 blob + cold_page_size)
    ∷ sd_dma_sram
    ∷ (dsi_fifo, dsi_fifo + cold_page_size)
    ∷ []

kernel_fits :
    (n : ℕ)
    → validate_kernel_memory_span (pos n) ≡ ok tt
    → kernel_general_ram.0 + n ≤ kernel_general_ram.1
unfolding validate_kernel_memory_span
kernel_fits n h = ground arith

apart :
    (n front second third page : ℕ)
    → kernel_general_ram.0 + n ≤ kernel_general_ram.1
    → FrontFits front
    → second ≡ 0x4930_0000
    → third ≡ 0x4950_0000
    → PageFits page
    → PairwiseDisjoint (
        (kernel_general_ram.0, kernel_general_ram.0 + n)
        ∷ frame_range front
        ∷ frame_range second
        ∷ frame_range third
        ∷ (page, page + cold_page_size)
        ∷ sd_dma_sram
        ∷ (dsi_fifo, dsi_fifo + cold_page_size)
        ∷ [])
apart n front second third page fits f e2 e3 p = ground arith

-- When a record (with any hardware) and a kernel of some memory size both pass their checks, no two of these
-- address ranges have a byte in common: the kernel's load span, the three frames and the descriptor page at
-- the addresses that the record's bytes name, the SD card's DMA buffers, and the window of the display FIFO.
pub validate_cold_relinquish-PairwiseDisjoint :
    (blob : Text) (hardware : ColdHardwareState) (memory_size : ℕ)
    → validate_cold_relinquish blob hardware ≡ ok tt
    → validate_kernel_memory_span (pos memory_size) ≡ ok tt
    → PairwiseDisjoint (regions memory_size blob)
validate_cold_relinquish-PairwiseDisjoint blob hardware n h k =
    let (v, decoded, read) = decodes blob in
    let (header, crc, checked) = parts blob v hardware decoded h in
    let r = (check_cold_values-IsRelinquished v hardware).0 checked in
    let first : v.framebuffer0 ≡ le_at 4 0x54 blob = ap (field_at 22) read in
    let second : v.framebuffer1 ≡ le_at 4 0x58 blob = ap (field_at 23) read in
    let third : v.framebuffer2 ≡ le_at 4 0x5c blob = ap (field_at 24) read in
    let page : v.descriptor_address ≡ le_at 4 0x64 blob = ap (field_at 26) read in
    let two : v.framebuffer1 ≡ 0x4930_0000 = ap (λ w. w.framebuffer1) r.values in
    let three : v.framebuffer2 ≡ 0x4950_0000 = ap (λ w. w.framebuffer2) r.values in
    apart n (le_at 4 0x54 blob) (le_at 4 0x58 blob) (le_at 4 0x5c blob) (le_at 4 0x64 blob)
      (kernel_fits n k) (rw first at r.front) (sym second ∙ two) (sym third ∙ three)
      (rw page at r.page)
