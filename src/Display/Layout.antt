-- ===== src/Display/Layout.antt =====
-- The memory map, the reasons to reject a record, and the checks on the three frames that both validators
-- of m9-2-display-contract-test.py make.
pub mod Frames
use micro_nux.Base.{
  ℕ, ◌+◌, ◌*◌, ◌/◌, ◌%◌, ◌^◌, Bool, true, false, not, ◌&&◌, ◌||◌, ltb, leb, ◌==◌, map, ℤ, pos,
  negsuc, List, [], ◌∷◌, Result, ok, raise, raise_if, ◌>>◌,
}

abbrev pub frame_size : ℕ
frame_size = 2_048_000

abbrev pub cold_page_size : ℕ
cold_page_size = 0x1000

abbrev pub loader_psram : ℕ × ℕ
loader_psram = (0x4800_0000, 0x4840_0000)

abbrev pub display_pool : ℕ × ℕ
display_pool = (0x4930_0000, 0x4970_0000)

abbrev pub descriptor_sram : ℕ × ℕ
descriptor_sram = (0x4ff0_0000, 0x4ffc_0000)

abbrev pub sd_dma_sram : ℕ × ℕ
sd_dma_sram = (0x4ff8_0000, 0x4ff8_2000)

abbrev pub dsi_fifo : ℕ
dsi_fifo = 0x5010_5000

abbrev pub display_slot_size : ℕ
display_slot_size = 0x0020_0000

abbrev pub kernel_general_ram : ℕ × ℕ
kernel_general_ram = (0x4840_0000, 0x4930_0000)

abbrev pub magic_word : ℕ
magic_word = 0x4d4e_5844

abbrev pub descriptor_size : ℕ
descriptor_size = 64

abbrev pub descriptor_count : ℕ
descriptor_count = 3

abbrev pub owner_linux_pending : ℕ
owner_linux_pending = 1

-- The reasons of `ContractError`, and the `struct.error` of `unpack_from` and `pack`.
pub data Rejection : Type 0 where
  structure_size magic abi_version declared_size crc32_mismatch unknown_flags required_flags :
      Rejection
  boot_mode ownership_state panel_profile frame_size_overflow frame_size_mismatch : Rejection
  published_frame_size loader_front_bounds display_pool_layout frame_address_overflow : Rejection
  framebuffer_alignment display_pool_bounds display_slot_bounds frame_overlap : Rejection
  descriptor_overflow descriptor_bounds descriptor_sd_dma_overlap dma_channel : Rejection
  gdma_linux_irq_data gdma_linux_hwirq peripheral_contract silicon_readback : Rejection
  display_reset_clock_state dphy_ldo_enabled i2c_not_released gdma_irq_route : Rejection
  dma_pms_policy descriptor_storage_not_zero kernel_memory_span : Rejection
  descriptor_count_mismatch descriptor_source descriptor_destination descriptor_link : Rejection
  descriptor_block_size descriptor_control_low descriptor_control_high dma_channel_config :
      Rejection

abbrev pub Checked : Type 0
Checked = Result Rejection (Unit {0})

-- `x & (2 ** n - 1)` and `x & ~(2 ** n - 1)`
abbrev pub low_bits : ℕ → ℕ → ℕ
low_bits n x = x % 2 ^ n

abbrev pub high_bits : ℕ → ℕ → ℕ
high_bits n x = x / 2 ^ n * 2 ^ n

-- The body of the loop over the frames, of which the first is in the loader's memory.
unfoldable pub check_frame : ℕ → ℕ → ℕ → Checked
check_frame alignment index address = do
  let end = address + frame_size
  raise_if (ltb 0xffff_ffff end) frame_address_overflow
  raise_if (not (address % alignment == 0)) framebuffer_alignment
  raise_if (not (index == 0) && (ltb address display_pool.0 || ltb display_pool.1 end))
      display_pool_bounds
  raise_if (not (index == 0) && ltb (address + display_slot_size) end) display_slot_bounds

unfoldable pub check_each : ℕ → ℕ → List ℕ → Checked
check_each alignment index [] = ok tt
check_each alignment index (address ∷ rest) =
    check_frame alignment index address >> check_each alignment (index + 1) rest

-- `for second in ranges[index + 1 :]`
unfoldable pub check_against : ℕ × ℕ → List (ℕ × ℕ) → Checked
check_against first [] = ok tt
check_against first (second ∷ rest) = do
  raise_if (ltb first.0 second.1 && ltb second.0 first.1) frame_overlap
  check_against first rest

unfoldable pub check_overlaps : List (ℕ × ℕ) → Checked
check_overlaps [] = ok tt
check_overlaps (first ∷ rest) = check_against first rest >> check_overlaps rest

abbrev pub frame_range : ℕ → ℕ × ℕ
frame_range address = (address, address + frame_size)

-- The two loops over the frames.
unfoldable pub check_frames : ℕ → List ℕ → Checked
check_frames alignment addresses = do
  check_each alignment 0 addresses
  check_overlaps (map frame_range addresses)

unfoldable pub validate_kernel_memory_span : ℤ → Checked
validate_kernel_memory_span (pos memory_size) =
    raise_if (leb memory_size 0 || ltb kernel_general_ram.1 (kernel_general_ram.0 + memory_size))
      kernel_memory_span
validate_kernel_memory_span (negsuc n) = raise kernel_memory_span
