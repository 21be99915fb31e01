-- ===== src/Tests/Handoff.antt =====
-- The records of m9-2-display-contract-test.py at the loader's default values.
use micro_nux.Base.{
  ◌-◌, ◌≡◌, ◌↔◌, refl, inl, some, List, [], ◌∷◌, Text, length, take, ok, raise, pos, arith,
}
use micro_nux.Base.Bytes.{read_fields}
use micro_nux.Base.Crc32.{crc32}
use micro_nux.Base.Fields.{sealed_bytes, sealed_bytes-IsByte}
use micro_nux.Display.Layout.{abi_version, structure_size, validate_kernel_memory_span}
use micro_nux.Display.Layout.Frames.{PairwiseDisjoint}
use micro_nux.Display.Cold.{
  cold_default_values, cold_hardware, cold_values_of, cold_widths, make_cold_relinquish,
}
use micro_nux.Display.Cold.Validate.{validate_cold_relinquish}
use micro_nux.Display.Cold.Relinquished.{FrontFits, PageFits}
use micro_nux.Display.Cold.Written.{
  cold_front, front_fit, make_cold_relinquish-passes, make_cold_relinquish_lem,
}
use micro_nux.Display.Cold.Exact.{Relinquishes, validate_cold_relinquish-Written}
use micro_nux.Display.Cold.Safety.{regions, validate_cold_relinquish-PairwiseDisjoint}
use micro_nux.Display.Cold.RoundTrip.{make_cold_relinquish-cold_values_of}
use micro_nux.Display.Live.{Descriptor, channel_config, default_descriptor, default_values}
use micro_nux.Display.Live.Validate.{validate_handoff}
use micro_nux.Display.Live.Written.{live_front}
use micro_nux.Display.Live.Exact.{HandsOver, validate_handoff-HandsOver}
use micro_nux.Display.Versions.{validate_handoff-excludes}

abbrev cold_blob : Text
cold_blob = sealed_bytes (cold_front cold_default_values)

abbrev live_blob : Text
live_blob = sealed_bytes (live_front default_values)

abbrev descriptors : List Descriptor
descriptors = default_descriptor ∷ default_descriptor ∷ default_descriptor ∷ []

front_fits : FrontFits 0x4804_1000
front_fits = (omega arith, omega arith, omega arith)

page_fits : PageFits 0x4ff3_c000
page_fits = (omega arith, omega arith, omega arith, inl (omega arith))

cold_made : make_cold_relinquish cold_default_values ≡ some cold_blob
cold_made =
    make_cold_relinquish_lem cold_default_values
      (front_fit 0x4804_1000 0x4ff3_c000 (omega arith) (omega arith))

cold_passes : validate_cold_relinquish cold_blob cold_hardware ≡ ok tt
cold_passes =
    make_cold_relinquish-passes 0x4804_1000 0x4ff3_c000 3 cold_blob front_fits page_fits cold_made

full_kernel : validate_kernel_memory_span (pos 0xf0_0000) ≡ ok tt
unfolding validate_kernel_memory_span
full_kernel = refl

validate_cold_relinquish-Written_example :
    (validate_cold_relinquish cold_blob cold_hardware ≡ ok tt)
    ↔ Relinquishes cold_blob cold_hardware
validate_cold_relinquish-Written_example =
    validate_cold_relinquish-Written cold_blob cold_hardware
      (sealed_bytes-IsByte (cold_front cold_default_values))

validate_cold_relinquish-PairwiseDisjoint_example : PairwiseDisjoint (regions 0xf0_0000 cold_blob)
validate_cold_relinquish-PairwiseDisjoint_example =
    validate_cold_relinquish-PairwiseDisjoint cold_blob cold_hardware 0xf0_0000 cold_passes
      full_kernel

make_cold_relinquish-cold_values_of_example :
    cold_values_of (read_fields cold_widths 0 cold_blob)
    ≡ some (record cold_default_values { crc32 = crc32 (take (length cold_blob - 4) cold_blob) })
make_cold_relinquish-cold_values_of_example =
    make_cold_relinquish-cold_values_of cold_default_values cold_blob cold_made

validate_handoff-HandsOver_example :
    (validate_handoff live_blob descriptors channel_config ≡ ok tt)
    ↔ HandsOver live_blob descriptors channel_config
validate_handoff-HandsOver_example =
    validate_handoff-HandsOver live_blob descriptors channel_config
      (sealed_bytes-IsByte (live_front default_values))

validate_handoff-excludes_example :
    (validate_handoff live_blob descriptors channel_config ≡ ok tt
      → validate_cold_relinquish live_blob cold_hardware ≡ raise abi_version)
    × (validate_cold_relinquish live_blob cold_hardware ≡ ok tt
        → validate_handoff live_blob descriptors channel_config ≡ raise structure_size)
validate_handoff-excludes_example =
    validate_handoff-excludes live_blob descriptors channel_config cold_hardware
