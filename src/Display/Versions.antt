-- ===== src/Display/Versions.antt =====
-- The two records of m9-2-display-contract-test.py are never taken for each other.
use micro_nux.Base.{ℕ, ◌≡◌, refl, ap, sym, ◌∙◌, List, Text, length, ok, raise}
use micro_nux.Base.Bytes.{le_at}
use micro_nux.Display.Layout.{abi_version, magic_word, structure_size}
use micro_nux.Display.Cold.{ColdHardwareState}
use micro_nux.Display.Cold.Validate.{check_cold_header, validate_cold_relinquish}
use micro_nux.Display.Cold.Exact as ColdExact
use micro_nux.Display.Cold.Written.{field_at}
use micro_nux.Display.Live.{Descriptor, live_size, live_abi_version}
use micro_nux.Display.Live.Validate.{validate_handoff}
use micro_nux.Display.Live.Exact as LiveExact

old_header :
    (blob : Text)
    → length blob ≡ live_size
    → le_at 4 0 blob ≡ magic_word
    → le_at 2 4 blob ≡ live_abi_version
    → check_cold_header blob ≡ raise abi_version
unfolding check_cold_header
old_header blob full magic abi = rw (full, magic, abi) refl

-- A blob that `validate_handoff` accepts (ABI v2, with any descriptors and channel) is rejected by
-- `validate_cold_relinquish` for its ABI version, whatever the hardware; and one that
-- `validate_cold_relinquish` accepts is rejected by `validate_handoff` for its size.
pub validate_handoff-excludes :
    (blob : Text) (descriptors : List Descriptor) (channel_cfg : ℕ × ℕ)
    (hardware : ColdHardwareState)
    → (validate_handoff blob descriptors channel_cfg ≡ ok tt
        → validate_cold_relinquish blob hardware ≡ raise abi_version)
      × (validate_cold_relinquish blob hardware ≡ ok tt
          → validate_handoff blob descriptors channel_cfg ≡ raise structure_size)
unfolding validate_cold_relinquish validate_handoff
validate_handoff-excludes blob descriptors channel_cfg hardware = (old, new)
  where
    old :
        validate_handoff blob descriptors channel_cfg ≡ ok tt
        → validate_cold_relinquish blob hardware ≡ raise abi_version
    old h =
        let (v, decoded, read) = LiveExact.decodes blob in
        let (full, header, crc, checked) =
          LiveExact.parts blob v descriptors channel_cfg decoded h in
        let (m, a, s) = LiveExact.header_asks v header in
        let magic : v.magic ≡ le_at 4 0 blob = ap (field_at 0) read in
        let abi : v.abi_version ≡ le_at 2 4 blob = ap (field_at 1) read in
        let rejected = old_header blob full (sym magic ∙ m) (sym abi ∙ a) in rw rejected refl

    new :
        validate_cold_relinquish blob hardware ≡ ok tt
        → validate_handoff blob descriptors channel_cfg ≡ raise structure_size
    new h =
        let (v, decoded, read) = ColdExact.decodes blob in
        let (header, crc, checked) = ColdExact.parts blob v hardware decoded h in
        let (full, m, a, s) = ColdExact.header_asks blob header in rw full refl
