-- ===== src/Display/Cold/RoundTrip.antt =====
-- `make_cold_relinquish` (m9-2-display-contract-test.py) and the unpacking of its blob undo each other.
use micro_nux.Base.{
  ◌-◌, ◌≡◌, refl, sym, subst, ◌∙◌, none, some, Option-cases, inl, inr, [], ◌∷◌, Text, length, take,
}
use micro_nux.Base.Bytes.{FieldsFit, field_bytes, pack_fields, pack_fields-eq-some, read_fields}
use micro_nux.Base.Crc32.{crc32, crc32-lt}
use micro_nux.Base.Fields.{FieldsFit-before, without_seal}
use micro_nux.Display.Cold.{
  ColdValues, cold_fields, cold_values_of, cold_widths, make_cold_relinquish,
}
use micro_nux.Display.Cold.Written.{
  cold_front, decoded, make_cold_relinquish_lem, sealed_blob, sealed_decoded,
}

made_of_none :
    (v : ColdValues)
    → pack_fields (cold_fields (record v { crc32 = 0 })) ≡ none
    → make_cold_relinquish v ≡ none
unfolding make_cold_relinquish
made_of_none v e = rw (e, make_cold_relinquish) refl

-- A blob is only written where every field fits.
front_fits :
    (v : ColdValues) (blob : Text) → make_cold_relinquish v ≡ some blob → FieldsFit (cold_front v)
front_fits v blob made = elim (Option-cases (pack_fields (cold_fields (record v { crc32 = 0 })))) [
  | inl e ↦ let no = made_of_none v e in cc
  | inr (bytes, e) ↦
      let (fit, _) = pack_fields-eq-some (cold_fields (record v { crc32 = 0 })) e in
      FieldsFit-before (cold_front v) ((4, 0) ∷ []) fit
]

-- Whatever values `make_cold_relinquish` writes a blob from (it raises when one is out of its field's range),
-- unpacking the blob gives those values back, with the CRC-32 of all but the blob's last four bytes in place
-- of the checksum.
pub make_cold_relinquish-cold_values_of :
    (v : ColdValues) (blob : Text)
    → make_cold_relinquish v ≡ some blob
    → cold_values_of (read_fields cold_widths 0 blob)
      ≡ some (record v { crc32 = crc32 (take (length blob - 4) blob) })
unfolding sealed_blob
make_cold_relinquish-cold_values_of v blob made =
    let fit = front_fits v blob made in
    let before = field_bytes (cold_front v) in
    let w = record v { crc32 = crc32 before } in
    let is_blob : sealed_blob w ≡ blob =
      some_injective (sym (make_cold_relinquish_lem v fit) ∙ made) in
    let back = decoded (sealed_blob w) w (sealed_decoded w fit (crc32-lt before)) in
    let cut = without_seal before (crc32 before) in
    subst
      (λ b.
        cold_values_of (read_fields cold_widths 0 b)
        ≡ some (record v { crc32 = crc32 (take (length b - 4) b) }))
      is_blob (back ∙ (λ i. some (record v { crc32 = crc32 ((sym cut) i) })))
  where
    some_injective : {a b : Text} → some a ≡ some b → a ≡ b
    some_injective h = cc
