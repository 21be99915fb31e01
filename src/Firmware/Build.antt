-- ===== src/Firmware/Build.antt =====
-- `build_blob` of generate_firmware.py.
use micro_nux.Base.{
  ℕ, max, Option, none, some, List, [], ◌∷◌, ◌++◌, map, Text, length, ltb, Result, ok, ◌>>=◌, ◌>>◌,
  raise_if, or_raise,
}
use micro_nux.Base.Bytes.{pack_fields}
use micro_nux.Base.Crc32.{crc32}
use micro_nux.Base.Json.{Json}
use micro_nux.Firmware.{
  Error, Command, format, struct_error, value_error, payload_too_large, magic, format_version,
  flags_word, header_size, max_payload_bytes,
}
use micro_nux.Firmware.Source.{normalize_source}

-- `max(...)` of the standard library: `none` is its `ValueError` for nothing.
abbrev pub maximum : List ℕ → Option ℕ
maximum [] = none
maximum (n ∷ []) = some n
maximum (n ∷ m ∷ ns) = maximum (max n m ∷ ns)

abbrev pub param_counts : List Command → List ℕ
param_counts = map (λ c. length c.bytes)

abbrev pub delays : List Command → List ℕ
delays = map (λ c. c.delay_ms)

-- `RECORD_HEADER.pack(command, len(data), delay_ms) + data`
unfoldable pub pack_record : Command → Result Error Text
pack_record c = do
  header ←
      or_raise (pack_fields ((1, c.command) ∷ (1, length c.bytes) ∷ (2, c.delay_ms) ∷ []))
        struct_error
  ok (header ++ c.bytes)

-- The loop over the records, and `b"".join(payload_parts)`.
unfoldable pub pack_records : List Command → Result Error Text
unfolding pack_record
pack_records [] = ok []
pack_records (c ∷ rest) = do part ← pack_record c; parts ← pack_records rest; ok (part ++ parts)

-- What follows `normalize_source`.
unfoldable pub build_records : List Command → ℕ → Result Error Text
build_records records prelude_count = do
  payload ← pack_records records
  raise_if (ltb max_payload_bytes (length payload)) (format payload_too_large)
  max_params ← or_raise (maximum (param_counts records)) value_error
  max_delay ← or_raise (maximum (delays records)) value_error
  header ←
      or_raise
        (pack_fields (
          (2, format_version)
          ∷ (2, header_size)
          ∷ (2, length records)
          ∷ (2, prelude_count)
          ∷ (4, length payload)
          ∷ (4, crc32 payload)
          ∷ (4, flags_word)
          ∷ (2, max_params)
          ∷ (2, max_delay)
          ∷ []))
        struct_error
  ok (magic ++ header ++ payload)

unfoldable pub build_blob : Json → Result Error Text
build_blob document = do
  (records, prelude_count) ← normalize_source document
  build_records records prelude_count
