-- ===== src/Firmware/Encoding.antt =====
-- The byte format of generate_firmware.py, stated without the code's checks.
use micro_nux.Base.{ℕ, List, [], ◌∷◌, ◌++◌, Text, length}
use micro_nux.Base.Bytes.{field_bytes}
use micro_nux.Firmware.{Command, magic}
use micro_nux.Firmware.Parse.{Firmware}

abbrev pub encode_record : Command → Text
encode_record c =
    field_bytes ((1, c.command) ∷ (1, length c.bytes) ∷ (2, c.delay_ms) ∷ []) ++ c.bytes

abbrev pub encode_records : List Command → Text
encode_records [] = []
encode_records (c ∷ rest) = encode_record c ++ encode_records rest

-- The header that a summary stands for.
abbrev pub header_fields : Firmware → List (ℕ × ℕ)
header_fields f =
    (2, 1)
    ∷ (2, 32)
    ∷ (2, f.record_count)
    ∷ (2, f.prelude_count)
    ∷ (4, f.payload_bytes)
    ∷ (4, f.payload_crc32)
    ∷ (4, 7)
    ∷ (2, f.max_params)
    ∷ (2, f.max_delay_ms)
    ∷ []

abbrev pub encode_firmware : Firmware → Text
encode_firmware f = magic ++ (field_bytes (header_fields f) ++ encode_records f.records)
