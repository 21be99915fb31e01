-- ===== src/Firmware/Parse.antt =====
-- `parse_blob` of generate_firmware.py.
use micro_nux.Base.{
  ℕ, zero, suc, ◌+◌, ◌-◌, not, ◌&&◌, ◌||◌, List, [], ◌∷◌, Text, text_eq, length, take, drop, ltb,
  leb, ◌==◌, Result, ok, ◌>>=◌, ◌>>◌, raise_if, or_raise,
}
use micro_nux.Base.Bytes.{le_at}
use micro_nux.Base.Crc32.{crc32}
use micro_nux.Firmware.{
  Error, Command, format, value_error, magic, format_version, flags_word, header_size,
  record_header_size, max_records, max_payload_bytes, max_param_bytes, max_delay_ms,
  truncated_header, unsupported_header, unsupported_flags, record_count, payload_length,
  payload_crc, record_header_truncated, record_bounds, record_data_truncated, trailing_bytes,
  encoded_maxima,
}
use micro_nux.Firmware.Build.{maximum, param_counts, delays}

-- `HEADER.unpack_from(blob)`, by offset.
pub record Header : Type 0 where
  pub magic_bytes : Text
  pub version : ℕ
  pub header_bytes : ℕ
  pub record_count : ℕ
  pub prelude_count : ℕ
  pub payload_bytes : ℕ
  pub payload_crc32 : ℕ
  pub flags : ℕ
  pub max_params : ℕ
  pub max_delay : ℕ

unfoldable pub unpack_header : Text → Header
unpack_header blob = record {
  magic_bytes = take 8 blob;
  version = le_at 2 8 blob;
  header_bytes = le_at 2 10 blob;
  record_count = le_at 2 12 blob;
  prelude_count = le_at 2 14 blob;
  payload_bytes = le_at 4 16 blob;
  payload_crc32 = le_at 4 20 blob;
  flags = le_at 4 24 blob;
  max_params = le_at 2 28 blob;
  max_delay = le_at 2 30 blob;
}

-- The dict that `parse_blob` returns.
pub record Firmware : Type 0 where
  pub record_count : ℕ
  pub prelude_count : ℕ
  pub payload_bytes : ℕ
  pub payload_crc32 : ℕ
  pub flags : ℕ
  pub max_params : ℕ
  pub max_delay_ms : ℕ
  pub records : List Command

-- The loop over `range(record_count)`: the rounds left, the round's index and the offset reached.
unfoldable pub parse_records : Text → ℕ → ℕ → ℕ → Result Error (List Command × ℕ)
parse_records payload zero index offset = ok ([], offset)
parse_records payload (suc n) index offset = do
  raise_if (ltb (length payload - offset) record_header_size)
      (format (record_header_truncated index))
  let command = le_at 1 offset payload
  let param_bytes = le_at 1 (offset + 1) payload
  let delay_ms = le_at 2 (offset + 2) payload
  let body = offset + record_header_size
  raise_if (ltb max_param_bytes param_bytes || ltb max_delay_ms delay_ms)
      (format (record_bounds index))
  raise_if (ltb (length payload - body) param_bytes) (format (record_data_truncated index))
  let bytes = take param_bytes (drop body payload)
  (records, end_offset) ← parse_records payload n (index + 1) (body + param_bytes)
  ok (record { command = command; bytes = bytes; delay_ms = delay_ms } ∷ records, end_offset)

unfoldable pub check_header : Text → Header → Result Error (Unit {0})
check_header blob h = do
  raise_if
      (not (text_eq h.magic_bytes magic)
        || not (h.version == format_version)
        || not (h.header_bytes == header_size))
      (format unsupported_header)
  raise_if (not (h.flags == flags_word)) (format unsupported_flags)
  raise_if
      (not (ltb 0 h.record_count && leb h.record_count max_records)
        || ltb h.record_count h.prelude_count)
      (format record_count)
  raise_if
      (ltb max_payload_bytes h.payload_bytes
        || not (length blob == h.header_bytes + h.payload_bytes))
      (format payload_length)

unfoldable pub parse_payload : Text → Header → Result Error Firmware
parse_payload payload h = do
  raise_if (not (crc32 payload == h.payload_crc32)) (format payload_crc)
  (records, offset) ← parse_records payload h.record_count 0 0
  raise_if (not (offset == length payload)) (format trailing_bytes)
  actual_max_params ← or_raise (maximum (param_counts records)) value_error
  actual_max_delay ← or_raise (maximum (delays records)) value_error
  raise_if (not (h.max_params == actual_max_params) || not (h.max_delay == actual_max_delay))
      (format encoded_maxima)
  ok (record {
    record_count = h.record_count;
    prelude_count = h.prelude_count;
    payload_bytes = h.payload_bytes;
    payload_crc32 = h.payload_crc32;
    flags = h.flags;
    max_params = actual_max_params;
    max_delay_ms = actual_max_delay;
    records = records;
  })

unfoldable pub parse_blob : Text → Result Error Firmware
parse_blob blob = do
  raise_if (ltb (length blob) header_size) (format truncated_header)
  let h = unpack_header blob
  check_header blob h
  parse_payload (drop h.header_bytes blob) h
