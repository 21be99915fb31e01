-- ===== src/Firmware.antt =====
-- buildroot-external/package/micronux-jd9365-firmware/generate_firmware.py: the panel's command
-- artifact, its records and limits. The children model the source reader, the writer and the parser.
pub mod Source
pub mod Build
pub mod Parse
pub mod Encoding
mod Records
pub mod Valid
mod Written
pub mod Accepted
pub mod RoundTrip
pub mod Canonical
use micro_nux.Base.{ℕ, ◌≤◌, Text, codes, length, List, All}
use micro_nux.Base.Bytes.{IsByte}

abbrev pub magic : Text
magic = codes "MNJD9365"

abbrev pub format_version : ℕ
format_version = 1

abbrev pub flags_word : ℕ
flags_word = 0x7

-- `HEADER.size` of "<8sHHHHIIIHH" and `RECORD_HEADER.size` of "<BBH".
abbrev pub header_size : ℕ
header_size = 32

abbrev pub record_header_size : ℕ
record_header_size = 4

abbrev pub max_records : ℕ
max_records = 512

abbrev pub max_payload_bytes : ℕ
max_payload_bytes = 65536

abbrev pub max_param_bytes : ℕ
max_param_bytes = 64

abbrev pub max_delay_ms : ℕ
max_delay_ms = 5000

-- The field that a message of `_integer` names, with the record's index.
pub data FieldName : Type 0 where
  record_command record_delay : ℕ → FieldName

-- `FirmwareFormatError`, by its message.
pub data FormatError : Type 0 where
  invalid_integer invalid_type : FieldName → FormatError
  data_not_text data_not_hex command_range many_params delay_range : ℕ → FormatError
  unknown_schema wrong_license not_arrays prelude_count vendor_count : FormatError
  total_count payload_too_large : FormatError
  truncated_header unsupported_header unsupported_flags record_count : FormatError
  payload_length payload_crc : FormatError
  record_header_truncated record_bounds record_data_truncated : ℕ → FormatError
  trailing_bytes encoded_maxima : FormatError

-- What a call raises. The last three are Python's own exceptions: an attribute that a value lacks,
-- a number out of its field's range in `struct.pack`, and `max` of nothing.
pub data Error : Type 0 where
  format : FormatError → Error
  attribute_error struct_error value_error : Error

-- The dict that `_record` returns. Its key "data" is the field `bytes`.
pub record Command : Type 0 where
  pub command : ℕ
  pub bytes : Text
  pub delay_ms : ℕ

-- The bounds of the format.
pub record IsBounded (c : Command) : Type 0 where
  pub command_bound : c.command ≤ 0xff
  pub bytes_bound : length c.bytes ≤ max_param_bytes
  pub delay_bound : c.delay_ms ≤ max_delay_ms
  pub bytes_are_bytes : All IsByte c.bytes
