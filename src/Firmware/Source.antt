-- ===== src/Firmware/Source.antt =====
-- `_integer`, `_record` and `normalize_source` of generate_firmware.py.
use micro_nux.Base.{
  ℕ, ◌+◌, not, ◌&&◌, Option, none, some, List, [], ◌∷◌, ◌++◌, Text, codes, length, ltb, leb,
  if◌then◌else◌, Result, ok, raise, ◌>>=◌, ◌>>◌, raise_if, or_raise, ℤ, pos, negsuc,
}
use micro_nux.Base.Json.{Json, Items, Fields, get_field, is_text, is_count}
use micro_nux.Base.Numbers.{parse_int, from_hex}
use micro_nux.Firmware.{
  Error, FieldName, Command, format, attribute_error, record_command, record_delay, invalid_integer,
  invalid_type, data_not_text, data_not_hex, command_range, many_params, delay_range,
  unknown_schema, wrong_license, not_arrays, prelude_count, vendor_count, total_count,
  max_param_bytes, max_delay_ms, max_records,
}

-- `isinstance(value, int)` holds of a `bool` too.
unfoldable pub integer_of : Option Json → FieldName → Result Error ℤ
integer_of (some (Json.integer z)) field = ok z
integer_of (some (Json.boolean b)) field = ok (pos (if b then 1 else 0))
integer_of (some (Json.text s)) field = or_raise (parse_int s) (format (invalid_integer field))
integer_of other field = raise (format (invalid_type field))

-- `0 <= value <= bound`, with the value as a number where it holds.
unfoldable pub within : ℤ → ℕ → Option ℕ
within (pos n) bound = if leb n bound then some n else none
within (negsuc n) bound = none

text_of : Option Json → Option Text
text_of (some (Json.text s)) = some s
text_of other = none

fields_of : Json → Option Fields
fields_of (Json.object fields) = some fields
fields_of other = none

unfoldable pub read_record : Json → ℕ → Result Error Command
unfolding integer_of within text_of fields_of
read_record item index = do
  fields ← or_raise (fields_of item) attribute_error
  command ← integer_of (get_field (codes "command") fields) (record_command index)
  delay ← integer_of (get_field (codes "delay_ms") fields) (record_delay index)
  data_text ← or_raise (text_of (get_field (codes "data") fields)) (format (data_not_text index))
  bytes ← or_raise (from_hex data_text) (format (data_not_hex index))
  command' ← or_raise (within command 0xff) (format (command_range index))
  raise_if (ltb max_param_bytes (length bytes)) (format (many_params index))
  delay' ← or_raise (within delay max_delay_ms) (format (delay_range index))
  ok (record { command = command'; bytes = bytes; delay_ms = delay' })

abbrev pub items : Items → List Json
items Items.nil = []
items (Items.cons item rest) = item ∷ items rest

items_of : Option Json → Option (List Json)
items_of (some (Json.array xs)) = some (items xs)
items_of other = none

-- `[_record(item, index) for index, item in enumerate(...)]`
unfoldable pub read_records : ℕ → List Json → Result Error (List Command)
read_records index [] = ok []
read_records index (item ∷ rest) = do
  first ← read_record item index
  others ← read_records (index + 1) rest
  ok (first ∷ others)

-- `document.get("profile", {})`
profile_of : Option Json → Option Fields
unfolding fields_of
profile_of none = some Fields.end
profile_of (some profile) = fields_of profile

unfoldable pub normalize_source : Json → Result Error (List Command × ℕ)
unfolding fields_of items_of profile_of
normalize_source document = do
  fields ← or_raise (fields_of document) attribute_error
  raise_if
      (not
        (is_text (codes "micronux-jd9365-command-source-v1") (get_field (codes "schema") fields)))
      (format unknown_schema)
  raise_if (not (is_text (codes "Apache-2.0") (get_field (codes "license") fields)))
      (format wrong_license)
  prelude_items ← or_raise (items_of (get_field (codes "prelude") fields)) (format not_arrays)
  vendor_items ← or_raise (items_of (get_field (codes "vendor_records") fields)) (format not_arrays)
  expected ← or_raise (profile_of (get_field (codes "profile") fields)) attribute_error
  raise_if (not (is_count (length prelude_items) (get_field (codes "prelude_records") expected)))
      (format prelude_count)
  raise_if (not (is_count (length vendor_items) (get_field (codes "vendor_records") expected)))
      (format vendor_count)
  records ← read_records 0 (prelude_items ++ vendor_items)
  raise_if (not (ltb 0 (length records) && leb (length records) max_records)) (format total_count)
  ok (records, length prelude_items)
