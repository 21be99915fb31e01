-- ===== src/Firmware/Accepted.antt =====
-- The result of `normalize_source` (generate_firmware.py) against the bounds of the format.
use micro_nux.Base.{
  ℕ, suc, ◌+◌, ◌≤◌, ◌<◌, ◌≡◌, refl, List, [], ◌∷◌, ◌++◌, Text, codes, length, All, Option, none,
  some, ok, arith, ap, length-append, inl, inr, Result-cases,
}
use micro_nux.Base.Numbers.{from_hex, from_hex-IsByte}
use micro_nux.Base.Json.{Json, get_field}
use micro_nux.Firmware.{Command, IsBounded}
use micro_nux.Firmware.Source.{items, read_record, read_records, normalize_source}

field_of : Json → Text → Option Json
field_of (Json.object fields) key = get_field key fields
field_of other key = none

-- The text under "data", and the list under a key; of other values nothing.
digits_of : Json → Text
unfolding field_of
digits_of item = elim (field_of item (codes "data")) [ some (Json.text s) ↦ s | _ ↦ [] ]

list_of : Json → Text → List Json
unfolding field_of
list_of document key = elim (field_of document key) [ some (Json.array xs) ↦ items xs | _ ↦ [] ]

record_checks :
    (item : Json) (index : ℕ) {c : Command}
    → read_record item index ≡ ok c
    → (c.command ≤ 255)
      × (length c.bytes ≤ 64)
      × (c.delay_ms ≤ 5000)
      × (from_hex (digits_of item) ≡ some c.bytes)
unfolding read_record digits_of
record_checks item index h = ground arith

read_record-IsBounded :
    (item : Json) (index : ℕ) {c : Command} → read_record item index ≡ ok c → IsBounded c
read_record-IsBounded item index h =
    let (command, few, delay, hex) = record_checks item index h in
    record {
      command_bound = command;
      bytes_bound = few;
      delay_bound = delay;
      bytes_are_bytes = from_hex-IsByte (digits_of item) hex;
    }

read_records-IsBounded :
    (index : ℕ) (rest : List Json) {records : List Command}
    → read_records index rest ≡ ok records
    → All IsBounded records × (length records ≡ length rest)
unfolding read_records
read_records-IsBounded index [] {records} h = let e : records ≡ [] = ground arith in rw e (tt, refl)
read_records-IsBounded index (item ∷ rest) {records} h =
    elim (Result-cases (read_record item index)) [
      | inr (e, read) ↦ absurd (ground arith)
      | inl (first, read) ↦ elim (Result-cases (read_records (index + 1) rest)) [
        | inr (e, reads) ↦ absurd (ground arith)
        | inl (others, reads) ↦
            let (bounded, count) = read_records-IsBounded (index + 1) rest reads in
            let e : records ≡ first ∷ others = ground arith in
            rw e ((read_record-IsBounded item index read, bounded), ap suc count)
      ]
    ]

pub record IsAccepted (records : List Command) (prelude_count : ℕ) : Type 0 where
  pub bounded : All IsBounded records
  pub some_records : 0 < length records
  pub few_records : length records ≤ 512
  pub prelude_bound : prelude_count ≤ length records

source_checks :
    (document : Json) {records : List Command} {prelude_count : ℕ}
    → normalize_source document ≡ ok (records, prelude_count)
    → (read_records 0
          (list_of document (codes "prelude") ++ list_of document (codes "vendor_records"))
        ≡ ok records)
      × (0 < length records)
      × (length records ≤ 512)
      × (prelude_count ≡ length (list_of document (codes "prelude")))
unfolding normalize_source list_of
source_checks document h = ground arith

-- A source that `normalize_source` accepts has 1 to 512 records, each within the bounds of the
-- format and with bytes for its data, and no more prelude records than records.
pub normalize_source-IsAccepted :
    (document : Json) {records : List Command} {prelude_count : ℕ}
    → normalize_source document ≡ ok (records, prelude_count)
    → IsAccepted records prelude_count
unfolding normalize_source
normalize_source-IsAccepted document h =
    let (reads, given, few, prelude) = source_checks document h in
    let (bounded, count) = read_records-IsBounded 0 _ reads in
    record {
      bounded = bounded;
      some_records = given;
      few_records = few;
      prelude_bound = omega (
        arith,
        length-append {0} (list_of document (codes "prelude"))
            (list_of document (codes "vendor_records")),
      );
    }
