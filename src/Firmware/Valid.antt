-- ===== src/Firmware/Valid.antt =====
-- Well-formed artifacts of generate_firmware.py, and the sizes of their parts.
use micro_nux.Base.{
  ℕ, ◌*◌, ◌≤◌, ◌<◌, ◌≡◌, refl, max, some, List, [], ◌∷◌, length, All, length-append, arith,
}
use micro_nux.Base.Bytes.{FieldsFit}
use micro_nux.Base.Crc32.{crc32, crc32-lt}
use micro_nux.Firmware.{Command, IsBounded, flags_word, max_records, max_payload_bytes}
use micro_nux.Firmware.Build.{maximum, param_counts, delays}
use micro_nux.Firmware.Parse.{Firmware}
use micro_nux.Firmware.Encoding.{encode_records, header_fields}

pub record IsFirmware (f : Firmware) : Type 0 where
  pub bounded : All IsBounded f.records
  pub count : f.record_count ≡ length f.records
  pub some_records : 0 < f.record_count
  pub few_records : f.record_count ≤ max_records
  pub prelude_bound : f.prelude_count ≤ f.record_count
  pub payload_length : f.payload_bytes ≡ length (encode_records f.records)
  pub payload_sum : f.payload_crc32 ≡ crc32 (encode_records f.records)
  pub flags_fixed : f.flags ≡ flags_word
  pub greatest_params : maximum (param_counts f.records) ≡ some f.max_params
  pub greatest_delay : maximum (delays f.records) ≡ some f.max_delay_ms

-- A record takes 68 bytes at most, so 512 records never reach the payload limit.
length-encode_records :
    (records : List Command)
    → All IsBounded records
    → length (encode_records records) ≤ 68 * length records
length-encode_records [] h = omega arith
length-encode_records (c ∷ records) h = omega (
  arith,
  h.0.bytes_bound,
  length-encode_records records h.1,
  length-append {0} c.bytes (encode_records records),
)

pub payload_fits :
    (records : List Command)
    → All IsBounded records
    → length records ≤ max_records
    → length (encode_records records) ≤ max_payload_bytes
payload_fits records h few = omega (arith, length-encode_records records h)

maximum-le : (k : ℕ) (ns : List ℕ) {m : ℕ} → All (λ i. i ≤ k) ns → maximum ns ≡ some m → m ≤ k
maximum-le k [] h e = cc
maximum-le k (n ∷ []) h e = ground arith
maximum-le k (n ∷ i ∷ ns) h e = maximum-le k (max n i ∷ ns) (omega arith, h.1.1) e

-- Numbers below a bound have a greatest one, if there are any.
pub greatest :
    (k : ℕ) (ns : List ℕ)
    → 0 < length ns
    → All (λ i. i ≤ k) ns
    → (m : ℕ) × (maximum ns ≡ some m) × (m ≤ k)
greatest k [] some_given h = absurd (omega arith)
greatest k (n ∷ []) some_given h = (n, refl, h.0)
greatest k (n ∷ i ∷ ns) some_given h = greatest k (max n i ∷ ns) (omega arith) (omega arith, h.1.1)

pub param_counts-le :
    (records : List Command) → All IsBounded records → All (λ i. i ≤ 64) (param_counts records)
param_counts-le [] h = tt
param_counts-le (c ∷ records) h = (h.0.bytes_bound, param_counts-le records h.1)

pub delays-le :
    (records : List Command) → All IsBounded records → All (λ i. i ≤ 5000) (delays records)
delays-le [] h = tt
delays-le (c ∷ records) h = (h.0.delay_bound, delays-le records h.1)

pub IsFirmware-FieldsFit : {f : Firmware} → IsFirmware f → FieldsFit (header_fields f)
IsFirmware-FieldsFit {f} v = omega (
  arith,
  payload_fits f.records v.bounded (omega arith),
  crc32-lt (encode_records f.records),
  maximum-le 64 (param_counts f.records) (param_counts-le f.records v.bounded) v.greatest_params,
  maximum-le 5000 (delays f.records) (delays-le f.records v.bounded) v.greatest_delay,
)
