-- ===== src/Firmware/Records.antt =====
-- The record loop of `parse_blob` (generate_firmware.py) against the encoding of records.
use mathlib.Core.List.{append_assoc}
use micro_nux.Base.{
  ℕ, zero, suc, ◌+◌, ◌-◌, ◌≤◌, ◌≡◌, refl, sym, ap, ◌∙◌, List, [], ◌∷◌, ◌++◌, Text, length, take,
  drop, All, length-append, length-drop, length-take, take-append-drop, All-drop, All-take,
  drop-drop, take-append, drop-append, ok, ◌>>=◌, Result-cases, inl, inr, arith,
}
use micro_nux.Base.Bytes.{IsByte, le_value, le_at, le_value-take_one}
use micro_nux.Firmware.{Command, IsBounded}
use micro_nux.Firmware.Parse.{parse_records}
use micro_nux.Firmware.Encoding.{encode_record, encode_records}

module _ (payload : Text) (offset : ℕ) (c : Command) (tail : Text) where
  module _ (h : drop offset payload ≡ encode_record c ++ tail) where
    at_one : drop (offset + 1) payload ≡ drop 1 (encode_record c ++ tail)
    at_one = sym (drop-drop 1 offset (offset + 1) payload refl) ∙ ap (drop 1) h

    at_two : drop (offset + 2) payload ≡ drop 2 (encode_record c ++ tail)
    at_two = sym (drop-drop 2 offset (offset + 2) payload refl) ∙ ap (drop 2) h

    at_body : drop (offset + 4) payload ≡ c.bytes ++ tail
    at_body = sym (drop-drop 4 offset (offset + 4) payload refl) ∙ ap (drop 4) h

    pub at_tail : drop (offset + 4 + length c.bytes) payload ≡ tail
    at_tail =
        sym (drop-drop (length c.bytes) (offset + 4) _ payload refl)
        ∙ ap (drop (length c.bytes)) at_body
        ∙ drop-append (length c.bytes) c.bytes tail refl

    room : length payload - offset ≡ 4 + length c.bytes + length tail
    room =
        sym (length-drop offset payload)
        ∙ ap length h
        ∙ omega (arith, length-append {0} c.bytes tail)

    module _ (b : IsBounded c) where
      command_read : le_at 1 offset payload ≡ c.command
      command_read = ap (λ s. le_value (take 1 s)) h ∙ omega (arith, b.command_bound)

      count_read : le_at 1 (offset + 1) payload ≡ length c.bytes
      count_read = ap (λ s. le_value (take 1 s)) at_one ∙ omega (arith, b.bytes_bound)

      delay_read : le_at 2 (offset + 2) payload ≡ c.delay_ms
      delay_read = ap (λ s. le_value (take 2 s)) at_two ∙ omega (arith, b.delay_bound)

      bytes_read : take (length c.bytes) (drop (offset + 4) payload) ≡ c.bytes
      bytes_read = ap (take (length c.bytes)) at_body ∙ take-append _ c.bytes tail refl

      pub parse_records_step :
          (n index : ℕ)
          → parse_records payload (suc n) index offset ≡ (
              parse_records payload n (index + 1) (offset + 4 + length c.bytes)
              >>= λ (records, end_offset). ok (c ∷ records, end_offset))
      unfolding parse_records
      parse_records_step n index =
          ground (arith, command_read, count_read, delay_read, bytes_read, room)

pub parse_records-encode_records :
    (payload : Text) (records : List Command) (rest : Text) (index offset : ℕ)
    → All IsBounded records
    → drop offset payload ≡ encode_records records ++ rest
    → parse_records payload (length records) index offset
      ≡ ok (records, offset + length (encode_records records))
parse_records-encode_records payload [] rest index offset b h =
    unfold parse_records in ap (λ (k : ℕ). ok ([], k)) (omega arith)
parse_records-encode_records payload (c ∷ records) rest index offset b h =
    let h' = h ∙ append_assoc (encode_record c) (encode_records records) rest in
    let ih =
      parse_records-encode_records payload records rest (index + 1) (offset + 4 + length c.bytes)
        b.1 (at_tail payload offset c _ h') in
    rw (parse_records_step payload offset c _ h' b.0, ih)
      (ap (λ (k : ℕ). ok (c ∷ records, k))
        (omega (arith, length-append {0} c.bytes (encode_records records))))

-- The record that one round of the loop reads at an offset.
abbrev record_at : Text → ℕ → Command
record_at payload offset = record {
  command = le_at 1 offset payload;
  bytes = take (le_at 1 (offset + 1) payload) (drop (offset + 4) payload);
  delay_ms = le_at 2 (offset + 2) payload;
}

record Round (payload : Text) (n index offset : ℕ) (records : List Command) (end_offset : ℕ)
    : Type 0 where
  others : List Command
  rest_read :
      parse_records payload n (index + 1) (offset + 4 + le_at 1 (offset + 1) payload)
      ≡ ok (others, end_offset)
  is_cons : records ≡ record_at payload offset ∷ others
  header_room : 4 ≤ length payload - offset
  count_bound : le_at 1 (offset + 1) payload ≤ 64
  delay_bound : le_at 2 (offset + 2) payload ≤ 5000
  bytes_room : le_at 1 (offset + 1) payload ≤ length payload - (offset + 4)

parse_records-Round :
    (payload : Text) (n index offset : ℕ) (records : List Command) (end_offset : ℕ)
    → parse_records payload (suc n) index offset ≡ ok (records, end_offset)
    → Round payload n index offset records end_offset
unfolding parse_records
parse_records-Round payload n index offset records end_offset h =
    elim (Result-cases
      (parse_records payload n (index + 1) (offset + 4 + le_at 1 (offset + 1) payload))) [
        | inl ((others, last), e) ↦ record {
          others = others;
          rest_read = ground arith;
          is_cons = ground arith;
          header_room = ground arith;
          count_bound = ground arith;
          delay_bound = ground arith;
          bytes_room = ground arith;
        }
        | inr (error, e) ↦ absurd (ground arith)
      ]

-- Four bytes and a body are the encoding of the record that is read from them.
encode_record-read :
    (front : Text) (k : ℕ)
    → All IsByte front
    → 4 ≤ length front
    → k ≡ le_value (take 1 (drop 1 front))
    → k ≤ length (drop 4 front)
    → encode_record (record {
      command = le_value (take 1 front);
      bytes = take k (drop 4 front);
      delay_ms = le_value (take 2 (drop 2 front));
    })
        ++ drop k (drop 4 front)
      ≡ front
encode_record-read (b0 ∷ b1 ∷ b2 ∷ b3 ∷ body) k h room e fits =
    ground (arith, take-append-drop k body, length-take k body)
encode_record-read _ k h room e fits = absurd (omega arith)

-- What a successful loop has read: `n` records within the bounds, and their encoding.
pub record Reads (payload : Text) (n offset : ℕ) (records : List Command) (end_offset : ℕ)
    : Type 0 where
  pub count : length records ≡ n
  pub bounded : All IsBounded records
  pub encoded : drop offset payload ≡ encode_records records ++ drop end_offset payload
  pub end_bound : end_offset ≤ length payload

module _ (payload : Text) (are_bytes : All IsByte payload) where
  record_at-IsBounded :
      {n index offset end_offset : ℕ} {records : List Command}
      → Round payload n index offset records end_offset
      → IsBounded (record_at payload offset)
  record_at-IsBounded {offset = offset} r = record {
    command_bound =
        omega (
          arith,
          le_value-take_one (drop offset payload) (All-drop IsByte offset payload are_bytes),
        );
    bytes_bound =
        omega (arith, length-take (le_at 1 (offset + 1) payload) (drop (offset + 4) payload));
    delay_bound = r.delay_bound;
    bytes_are_bytes = All-take IsByte _ _ (All-drop IsByte (offset + 4) payload are_bytes);
  }

  record_at-encoded :
      {n index offset end_offset : ℕ} {records : List Command}
      → Round payload n index offset records end_offset
      → drop offset payload
        ≡ encode_record (record_at payload offset)
          ++ drop (offset + 4 + le_at 1 (offset + 1) payload) payload
  record_at-encoded {offset = offset} r =
      let front = drop offset payload in
      let k = le_at 1 (offset + 1) payload in
      sym (
        rw (at_two, at_four, at_end) at
          (encode_record-read front k (All-drop IsByte offset payload are_bytes)
            (omega (arith, length-drop offset payload)) (rw at_one)
            (rw at_four (omega (arith, length-drop (offset + 4) payload)))))
    where
      at_one : drop 1 (drop offset payload) ≡ drop (offset + 1) payload
      at_one = drop-drop 1 offset _ payload refl

      at_two : drop 2 (drop offset payload) ≡ drop (offset + 2) payload
      at_two = drop-drop 2 offset _ payload refl

      at_four : drop 4 (drop offset payload) ≡ drop (offset + 4) payload
      at_four = drop-drop 4 offset _ payload refl

      at_end :
          drop (le_at 1 (offset + 1) payload) (drop (offset + 4) payload)
          ≡ drop (offset + 4 + le_at 1 (offset + 1) payload) payload
      at_end = drop-drop _ (offset + 4) _ payload refl

  pub parse_records-Reads :
      (n index offset : ℕ) (records : List Command) (end_offset : ℕ)
      → offset ≤ length payload
      → parse_records payload n index offset ≡ ok (records, end_offset)
      → Reads payload n offset records end_offset
  parse_records-Reads zero index offset records end_offset le h =
      unfold parse_records in
      record {
        count = ground arith;
        bounded = let e : records ≡ [] = ground arith in rw e tt;
        encoded = ground arith;
        end_bound = ground arith;
      }
  parse_records-Reads (suc n) index offset records end_offset le h =
      let r = parse_records-Round payload n index offset records end_offset h in
      let rest =
        parse_records-Reads n (index + 1) (offset + 4 + le_at 1 (offset + 1) payload) r.others
          end_offset (omega arith) r.rest_read in
      rw r.is_cons (record {
        count = ap suc rest.count;
        bounded = (record_at-IsBounded r, rest.bounded);
        encoded =
            record_at-encoded r
            ∙ ap (λ s. encode_record (record_at payload offset) ++ s) rest.encoded
            ∙ sym (
                append_assoc (encode_record (record_at payload offset)) (encode_records r.others)
                  _);
        end_bound = rest.end_bound;
      })
