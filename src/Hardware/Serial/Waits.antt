-- ===== src/Hardware/Serial/Waits.antt =====
-- When the waits of m9-hardware-test.py end, and with what.
use mathlib.Core.List.{append_assoc, append-nil}
use micro_nux.Base.{
  ℕ, zero, suc, ◌<◌, ◌≡◌, refl, ◌↔◌, Option, none, some, List, [], ◌∷◌, ◌++◌, Text, take, get_elem?,
  Option-cases, inl, inr, arith, sym, ap, ◌∙◌,
}
use micro_nux.Base.Utf8.{decode}
use micro_nux.Hardware.Serial.{ended, wait, capture_bytes}

-- The text that is tested behind the first `n` chunks.
abbrev pub seen : Text → List Text → ℕ → Text
seen captured rounds n = decode (captured ++ capture_bytes (take n rounds))

-- The chunk at a place is not empty.
abbrev pub Arrives : List Text → ℕ → Type 0
Arrives rounds n = (b : ℕ) × (bs : Text) × (get_elem? rounds n ≡ some (b ∷ bs))

module _ {A : Type 0} (test : Text → Option A) where
  -- The text behind the chunk at `n` is the first one that the test accepts.
  pub record EndsAt (captured : Text) (rounds : List Text) (n : ℕ) (value : A) : Type 0 where
    pub arrives : Arrives rounds n
    pub accepted : test (seen captured rounds (suc n)) ≡ some value
    pub refused : (m : ℕ) → m < n → Arrives rounds m → test (seen captured rounds (suc m)) ≡ none

  module _ (captured : Text) (b : ℕ) (bs : Text) (rounds : List Text) where
    seen_more :
        (n : ℕ) → seen captured ((b ∷ bs) ∷ rounds) (suc n) ≡ seen (captured ++ (b ∷ bs)) rounds n
    unfolding capture_bytes
    seen_more n = ap decode (sym (append_assoc captured (b ∷ bs) (capture_bytes (take n rounds))))

    seen_now : seen captured ((b ∷ bs) ∷ rounds) 1 ≡ decode (captured ++ (b ∷ bs))
    unfolding capture_bytes
    seen_now = ap (λ bytes. decode (captured ++ bytes)) (append-nil (b ∷ bs))

    now :
        (value : A)
        → test (decode (captured ++ (b ∷ bs))) ≡ some value
        → EndsAt captured ((b ∷ bs) ∷ rounds) 0 value
    now value h = record {
      arrives = (b, bs, refl);
      accepted = ap test seen_now ∙ h;
      refused = λ m lt at. absurd (omega arith);
    }

    EndsAt-later :
        (n : ℕ) (value : A)
        → test (decode (captured ++ (b ∷ bs))) ≡ none
        → EndsAt (captured ++ (b ∷ bs)) rounds n value
        → EndsAt captured ((b ∷ bs) ∷ rounds) (suc n) value
    EndsAt-later n value h e = record {
      arrives = e.arrives;
      accepted = ap test (seen_more (suc n)) ∙ e.accepted;
      refused = refused;
    }
      where
        refused :
            (m : ℕ)
            → m < suc n
            → Arrives ((b ∷ bs) ∷ rounds) m
            → test (seen captured ((b ∷ bs) ∷ rounds) (suc m)) ≡ none
        refused zero lt at = ap test seen_now ∙ h
        refused (suc m) lt at = ap test (seen_more (suc m)) ∙ e.refused m (omega arith) at

    earlier-EndsAt :
        (n : ℕ) (value : A)
        → EndsAt captured ((b ∷ bs) ∷ rounds) (suc n) value
        → EndsAt (captured ++ (b ∷ bs)) rounds n value
    earlier-EndsAt n value e = record {
      arrives = e.arrives;
      accepted = sym (ap test (seen_more (suc n))) ∙ e.accepted;
      refused = λ m lt at. sym (ap test (seen_more (suc m))) ∙ e.refused (suc m) (omega arith) at;
    }

  EndsAt-silence :
      (captured : Text) (rounds : List Text) (n : ℕ) (value : A)
      → EndsAt captured rounds n value
      → EndsAt captured ([] ∷ rounds) (suc n) value
  unfolding capture_bytes
  EndsAt-silence captured rounds n value e = record {
    arrives = e.arrives;
    accepted = e.accepted;
    refused = refused;
  }
    where
      refused :
          (m : ℕ)
          → m < suc n
          → Arrives ([] ∷ rounds) m
          → test (seen captured ([] ∷ rounds) (suc m)) ≡ none
      refused zero lt (b, bs, at) = cc
      refused (suc m) lt at = e.refused m (omega arith) at

  silence-EndsAt :
      (captured : Text) (rounds : List Text) (n : ℕ) (value : A)
      → EndsAt captured ([] ∷ rounds) (suc n) value
      → EndsAt captured rounds n value
  unfolding capture_bytes
  silence-EndsAt captured rounds n value e = record {
    arrives = e.arrives;
    accepted = e.accepted;
    refused = λ m lt at. e.refused (suc m) (omega arith) at;
  }

  pub ended_at :
      (captured : Text) (rounds : List Text) (value : A)
      → wait test captured rounds ≡ ended value
      → (n : ℕ) × EndsAt captured rounds n value
  unfolding wait
  ended_at captured [] value h = cc
  ended_at captured ([] ∷ rounds) value h =
      let (n, e) = ended_at captured rounds value h in
      (suc n, EndsAt-silence captured rounds n value e)
  ended_at captured ((b ∷ bs) ∷ rounds) value h =
      elim (Option-cases (test (decode (captured ++ (b ∷ bs))))) [
        | inl e ↦
            let later : wait test (captured ++ (b ∷ bs)) rounds ≡ ended value = ground (arith, e) in
            let (n, at) = ended_at (captured ++ (b ∷ bs)) rounds value later in
            (suc n, EndsAt-later captured b bs rounds n value e at)
        | inr (v, e) ↦
            let same : v ≡ value = ground (arith, e) in
            (zero, now captured b bs rounds value (e ∙ ap some same))
      ]

  pub ends_at :
      (captured : Text) (rounds : List Text) (n : ℕ) (value : A)
      → EndsAt captured rounds n value
      → wait test captured rounds ≡ ended value
  unfolding wait
  ends_at captured [] n value e = let (b, bs, at) = e.arrives in cc
  ends_at captured ([] ∷ rounds) zero value e = let (b, bs, at) = e.arrives in cc
  ends_at captured ([] ∷ rounds) (suc n) value e =
      ends_at captured rounds n value (silence-EndsAt captured rounds n value e)
  ends_at captured ((b ∷ bs) ∷ rounds) zero value e =
      let accepted = sym (ap test (seen_now captured b bs rounds)) ∙ e.accepted in
      rw (wait, accepted) refl
  ends_at captured ((b ∷ bs) ∷ rounds) (suc n) value e =
      let refused =
        sym (ap test (seen_now captured b bs rounds)) ∙ e.refused 0 (omega arith) (b, bs, refl) in
      rw (wait, refused)
        (ends_at (captured ++ (b ∷ bs)) rounds n value
          (earlier-EndsAt captured b bs rounds n value e))

  -- A wait ends with a value exactly if the test accepts with that value the text behind some chunk that
  -- is not empty, and refuses the text behind each such chunk before.
  pub wait-EndsAt :
      (rounds : List Text) (value : A)
      → (wait test [] rounds ≡ ended value) ↔ ((n : ℕ) × EndsAt [] rounds n value)
  wait-EndsAt rounds value =
      (λ h. ended_at [] rounds value h, λ (n, e). ends_at [] rounds n value e)
