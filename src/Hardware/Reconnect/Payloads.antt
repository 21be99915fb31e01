-- ===== src/Hardware/Reconnect/Payloads.antt =====
-- What `recover_reconnect_prompt` (m9-hardware-test.py) writes, and what it returns.
use micro_nux.Base.{
  ◌==◌, ℕ, suc, ◌≤◌, ◌≡◌, ◌⊎◌, inl, inr, refl, Bool, true, false, Bool-cases, Option, none, some,
  List, [], ◌∷◌, ◌++◌, Text, codes, length, length-append, if◌then◌else◌, arith,
}
use micro_nux.Hardware.Serial.{
  Outcome, kernel_failure, reconnect_prompt_complete, returned, short_write, timed_out,
}
use micro_nux.Hardware.Reconnect.{
  Ending, Round, added, in_quotes, on_heard, on_response, payload_for, quote_closer, recover,
  recover_reconnect_prompt, responded, sent_first,
}

-- Newlines, and closers of double and single quotes in turn.
abbrev pub Alternates : ℕ → List Text → Type 0
Alternates closer_index [] = Unit
Alternates closer_index (payload ∷ sent) =
    ((payload ≡ codes "\n") × Alternates closer_index sent)
    ⊎ ((payload ≡ quote_closer closer_index) × Alternates (suc closer_index) sent)

-- A text that is returned shows a prompt behind some place; nothing else ends the wait but the deadline.
abbrev pub Ends : Outcome Text → Type 0
Ends (returned text) =
    (start : ℕ) × (start ≤ length text) × (reconnect_prompt_complete text start ≡ true)
Ends (kernel_failure marker) = ⊥
Ends short_write = ⊥
Ends timed_out = Unit

-- At most so many payloads, with the next closer given.
abbrev pub Keeps : ℕ → ℕ → Ending → Type 0
Keeps rounds closer_index ending =
    Alternates closer_index ending.0 × (length ending.0 ≤ rounds) × Ends ending.1

choose :
    {A : Type 0} (P : A → Type 0) (b : Bool) (x y : A)
    → (b ≡ true → P x)
    → P y
    → P (if b then x else y)
choose P true x y h k = h refl
choose P false x y h k = k

-- The payload is a newline or the next closer, and what follows goes on from the next index.
first_payload :
    (quoted : Bool) (rounds closer_index : ℕ) (ending : Ending)
    → let (payload, next_index) = payload_for quoted closer_index in
      Keeps rounds next_index ending → Keeps (suc rounds) closer_index (sent_first payload ending)
first_payload true rounds closer_index (sent, outcome) (alternates, le, ends) =
    (inr (refl, alternates), omega arith, ends)
first_payload false rounds closer_index (sent, outcome) (alternates, le, ends) =
    (inl (refl, alternates), omega arith, ends)

ended_with :
    (quoted : Bool) (rounds closer_index : ℕ) (outcome : Outcome Text)
    → Ends outcome
    → Keeps (suc rounds) closer_index ((payload_for quoted closer_index).0 ∷ [], outcome)
ended_with true rounds closer_index outcome ends = (inr (refl, tt), omega arith, ends)
ended_with false rounds closer_index outcome ends = (inl (refl, tt), omega arith, ends)

added_longer : (before : Text) (words : Option Text) → length before ≤ length (added before words)
added_longer before none = omega arith
added_longer before (some text) = omega (arith, length-append before text)

responded_longer :
    (before payload : Text) (written : Option ℕ) (response : Option Text) (after : Text)
    → responded before payload written response ≡ some after
    → length before ≤ length after
unfolding responded
responded_longer before payload none response after e = cc
responded_longer before payload (some written) none after e = cc
responded_longer before payload (some written) (some text) after e =
    elim (Bool-cases (written == length payload)) [
      | inl all ↦
          let same : before ++ text ≡ after = ground (arith, e, all) in
          rw (← same) (omega (arith, length-append before text))
      | inr short ↦ ground (arith, e, short)
    ]

more_rounds : (rounds k : ℕ) (ending : Ending) → Keeps rounds k ending → Keeps (suc rounds) k ending
more_rounds rounds k ending (alternates, le, ends) = (alternates, omega arith, ends)

module _ (again : ℕ → Text → Ending) (rounds : ℕ)
    (goes_on : (k : ℕ) (captured : Text) → Keeps rounds k (again k captured)) (round : Round) where
  on_response-Keeps :
      (quoted : Bool) (k : ℕ) (before : Text) (response : Option Text)
      → ((after : Text) → response ≡ some after → length before ≤ length after)
      → let (payload, next_index) = payload_for quoted k in
        Keeps (suc rounds) k (on_response (again next_index) round before payload response)
  unfolding on_response
  on_response-Keeps quoted k before (some after) longer =
      let next_index = (payload_for quoted k).1 in
      choose (Keeps (suc rounds) k) (reconnect_prompt_complete after (length before)) _ _
        (λ e. ended_with quoted rounds k (returned after) (length before, longer after refl, e))
        (first_payload quoted rounds k (again next_index after) (goes_on next_index after))
  on_response-Keeps quoted k before none longer =
      let next_index = (payload_for quoted k).1 in
      let after = added before round.last_words in
      choose (Keeps (suc rounds) k) (reconnect_prompt_complete after (length before)) _ _
        (λ e.
          ended_with quoted rounds k (returned after)
            (length before, added_longer before round.last_words, e))
        (choose (Keeps (suc rounds) k) round.reopens _ _
          (λ e. first_payload quoted rounds k (again next_index after) (goes_on next_index after))
          (ended_with quoted rounds k timed_out tt))

  on_heard-Keeps :
      (k : ℕ) (captured : Text) (heard : Option Text)
      → Keeps (suc rounds) k (on_heard again round k captured heard)
  unfolding on_heard
  on_heard-Keeps k captured none =
      choose (Keeps (suc rounds) k) round.reopens _ _
        (λ e. more_rounds rounds k _ (goes_on k captured)) (tt, omega arith, tt)
  on_heard-Keeps k captured (some heard) =
      let before = captured ++ heard in
      let quoted = in_quotes before in
      on_response-Keeps quoted k before
        (responded before (payload_for quoted k).0 round.written round.response)
        (responded_longer before (payload_for quoted k).0 round.written round.response)

recover-Keeps :
    (rounds : List Round) (k : ℕ) (captured : Text)
    → Keeps (length rounds) k (recover rounds k captured)
unfolding recover
recover-Keeps [] k captured = (tt, omega arith, tt)
recover-Keeps (round ∷ rounds) k captured =
    on_heard-Keeps (recover rounds) (length rounds) (recover-Keeps rounds) round k captured
      round.heard

-- However the port behaves in the rounds before the deadline, `recover_reconnect_prompt` writes at most one
-- payload in a round; each is a newline or a closing quote, the closing quotes being double and single in
-- turn from a double one on; and it ends by its deadline (or a port that does not reopen) or by returning a
-- text that shows a prompt behind some place in it.
pub recover_reconnect_prompt-Keeps :
    (rounds : List Round) → Keeps (length rounds) 0 (recover_reconnect_prompt rounds)
unfolding recover_reconnect_prompt
recover_reconnect_prompt-Keeps rounds = recover-Keeps rounds 0 []
