-- ===== src/Hardware/Serial/Command.antt =====
-- The results of `run_command` and `wait_for_shell` (m9-hardware-test.py).
use micro_nux.Base.{
  ℕ, suc, ◌<◌, ◌≡◌, refl, ◌↔◌, none, some, List, [], Text, length, All, Option-cases, Bool-cases,
  inl, inr, ◌==◌, ==_iff, arith, ap,
}
use micro_nux.Base.Find.{Occurs}
use micro_nux.Hardware.{failure_marker, failure_markers}
use micro_nux.Hardware.Boot.Order.{first_within-All}
use micro_nux.Hardware.Serial.{
  Waited, Outcome, CommandResult, ended, expired, returned, wait, token_of, payload_of, end_code,
  command_test, outcome_of, run_command,
}
use micro_nux.Hardware.Serial.Waits.{seen, Arrives, EndsAt, wait-EndsAt}

-- No failure marker stands in the text.
pub Unmarked : Text → Type 0
Unmarked text = All (λ m. Occurs m text → ⊥) failure_markers

pub failure_marker-Unmarked : (text : Text) → (failure_marker text ≡ none) ↔ Unmarked text
unfolding failure_marker Unmarked
failure_marker-Unmarked text = first_within-All failure_markers text

pub outcome_of-returned :
    {A : Type 0} (w : Waited (Outcome A)) (value : A)
    → (outcome_of w ≡ returned value) ↔ (w ≡ ended (returned value))
unfolding outcome_of
outcome_of-returned (ended outcome) value = (λ h. ap ended h, λ h. cc)
outcome_of-returned (expired captured) value = (λ h. cc, λ h. cc)

-- The text behind the chunk at `n` is the first one with an end marker of the token; up to there no
-- text has a failure marker.
pub record Completes (token : Text) (rounds : List Text) (n : ℕ) (result : CommandResult)
    : Type 0 where
  pub arrives : Arrives rounds n
  pub output : result.output ≡ seen [] rounds (suc n)
  pub code : end_code token (seen [] rounds (suc n)) ≡ some result.return_code
  pub unmarked : Unmarked (seen [] rounds (suc n))
  pub earlier :
      (m : ℕ)
      → m < n
      → Arrives rounds m
      → (end_code token (seen [] rounds (suc m)) ≡ none) × Unmarked (seen [] rounds (suc m))

command_test-none :
    (token text : Text)
    → (command_test token text ≡ none) ↔ ((end_code token text ≡ none) × Unmarked text)
unfolding command_test
command_test-none token text =
    let (unmarked, no_marker) = failure_marker-Unmarked text in
    elim (Option-cases (failure_marker text)) [
      | inr (m, e) ↦ rw (command_test, e) (λ h. cc, λ h. let none_found = no_marker h.1 in cc)
      | inl e ↦ elim (Option-cases (end_code token text)) [
        | inl f ↦ rw (command_test, e, f) (λ h. (refl, unmarked e), λ h. refl)
        | inr (code, f) ↦ rw (command_test, e, f) (λ h. cc, λ h. cc)
      ]
    ]

command_test-some :
    (token text : Text) (result : CommandResult)
    → (command_test token text ≡ some (returned result))
      ↔ ((result.output ≡ text) × (end_code token text ≡ some result.return_code) × Unmarked text)
unfolding command_test
command_test-some token text result =
    let (unmarked, no_marker) = failure_marker-Unmarked text in
    elim (Option-cases (failure_marker text)) [
      | inr (m, e) ↦ rw (command_test, e) (λ h. cc, λ h. let none_found = no_marker h.2 in cc)
      | inl e ↦ elim (Option-cases (end_code token text)) [
        | inl f ↦ rw (command_test, e, f) (λ h. cc, λ h. cc)
        | inr (code, f) ↦
            rw (command_test, e, f)
              (λ h. (ground arith, ground arith, unmarked e), λ h. ground arith)
      ]
    ]

module _ (token : Text) (rounds : List Text) (result : CommandResult) where
  EndsAt-Completes :
      (n : ℕ)
      → EndsAt (command_test token) [] rounds n (returned result)
      → Completes token rounds n result
  EndsAt-Completes n e =
      let (output, code, unmarked) =
        (command_test-some token (seen [] rounds (suc n)) result).0 e.accepted in
      record {
        arrives = e.arrives;
        output = output;
        code = code;
        unmarked = unmarked;
        earlier =
            λ m lt at. (command_test-none token (seen [] rounds (suc m))).0 (e.refused m lt at);
      }

  Completes-EndsAt :
      (n : ℕ)
      → Completes token rounds n result
      → EndsAt (command_test token) [] rounds n (returned result)
  Completes-EndsAt n c = record {
    arrives = c.arrives;
    accepted =
        (command_test-some token (seen [] rounds (suc n)) result).1 (c.output, c.code, c.unmarked);
    refused = λ m lt at. (command_test-none token (seen [] rounds (suc m))).1 (c.earlier m lt at);
  }

-- run_command returns a result exactly if the port takes the whole command and some chunk that arrives
-- before the deadline completes the first text with an end marker, where no text up to there has a
-- failure marker; the result has that text and the code that its end marker shows.
pub run_command-Completes :
    (command label ns : Text) (written : ℕ) (rounds : List Text) (result : CommandResult)
    → (run_command command label ns written rounds ≡ returned result) ↔ (
        (written ≡ length (payload_of (token_of label ns) command))
        × (n : ℕ) × Completes (token_of label ns) rounds n result)
unfolding run_command
run_command-Completes command label ns written rounds result =
    let token = token_of label ns in
    let whole = length (payload_of token command) in
    let (forth, back) = wait-EndsAt (command_test token) rounds (returned result) in
    let (ended_so, so_ended) = outcome_of-returned (wait (command_test token) [] rounds) result in
    elim (Bool-cases (written == whole)) [
      | inr e ↦ rw e (λ h. cc, λ h. absurd (ground (arith, h.0)))
      | inl e ↦ rw e (
        λ h.
            let (n, at) = forth (ended_so h) in
            ((==_iff written whole).0 e, n, EndsAt-Completes token rounds result n at),
        λ (w, n, at). so_ended (back (n, Completes-EndsAt token rounds result n at)),
      )
    ]
