-- ===== src/Hardware/Serial/Windows.antt =====
-- The windows of `wait_for_prompt` (m9-hardware-test.py).
use micro_nux.Base.{
  ℕ, suc, ◌⊎◌, ◌≤◌, ◌≡◌, refl, Option, List, [], ◌∷◌, ◌++◌, Text, Option-cases, inl, inr, length,
  arith, sym, ap, ◌∙◌,
}
use micro_nux.Base.Utf8.{decode}
use micro_nux.Hardware.Serial.{
  Waited, Outcome, ended, expired, wait, outcome_of, prompt_test, prompt_windows, wait_for_prompt,
}

pub concat : List (List Text) → List Text
concat [] = []
concat (window ∷ windows) = window ++ concat windows

module _ {A : Type 0} (test : Text → Option A) where
  -- What is left to wait for behind a wait.
  abbrev resume : Waited A → List Text → Waited A
  resume (ended value) rounds = ended value
  resume (expired captured) rounds = wait test captured rounds

  wait-append :
      (captured : Text) (first rounds : List Text)
      → wait test captured (first ++ rounds) ≡ resume (wait test captured first) rounds
  unfolding wait
  wait-append captured [] rounds = refl
  wait-append captured ([] ∷ first) rounds = wait-append captured first rounds
  wait-append captured ((b ∷ bs) ∷ first) rounds =
      elim (Option-cases (test (decode (captured ++ (b ∷ bs))))) [
        | inl e ↦ rw (wait, e) (wait-append (captured ++ (b ∷ bs)) first rounds)
        | inr (value, e) ↦ rw (wait, e) refl
      ]

Waited-cases :
    {A : Type 0} (w : Waited A) → ((v : A) × (w ≡ ended v)) ⊎ ((c : Text) × (w ≡ expired c))
Waited-cases (ended v) = inl (v, refl)
Waited-cases (expired c) = inr (c, refl)

prompt_windows-wait :
    (captured : Text) (windows : List (List Text))
    → (prompt_windows captured windows).1 ≡ outcome_of (wait prompt_test captured (concat windows))
unfolding prompt_windows concat outcome_of wait
prompt_windows-wait captured [] = refl
prompt_windows-wait captured (window ∷ windows) =
    elim (Waited-cases (wait prompt_test captured window)) [
      | inl (outcome, e) ↦
          ap (λ w. (after w).1) e
          ∙ sym (
              ap outcome_of (
                wait-append prompt_test captured window (concat windows)
                ∙ ap (λ w. resume prompt_test w (concat windows)) e))
      | inr (c, e) ↦
          ap (λ w. (after w).1) e
          ∙ prompt_windows-wait c windows
          ∙ sym (
              ap outcome_of (
                wait-append prompt_test captured window (concat windows)
                ∙ ap (λ w. resume prompt_test w (concat windows)) e))
    ]
  where
    after : Waited (Outcome Text) → ℕ × Outcome Text
    after (ended outcome) = (1, outcome)
    after (expired captured') =
        let (sent, outcome) = prompt_windows captured' windows in (suc sent, outcome)

prompt_windows_le :
    (captured : Text) (windows : List (List Text))
    → (prompt_windows captured windows).0 ≤ length windows
unfolding prompt_windows
prompt_windows_le captured [] = omega arith
prompt_windows_le captured (window ∷ windows) =
    elim (Waited-cases (wait prompt_test captured window)) [
      | inl (outcome, e) ↦ rw (prompt_windows, e) (omega arith)
      | inr (c, e) ↦ rw (prompt_windows, e) (omega (arith, prompt_windows_le c windows))
    ]

-- The outcome of wait_for_prompt is that of one wait over all chunks, however they fall into the
-- windows of half a second, and no more newlines are sent than there are windows.
pub wait_for_prompt-wait :
    (windows : List (List Text))
    → ((wait_for_prompt windows).1 ≡ outcome_of (wait prompt_test [] (concat windows)))
      × ((wait_for_prompt windows).0 ≤ length windows)
unfolding wait_for_prompt
wait_for_prompt-wait windows = (prompt_windows-wait [] windows, prompt_windows_le [] windows)
