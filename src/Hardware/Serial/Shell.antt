-- ===== src/Hardware/Serial/Shell.antt =====
-- The result of `wait_for_shell` (m9-hardware-test.py).
use micro_nux.Base.{
  ℕ, suc, ◌<◌, ◌≡◌, refl, ◌↔◌, true, false, ◌&&◌, none, some, List, [], Text, Option-cases,
  Bool-cases, inl, inr, arith, ◌⊎◌,
}
use micro_nux.Base.Find.{Occurs, is_within-Occurs}
use micro_nux.Base.Strings.{is_within}
use micro_nux.Hardware.{failure_marker}
use micro_nux.Hardware.Serial.{returned, wait, shell_ready, has_prompt, shell_test, wait_for_shell}
use micro_nux.Hardware.Serial.Command.{Unmarked, failure_marker-Unmarked, outcome_of-returned}
use micro_nux.Hardware.Serial.Waits.{seen, Arrives, EndsAt, wait-EndsAt}

-- The shell has said that it is ready, and its prompt stands at the end.
abbrev pub Ready : Text → Type 0
Ready text = Occurs shell_ready text × (has_prompt text ≡ true)

-- The text behind the chunk at `n` is the first one that shows a ready shell; no text before it has a
-- failure marker.
pub record BecomesReady (rounds : List Text) (n : ℕ) (text : Text) : Type 0 where
  pub arrives : Arrives rounds n
  pub output : text ≡ seen [] rounds (suc n)
  pub ready : Ready (seen [] rounds (suc n))
  pub earlier :
      (m : ℕ)
      → m < n
      → Arrives rounds m
      → (Ready (seen [] rounds (suc m)) → ⊥) × Unmarked (seen [] rounds (suc m))

module _ (text : Text) where
  Ready-cases :
      (Ready text × ((is_within shell_ready text && has_prompt text) ≡ true))
      ⊎ ((Ready text → ⊥) × ((is_within shell_ready text && has_prompt text) ≡ false))
  Ready-cases =
      let (forth, back) = is_within-Occurs shell_ready text in
      elim (Bool-cases (is_within shell_ready text)) [
        | inr e ↦ inr (λ (said, prompt). let held = back said in cc, rw e refl)
        | inl e ↦ elim (Bool-cases (has_prompt text)) [
          | inr f ↦ inr (λ (said, prompt). cc, rw (e, f) refl)
          | inl f ↦ inl ((forth e, f), rw (e, f) refl)
        ]
      ]

  shell_test-none : (shell_test text ≡ none) ↔ ((Ready text → ⊥) × Unmarked text)
  unfolding shell_test
  shell_test-none =
      let (unmarked, no_marker) = failure_marker-Unmarked text in
      elim Ready-cases [
        | inl (ready, e) ↦ rw (shell_test, e) (λ h. cc, λ h. absurd (h.0 ready))
        | inr (not_ready, e) ↦ elim (Option-cases (failure_marker text)) [
          | inl f ↦ rw (shell_test, e, f) (λ h. (not_ready, unmarked f), λ h. refl)
          | inr (m, f) ↦ rw (shell_test, e, f) (λ h. cc, λ h. let none_found = no_marker h.1 in cc)
        ]
      ]

  shell_test-some :
      (output : Text) → (shell_test text ≡ some (returned output)) ↔ ((output ≡ text) × Ready text)
  unfolding shell_test
  shell_test-some output = elim Ready-cases [
    | inl (ready, e) ↦ rw (shell_test, e) (λ h. (ground arith, ready), λ h. ground arith)
    | inr (not_ready, e) ↦ elim (Option-cases (failure_marker text)) [
      | inl f ↦ rw (shell_test, e, f) (λ h. cc, λ h. absurd (not_ready h.1))
      | inr (m, f) ↦ rw (shell_test, e, f) (λ h. cc, λ h. absurd (not_ready h.1))
    ]
  ]

module _ (rounds : List Text) (text : Text) where
  EndsAt-BecomesReady :
      (n : ℕ) → EndsAt shell_test [] rounds n (returned text) ↔ BecomesReady rounds n text
  EndsAt-BecomesReady n = (
    λ e.
        let (output, ready) = (shell_test-some (seen [] rounds (suc n)) text).0 e.accepted in
        record {
          arrives = e.arrives;
          output = output;
          ready = ready;
          earlier = λ m lt at. (shell_test-none (seen [] rounds (suc m))).0 (e.refused m lt at);
        },
    λ b. record {
      arrives = b.arrives;
      accepted = (shell_test-some (seen [] rounds (suc n)) text).1 (b.output, b.ready);
      refused = λ m lt at. (shell_test-none (seen [] rounds (suc m))).1 (b.earlier m lt at);
    },
  )

-- wait_for_shell returns a text exactly if it is the text behind some chunk that arrives before the
-- deadline and the first one to show a ready shell, where no text before it has a failure marker.
pub wait_for_shell-BecomesReady :
    (rounds : List Text) (text : Text)
    → (wait_for_shell rounds ≡ returned text) ↔ ((n : ℕ) × BecomesReady rounds n text)
unfolding wait_for_shell
wait_for_shell-BecomesReady rounds text =
    let (forth, back) = wait-EndsAt shell_test rounds (returned text) in
    let (ended_so, so_ended) = outcome_of-returned (wait shell_test [] rounds) text in
    (
      λ h. let (n, at) = forth (ended_so h) in (n, (EndsAt-BecomesReady rounds text n).0 at),
      λ (n, at). so_ended (back (n, (EndsAt-BecomesReady rounds text n).1 at)),
    )
