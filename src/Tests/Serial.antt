-- ===== src/Tests/Serial.antt =====
-- Runs of the serial waits of m9-hardware-test.py.
use micro_nux.Base.{◌≤◌, ◌≡◌, ◌↔◌, refl, ℕ, [], ◌∷◌, ◌++◌, List, Text, codes, length}
use micro_nux.Base.Regex.{search, searches, matches}
use micro_nux.Base.Strings.{is_within, number}
use micro_nux.Base.Utf8.{decode}
use micro_nux.Hardware.{failure_marker, first_within}
use micro_nux.Hardware.Serial.{
  outcome_of, CommandResult, returned, run_command, payload_of, token_of, wait, command_test,
  end_code, wait_for_shell, wait_for_prompt, prompt_windows, prompt_test, shell_test, has_prompt,
}
use micro_nux.Hardware.Serial.Command.{Completes, run_command-Completes}
use micro_nux.Hardware.Serial.Windows.{concat, wait_for_prompt-wait}
use micro_nux.Hardware.Serial.Shell.{BecomesReady, wait_for_shell-BecomesReady}

abbrev token : Text
token = token_of (codes "TOUCH") (codes "77")

abbrev sent : ℕ
sent = length (payload_of token (codes "false"))

abbrev answer : Text
answer = token ++ codes ":BEGIN\n"

abbrev result : ℕ → Text → CommandResult
result code output = record { output = output; return_code = code }

answered :
    run_command
      (codes "false")
      (codes "TOUCH")
      (codes "77")
      sent
      (answer ∷ [] ∷ (token ++ codes ":END:1\n") ∷ [])
    ≡ returned (result 1 (answer ++ (token ++ codes ":END:1\n")))
unfolding run_command payload_of wait command_test end_code search failure_marker first_within
    is_within number decode
answered = refl

-- A code of three digits that arrives in two chunks is cut at the first one.
cut_code :
    run_command
      (codes "false")
      (codes "TOUCH")
      (codes "77")
      sent
      ((token ++ codes ":END:1") ∷ codes "27\n" ∷ [])
    ≡ returned (result 1 (token ++ codes ":END:1"))
unfolding run_command payload_of wait command_test end_code search failure_marker first_within
    is_within number decode
cut_code = refl

abbrev boot_chunks : List Text
boot_chunks = codes "MICRONUX:M6:COMBINED:SHELL ready\r\n" ∷ codes "/ # " ∷ []

prompted : wait_for_shell boot_chunks ≡ returned (codes "MICRONUX:M6:COMBINED:SHELL ready\r\n/ # ")
unfolding wait_for_shell wait shell_test has_prompt search searches matches failure_marker
    first_within is_within decode
prompted = refl

second_window :
    wait_for_prompt ((codes "\n> " ∷ []) ∷ (codes "\n/ # " ∷ []) ∷ [])
    ≡ (2, returned (codes "\n> \n/ # "))
unfolding wait_for_prompt prompt_windows wait prompt_test has_prompt search searches matches
    failure_marker first_within is_within decode
second_window = refl

run_command-Completes_example :
    (run_command
        (codes "false")
        (codes "TOUCH")
        (codes "77")
        sent
        (answer ∷ [] ∷ (token ++ codes ":END:1\n") ∷ [])
      ≡ returned (result 1 (answer ++ (token ++ codes ":END:1\n"))))
    ↔ ((sent ≡ length (payload_of token (codes "false")))
        × (n : ℕ) × Completes token
            (answer ∷ [] ∷ (token ++ codes ":END:1\n") ∷ [])
            n
            (result 1 (answer ++ (token ++ codes ":END:1\n"))))
run_command-Completes_example =
    run_command-Completes (codes "false") (codes "TOUCH") (codes "77") sent
      (answer ∷ [] ∷ (token ++ codes ":END:1\n") ∷ [])
      (result 1 (answer ++ (token ++ codes ":END:1\n")))

wait_for_shell-BecomesReady_example :
    (wait_for_shell boot_chunks ≡ returned (codes "MICRONUX:M6:COMBINED:SHELL ready\r\n/ # "))
    ↔ ((n : ℕ) × BecomesReady boot_chunks n (codes "MICRONUX:M6:COMBINED:SHELL ready\r\n/ # "))
wait_for_shell-BecomesReady_example =
    wait_for_shell-BecomesReady boot_chunks (codes "MICRONUX:M6:COMBINED:SHELL ready\r\n/ # ")

abbrev windows : List (List Text)
windows = (codes "\n> " ∷ []) ∷ (codes "\n/ # " ∷ []) ∷ []

wait_for_prompt-wait_example :
    ((wait_for_prompt windows).1 ≡ outcome_of (wait prompt_test [] (concat windows)))
    × ((wait_for_prompt windows).0 ≤ length windows)
wait_for_prompt-wait_example = wait_for_prompt-wait windows
